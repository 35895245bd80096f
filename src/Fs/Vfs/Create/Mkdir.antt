-- ===== src/Fs/Vfs/Create/Mkdir.antt =====
-- `vfs_mkdir`, and `vfs_open` of the same path.
use old_boruixkernel.Common.{
  ℕ, suc, ◌<◌, ◌≡◌, ◌≢◌, refl, sym, ap, ◌∙◌, subst, Bool, true, false, Option, none, some, List, [],
  ◌∷◌, ◌==◌, ==_refl, arith, Bool-cases, Option-cases, inl, inr, bytes_eq,
}
use old_boruixkernel.Fs.Vfs.{
  VfsNodeType, dir, VfsFs, ok, err, not_dir, World, Vfs, bind_result, set_node, is_dir, is_symlink,
}
use old_boruixkernel.Fs.Vfs.Laws.{bind-eq-ok}
use old_boruixkernel.Fs.Vfs.Path.{Bytes, slash, normalize_path}
use old_boruixkernel.Fs.Vfs.Nodes.{vfs_child_find, vfs_node_alloc, get_filesystem_by_id}
use old_boruixkernel.Fs.Vfs.Nodes.Tree.{
  IsClosed, Extends, Extends-refl, Extends-trans, find_named_below, appended, appended-used,
  appended-IsClosed, appended-finds, appended-Extends,
}
use old_boruixkernel.Fs.Vfs.Nodes.Similar.{
  Similar, Similar-IsClosed, Similar-finds, Similar-Extends, dir_set,
}
use old_boruixkernel.Fs.Vfs.Open.{
  trim_slashes, path_parts, child_or_open, visit, open_parts, vfs_open,
}
use old_boruixkernel.Fs.Vfs.Create.{make_absolute, op_mkdir, new_dir, mkdir_parts, vfs_mkdir}

-- `mkdir` of the file systems, where it succeeds, keeps the tree.
abbrev pub KeepsTree : {F : Type 0} → List (VfsFs F) → Type 0
KeepsTree {F} registry =
    (id : ℕ) (fs : VfsFs F) (parent : ℕ) (name : Bytes) (node : ℕ) (w w' : World F)
    → get_filesystem_by_id registry id ≡ some fs
    → fs.ops.mkdir parent name node w ≡ (ok tt, w')
    → Similar w w'

-- A new directory, found under its name.
record Made {F : Type 0} (parent : ℕ) (p : Bytes) (node : ℕ) (w w' : World F) : Type 0 where
  closed : IsClosed w'
  extends : Extends w w'
  finds : vfs_child_find parent p w' ≡ some node
  is_new_dir : is_dir (w'.nodes node).node_type ≡ true
  below : node < w'.used

dir_no_link : (t : VfsNodeType) → is_dir t ≡ true → is_symlink t ≡ false
dir_no_link t h = ground arith

module _ {F : Type 0} (registry : List (VfsFs F)) (alive : ℕ → Bool)
    (laws : KeepsTree registry) where
  op-Similar :
      (id parent : ℕ) (p : Bytes) (node : ℕ) (w w' : World F) (r : Option (VfsFs F)) (a : Unit {0})
      → get_filesystem_by_id registry id ≡ r
      → op_mkdir registry alive r parent p node w ≡ some (ok a, w')
      → Similar w w'
  op-Similar id parent p node w w' none a q e =
      let k : w ≡ w' = cc in
      subst (λ z. Similar w z) k
        (record {
          used = refl;
          same_root = refl;
          names = λ i. refl;
          children = λ i. refl;
          dirs = λ i h. h;
        })
  op-Similar id parent p node w w' (some fs) a q e =
      let k : fs.ops.mkdir parent p node w ≡ (ok a, w') = cc in laws id fs parent p node w w' q k

  new_dir-Made :
      (parent : ℕ) (p : Bytes) (w : World F) (node : ℕ) (w' : World F)
      → IsClosed w
      → parent < w.used
      → vfs_child_find parent p w ≡ none
      → new_dir registry alive parent p w ≡ some (ok node, w')
      → Made parent p node w w'
  unfolding new_dir vfs_node_alloc
  new_dir-Made parent p w node w' c lt none_there e =
      let w1 = appended w parent p c lt in
      let w2 = set_node w.used (record (w1.nodes w.used) { node_type = dir }) w1 in
      let r = get_filesystem_by_id registry (w.nodes parent).fsid in
      let s1 : Similar w1 w2 = dir_set w1 w.used in
      let (a, w3, m, k) =
        bind-eq-ok (op_mkdir registry alive r parent p w.used w2) (λ _ z. some (ok w.used, z)) node
          w' e in
      let same : w3 ≡ w' = cc in
      let id : w.used ≡ node = cc in
      let s2 : Similar w2 w' =
        subst (λ z. Similar w2 z) same
          (op-Similar (w.nodes parent).fsid parent p w.used w2 w3 r a refl m) in
      record {
        closed =
            Similar-IsClosed w2 w' s2
              (Similar-IsClosed w1 w2 s1 (appended-IsClosed w parent p c lt));
        extends =
            Extends-trans w w1 w' (appended-Extends w parent p c lt)
              (Extends-trans w1 w2 w' (Similar-Extends w1 w2 s1) (Similar-Extends w2 w' s2));
        finds =
            Similar-finds w2 w' s2 parent p
            ∙ Similar-finds w1 w2 s1 parent p
            ∙ appended-finds w parent p c lt none_there
            ∙ ap some id;
        is_new_dir =
            subst (λ n. is_dir (w'.nodes n).node_type ≡ true) id
              (s2.dirs w.used (rw (==_refl w.used) refl));
        below = omega (arith, id, s2.used, s1.used, appended-used w parent p c lt);
      }

  -- One step of each loop.
  mkdir_blank :
      (current : ℕ) (p : Bytes) (ps : List Bytes) (w : World F)
      → bytes_eq p [] ≡ true
      → mkdir_parts registry alive current ps w ≡ mkdir_parts registry alive current (p ∷ ps) w
  unfolding mkdir_parts
  mkdir_blank current p ps w blank = rw (mkdir_parts, blank) refl

  mkdir_dir :
      (current next : ℕ) (p : Bytes) (ps : List Bytes) (w : World F)
      → bytes_eq p [] ≡ false
      → vfs_child_find current p w ≡ some next
      → is_dir (w.nodes next).node_type ≡ true
      → mkdir_parts registry alive next ps w ≡ mkdir_parts registry alive current (p ∷ ps) w
  unfolding mkdir_parts
  mkdir_dir current next p ps w full found d = rw (mkdir_parts, full, found, d) refl

  mkdir_file :
      (current next : ℕ) (p : Bytes) (ps : List Bytes) (w w' : World F)
      → bytes_eq p [] ≡ false
      → vfs_child_find current p w ≡ some next
      → is_dir (w.nodes next).node_type ≡ false
      → mkdir_parts registry alive current (p ∷ ps) w ≢ some (ok tt, w')
  unfolding mkdir_parts
  mkdir_file current next p ps w w' full found d e =
      let k : mkdir_parts registry alive current (p ∷ ps) w ≡ some (err not_dir, w) =
        rw (mkdir_parts, full, found, d) refl in
      cc

  mkdir_new :
      (current : ℕ) (p : Bytes) (ps : List Bytes) (w : World F)
      → bytes_eq p [] ≡ false
      → vfs_child_find current p w ≡ none
      → bind_result (new_dir registry alive current p w) (λ n z. mkdir_parts registry alive n ps z)
        ≡ mkdir_parts registry alive current (p ∷ ps) w
  unfolding mkdir_parts
  mkdir_new current p ps w full missing = rw (mkdir_parts, full, missing) refl

  open_blank :
      (follow : Bytes → Vfs F ℕ) (current budget : ℕ) (p : Bytes) (ps : List Bytes) (w : World F)
      → bytes_eq p [] ≡ true
      → open_parts registry alive follow current budget (p ∷ ps) w
        ≡ open_parts registry alive follow current budget ps w
  unfolding open_parts
  open_blank follow current budget p ps w blank = rw (open_parts, blank) refl

  -- What `open_parts` does at a part that is a directory.
  open_dir :
      (follow : Bytes → Vfs F ℕ) (current budget next : ℕ) (p : Bytes) (ps : List Bytes)
      (w : World F)
      → bytes_eq p [] ≡ false
      → vfs_child_find current p w ≡ some next
      → is_dir (w.nodes next).node_type ≡ true
      → open_parts registry alive follow current budget (p ∷ ps) w
        ≡ open_parts registry alive follow next budget ps w
  unfolding open_parts child_or_open visit
  open_dir follow current budget next p ps w full found d =
      let no_link : is_symlink (w.nodes next).node_type ≡ false =
        dir_no_link (w.nodes next).node_type d in
      let step : open_parts registry alive follow current budget (p ∷ ps) w
          ≡ visit registry alive follow (λ n b. open_parts registry alive follow n b ps) budget next
              w =
        rw (open_parts, full, child_or_open, found) refl in
      step ∙ rw (visit, no_link) refl

  -- Where the directories of a path have been made, the path leads to the last of them.
  pub mkdir_parts-open_parts :
      (follow : Bytes → Vfs F ℕ) (budget : ℕ) (ps : List Bytes) (current : ℕ) (w w' : World F)
      → IsClosed w
      → current < w.used
      → is_dir (w.nodes current).node_type ≡ true
      → mkdir_parts registry alive current ps w ≡ some (ok tt, w')
      → Extends w w'
        × (node : ℕ) × (open_parts registry alive follow current budget ps w' ≡ some (ok node, w'))
        × (is_dir (w'.nodes node).node_type ≡ true)
  unfolding mkdir_parts open_parts
  mkdir_parts-open_parts follow budget [] current w w' c lt d e =
      let k : w ≡ w' = cc in
      (
        subst (λ z. Extends w z) k (Extends-refl w),
        current,
        refl,
        subst (λ z. is_dir (z.nodes current).node_type ≡ true) k d,
      )
  mkdir_parts-open_parts follow budget (p ∷ ps) current w w' c lt d e =
      elim (Bool-cases (bytes_eq p [])) [
        | inl blank ↦
            let (x, node, o, k) =
              mkdir_parts-open_parts follow budget ps current w w' c lt d
                (mkdir_blank current p ps w blank ∙ e) in
            (x, node, open_blank follow current budget p ps w' blank ∙ o, k)
        | inr full ↦ elim (Option-cases (vfs_child_find current p w)) [
          | inr (next, found) ↦ elim (Bool-cases (is_dir (w.nodes next).node_type)) [
            | inr file ↦ absurd (mkdir_file current next p ps w w' full found file e)
            | inl is_d ↦
                let below =
                  find_named_below w.nodes p (w.nodes current).children w.used next (c current lt)
                    found in
                let (x, node, o, k) =
                  mkdir_parts-open_parts follow budget ps next w w' c below is_d
                    (mkdir_dir current next p ps w full found is_d ∙ e) in
                (
                  x,
                  node,
                  open_dir follow current budget next p ps w' full (x.finds current p next lt found)
                        (x.dirs next below is_d)
                      ∙ o,
                  k,
                )
          ]
          | inl missing ↦
              let (made, w1, q, r) =
                bind-eq-ok (new_dir registry alive current p w)
                  (λ n z. mkdir_parts registry alive n ps z) tt w'
                  (mkdir_new current p ps w full missing ∙ e) in
              let m = new_dir-Made current p w made w1 c lt missing q in
              let (x, node, o, k) =
                mkdir_parts-open_parts follow budget ps made w1 w' m.closed m.below m.is_new_dir
                  r in
              let all = Extends-trans w w1 w' m.extends x in
              let found = x.finds current p made (omega (arith, lt, m.extends.grows)) m.finds in
              (
                all,
                node,
                open_dir follow current budget made p ps w' full found
                      (x.dirs made m.below m.is_new_dir)
                    ∙ o,
                k,
              )
        ]
      ]

  same_parts : (path : Bytes) → path_parts (make_absolute path) ≡ path_parts path
  unfolding trim_slashes
  same_parts [] = refl
  same_parts (c ∷ s) = elim (Bool-cases (c == slash)) [
    | inl e ↦ let m : make_absolute (c ∷ s) ≡ c ∷ s = rw e refl in ap (λ z. path_parts z) m
    | inr e ↦ let m : make_absolute (c ∷ s) ≡ slash ∷ c ∷ s = rw e refl in ap (λ z. path_parts z) m
  ]

  -- Where `vfs_mkdir` succeeds, `vfs_open` of the same path then gives a directory and changes nothing, and
  -- every directory of before still is one, with the children that were found in it found as before. The
  -- nodes form a tree with a directory as its root, and `mkdir` of the file systems keeps it.
  pub vfs_open-vfs_mkdir :
      (path : Bytes) (fuel : ℕ) (w w' : World F)
      → IsClosed w
      → w.root < w.used
      → is_dir (w.nodes w.root).node_type ≡ true
      → vfs_mkdir registry alive path w ≡ some (ok tt, w')
      → Extends w w'
        × (node : ℕ) × (vfs_open registry alive (suc fuel) path w' ≡ some (ok node, w'))
        × (is_dir (w'.nodes node).node_type ≡ true)
  unfolding vfs_mkdir vfs_open
  vfs_open-vfs_mkdir path fuel w w' c lt d e =
      let parts = path_parts (normalize_path path) in
      let k : mkdir_parts registry alive w.root parts w ≡ some (ok tt, w') =
        ap (λ ps. mkdir_parts registry alive w.root ps w) (sym (same_parts (normalize_path path)))
        ∙ e in
      let (x, node, o, t) =
        mkdir_parts-open_parts (λ p. vfs_open registry alive fuel p) 8 parts w.root w w' c lt d k in
      elim (Bool-cases (bytes_eq (normalize_path path) (slash ∷ []))) [
        | inl root ↦ (
          x,
          w.root,
          rw (vfs_open, root) (ap (λ r. some (ok r, w')) x.same_root),
          x.dirs w.root lt d,
        )
        | inr other ↦ (
          x,
          node,
          rw (vfs_open, other)
              (ap
                  (λ r.
                    open_parts registry alive (λ p. vfs_open registry alive fuel p) r 8 parts w')
                  x.same_root
                ∙ o),
          t,
        )
      ]
