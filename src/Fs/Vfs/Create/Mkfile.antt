-- ===== src/Fs/Vfs/Create/Mkfile.antt =====
-- `vfs_mkfile` of a path that names no file.
use old_boruixkernel.Common.{
  ℕ, ◌<◌, ◌≡◌, ◌≢◌, refl, sym, ap, ◌∙◌, subst, Bool, Option, none, some, List, ◌∷◌, Option-cases,
  inl, inr,
}
use old_boruixkernel.Fs.Vfs.{none_type, VfsFs, ok, err, exists, World}
use old_boruixkernel.Fs.Vfs.Laws.{bind-eq-ok}
use old_boruixkernel.Fs.Vfs.Path.{Bytes, slash, join, drop_last, normalize_path}
use old_boruixkernel.Fs.Vfs.Nodes.{vfs_child_find, vfs_node_alloc, get_filesystem_by_id}
use old_boruixkernel.Fs.Vfs.Nodes.Tree.{
  IsClosed, Extends, Extends-trans, appended, appended-IsClosed, appended-finds, appended-Extends,
  appended-new_type,
}
use old_boruixkernel.Fs.Vfs.Open.{path_parts, vfs_open}
use old_boruixkernel.Fs.Vfs.Create.{
  make_absolute, last_part, op_mkfile, fresh_file, new_file, vfs_mkfile,
}
use old_boruixkernel.Fs.Vfs.Nodes.Similar.{
  Similar, Similar-IsClosed, Similar-finds, Similar-Extends,
}

-- `mkfile` of the file systems, where it succeeds on a node without a type, keeps the tree.
abbrev pub KeepsFiles : {F : Type 0} → List (VfsFs F) → Type 0
KeepsFiles {F} registry =
    (id : ℕ) (fs : VfsFs F) (parent : ℕ) (name : Bytes) (node : ℕ) (w w' : World F)
    → get_filesystem_by_id registry id ≡ some fs
    → (w.nodes node).node_type ≡ none_type
    → fs.ops.mkfile parent name node w ≡ (ok tt, w')
    → Similar w w'

-- The path of the directory, which `vfs_mkfile` opens.
abbrev pub dir_path : Bytes → Bytes
dir_path path = slash ∷ join (drop_last (path_parts (make_absolute (normalize_path path))))

module _ {F : Type 0} (registry : List (VfsFs F)) (alive : ℕ → Bool)
    (laws : KeepsFiles registry) where
  op-Similar :
      (id parent : ℕ) (p : Bytes) (node : ℕ) (w w' : World F) (r : Option (VfsFs F)) (a : Unit {0})
      → get_filesystem_by_id registry id ≡ r
      → (w.nodes node).node_type ≡ none_type
      → op_mkfile registry alive r parent p node w ≡ some (ok a, w')
      → Similar w w'
  op-Similar id parent p node w w' none a q t e =
      let k : w ≡ w' = cc in
      subst (λ z. Similar w z) k
        (record {
          used = refl;
          same_root = refl;
          names = λ i. refl;
          children = λ i. refl;
          dirs = λ i h. h;
        })
  op-Similar id parent p node w w' (some fs) a q t e =
      let k : fs.ops.mkfile parent p node w ≡ (ok a, w') = cc in laws id fs parent p node w w' q t k

  -- `new_file` gives a node that exists from now on, and that its name finds in the parent; a name that is
  -- taken is an error and changes nothing.
  pub new_file-finds :
      (parent : ℕ) (name : Bytes) (w w' : World F) (node : ℕ)
      → IsClosed w
      → parent < w.used
      → new_file registry alive parent name w ≡ some (ok node, w')
      → IsClosed w'
        × Extends w w'
        × (vfs_child_find parent name w ≡ none)
        × (node ≡ w.used)
        × (vfs_child_find parent name w' ≡ some node)
        × (new_file registry alive parent name w' ≡ some (err exists, w'))
  unfolding new_file fresh_file vfs_node_alloc
  new_file-finds parent name w w' node c lt e = elim (Option-cases (vfs_child_find parent name w)) [
    | inr (taken, found) ↦ absurd (
        let k : new_file registry alive parent name w ≡ some (err exists, w) =
          rw (new_file, found) refl in
        cc)
    | inl free ↦
        let w1 = appended w parent name c lt in
        let r = get_filesystem_by_id registry (w.nodes parent).fsid in
        let step : fresh_file registry alive parent name w ≡ new_file registry alive parent name w =
          rw (new_file, free) refl in
        let (a, w2, m, q) =
          bind-eq-ok (op_mkfile registry alive r parent name w.used w1) (λ _ z. some (ok w.used, z))
            node w' (step ∙ e) in
        let same : w2 ≡ w' = cc in
        let id : w.used ≡ node = cc in
        let s : Similar w1 w' =
          subst (λ z. Similar w1 z) same
            (op-Similar (w.nodes parent).fsid parent name w.used w1 w2 r a refl
              (appended-new_type w parent name c lt) m) in
        let finds : vfs_child_find parent name w' ≡ some node =
          Similar-finds w1 w' s parent name ∙ appended-finds w parent name c lt free ∙ ap some id in
        (
          Similar-IsClosed w1 w' s (appended-IsClosed w parent name c lt),
          Extends-trans w w1 w' (appended-Extends w parent name c lt) (Similar-Extends w1 w' s),
          free,
          sym id,
          finds,
          rw (new_file, finds) refl,
        )
  ]

  -- `vfs_mkfile` once the directory has been opened.
  vfs_mkfile-opened :
      (fuel : ℕ) (path name : Bytes) (parent : ℕ) (w w1 : World F)
      → last_part (path_parts (make_absolute (normalize_path path))) ≡ some name
      → vfs_open registry alive fuel (dir_path path) w ≡ some (ok parent, w1)
      → vfs_mkfile registry alive fuel path w ≡ new_file registry alive parent name w1
  unfolding vfs_mkfile
  vfs_mkfile-opened fuel path name parent w w1 last opens = rw (vfs_mkfile, last, opens) refl

  -- Where the directory of the path has been opened, `vfs_mkfile` fails with `exists` and changes nothing if
  -- the directory has a child of the last name. Otherwise a success gives a node that did not exist, the
  -- last name finds it in the directory from then on, all that was found before still is, and a second
  -- call, if its directory opens as the first one's did, fails with `exists`. The nodes form a tree, and
  -- `mkfile` of the file systems keeps it.
  pub vfs_mkfile-finds :
      (fuel : ℕ) (path name : Bytes) (parent node : ℕ) (w w1 w' : World F)
      → last_part (path_parts (make_absolute (normalize_path path))) ≡ some name
      → vfs_open registry alive fuel (dir_path path) w ≡ some (ok parent, w1)
      → IsClosed w1
      → parent < w1.used
      → ((vfs_child_find parent name w1 ≢ none)
          → vfs_mkfile registry alive fuel path w ≡ some (err exists, w1))
        × (vfs_mkfile registry alive fuel path w ≡ some (ok node, w')
            → (vfs_child_find parent name w1 ≡ none)
              × (node ≡ w1.used)
              × (vfs_child_find parent name w' ≡ some node)
              × Extends w1 w'
              × (vfs_open registry alive fuel (dir_path path) w' ≡ some (ok parent, w')
                  → vfs_mkfile registry alive fuel path w' ≡ some (err exists, w')))
  unfolding vfs_mkfile new_file
  vfs_mkfile-finds fuel path name parent node w w1 w' last opens c lt =
      let step =
        λ (v v1 : World F)
            (o : vfs_open registry alive fuel (dir_path path) v ≡ some (ok parent, v1)).
          vfs_mkfile-opened fuel path name parent v v1 last o in
      (
        (λ taken. step w w1 opens ∙ elim (Option-cases (vfs_child_find parent name w1)) [
          | inl free ↦ absurd (taken free)
          | inr (n, found) ↦ rw (new_file, found) refl
        ]),
        (λ e.
            let (closed, x, free, id, finds, again) =
              new_file-finds parent name w1 w' node c lt (sym (step w w1 opens) ∙ e) in
            (free, id, finds, x, (λ o. step w' w' o ∙ again))),
      )
