-- ===== src/Fs/Vfs/Change/Delete.antt =====
-- What `vfs_delete` removes.
use old_boruixkernel.Common.{
  ℕ, ◌≡◌, ◌≢◌, refl, ap, ◌∙◌, subst, Bool, true, some, List, [], ◌∷◌, ◌==◌, ==_refl, ◌&&◌, not,
  keep, arith, Bool-cases, Option-cases, inl, inr, All,
}
use old_boruixkernel.Fs.Vfs.{VfsFs, ok, err, invalid, not_empty, World, bind_result, is_dir}
use old_boruixkernel.Fs.Vfs.Laws.{bind-eq-ok}
use old_boruixkernel.Fs.Vfs.Path.{Bytes}
use old_boruixkernel.Fs.Vfs.Nodes.{get_filesystem_by_id, drop_child, upgrade}
use old_boruixkernel.Fs.Vfs.Open.{vfs_open}
use old_boruixkernel.Fs.Vfs.Change.{is_empty, op_delete, delete_node, vfs_delete}

keep_away : (n : ℕ) (cs : List ℕ) → All (λ c. c ≢ n) (keep (λ c. not (c == n)) cs)
unfolding keep
keep_away n [] = tt
keep_away n (c ∷ cs) = elim (Bool-cases (c == n)) [
  | inl e ↦ rw e (keep_away n cs)
  | inr e ↦ rw e ((λ k. ground arith), keep_away n cs)
]

module _ {F : Type 0} (registry : List (VfsFs F)) (alive : ℕ → Bool) where
  -- What a deletion that succeeds has found and done.
  pub record Deleted (node : ℕ) (w w' : World F) : Type 0 where
    pub parent : ℕ
    pub has_parent : upgrade alive (w.nodes node).parent ≡ some parent
    pub was_empty : is_dir (w.nodes node).node_type ≡ true → (w.nodes node).children ≡ []
    pub gone : All (λ c. c ≢ node) (w'.nodes parent).children

  empty_nil : (cs : List ℕ) → is_empty cs ≡ true → cs ≡ []
  empty_nil [] h = refl
  empty_nil (c ∷ cs) h = cc

  delete_step :
      (node parent : ℕ) (w w' : World F)
      → bind_result
          (op_delete registry alive
            (get_filesystem_by_id registry (w.nodes parent).fsid)
            parent
            node
            w)
          (λ _ w1. some (ok tt, drop_child parent node w1))
        ≡ some (ok tt, w')
      → All (λ c. c ≢ node) (w'.nodes parent).children
  delete_step node parent w w' e =
      let (a, w1, m, k) =
        bind-eq-ok
          (op_delete registry alive (get_filesystem_by_id registry (w.nodes parent).fsid) parent
            node w)
          (λ _ w1. some (ok tt, drop_child parent node w1)) tt w' e in
      let same : drop_child parent node w1 ≡ w' = cc in
      let cs : keep (λ c. not (c == node)) (w1.nodes parent).children
          ≡ ((drop_child parent node w1).nodes parent).children =
        rw (==_refl parent) refl in
      subst (λ z. All (λ c. c ≢ node) z) (cs ∙ ap (λ z. (z.nodes parent).children) same)
        (keep_away node (w1.nodes parent).children)

  delete_node-Deleted :
      (node : ℕ) (w w' : World F)
      → delete_node registry alive node w ≡ some (ok tt, w')
      → Deleted node w w'
  unfolding delete_node
  delete_node-Deleted node w w' e = elim (Option-cases (upgrade alive (w.nodes node).parent)) [
    | inl orphan ↦ absurd (
        let k : delete_node registry alive node w ≡ some (err invalid, w) =
          rw (delete_node, orphan) refl in
        cc)
    | inr (parent, has) ↦
        elim (Bool-cases
          (is_dir (w.nodes node).node_type && not (is_empty (w.nodes node).children))) [
            | inl full ↦ absurd (
                let k : delete_node registry alive node w ≡ some (err not_empty, w) =
                  rw (delete_node, has, full) refl in
                cc)
            | inr fine ↦
                let k : bind_result
                      (op_delete registry alive
                        (get_filesystem_by_id registry (w.nodes parent).fsid) parent node w)
                      (λ _ w1. some (ok tt, drop_child parent node w1))
                    ≡ delete_node registry alive node w =
                  rw (delete_node, has, fine) refl in
                record {
                  parent = parent;
                  has_parent = has;
                  was_empty = λ d. empty_nil (w.nodes node).children (ground (arith, fine, d));
                  gone = delete_step node parent w w' (k ∙ e);
                }
          ]
  ]

  -- Where `vfs_delete` succeeds, the path led to a node with a parent, the node was no directory with
  -- children, and it is not among the children of that parent any more.
  pub vfs_delete-Deleted :
      (fuel : ℕ) (path : Bytes) (w w' : World F)
      → vfs_delete registry alive fuel path w ≡ some (ok tt, w')
      → (node : ℕ) × (w1 : World F) × (vfs_open registry alive fuel path w ≡ some (ok node, w1))
        × Deleted node w1 w'
  unfolding vfs_delete
  vfs_delete-Deleted fuel path w w' e =
      let (node, w1, o, k) =
        bind-eq-ok (vfs_open registry alive fuel path w) (delete_node registry alive) tt w' e in
      (node, w1, o, delete_node-Deleted node w1 w' k)
