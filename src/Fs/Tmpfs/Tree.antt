-- ===== src/Fs/Tmpfs/Tree.antt =====
-- `mkdir` and `mkfile` of the temporary file system keep the tree of nodes.
use old_boruixkernel.Common.{
  ℕ, ◌≡◌, refl, sym, ap, ◌∙◌, subst, true, none, some, List, [], ◌∷◌, ◌==◌, ==_refl, arith,
  Bool-cases, inl, inr,
}
use old_boruixkernel.Fs.Vfs.{dir, none_type, VfsNodeType, VfsFs, World, is_dir}
use old_boruixkernel.Fs.Vfs.Nodes.{get_filesystem_by_id}
use old_boruixkernel.Fs.Vfs.Nodes.Similar.{Similar}
use old_boruixkernel.Fs.Vfs.Create.Mkdir.{KeepsTree}
use old_boruixkernel.Fs.Vfs.Create.Mkfile.{KeepsFiles}
use old_boruixkernel.Fs.Tmpfs.{TmpfsKind, dir_kind, file_kind, Boxes, make, tmpfs}

-- The registry that holds this file system only, under the number 1.
abbrev pub only_tmpfs : List (VfsFs Boxes)
only_tmpfs = record { fs_name = 116 ∷ 109 ∷ 112 ∷ 102 ∷ 115 ∷ []; fs_id = 1; ops = tmpfs } ∷ []

is_tmpfs :
    (id : ℕ) (fs : VfsFs Boxes) → get_filesystem_by_id only_tmpfs id ≡ some fs → fs.ops ≡ tmpfs
unfolding get_filesystem_by_id
is_tmpfs id fs e = elim (Bool-cases (1 == id)) [
  | inl h ↦
      let k : get_filesystem_by_id only_tmpfs id
          ≡ some (record { fs_name = 116 ∷ 109 ∷ 112 ∷ 102 ∷ 115 ∷ []; fs_id = 1; ops = tmpfs }) =
        rw (get_filesystem_by_id, h) refl in
      cc
  | inr h ↦
      let k : get_filesystem_by_id only_tmpfs id ≡ none = rw (get_filesystem_by_id, h) refl in
      absurd (cc)
]

-- A new content and another type that is not less of a directory.
make-Similar :
    (kind : TmpfsKind) (t : VfsNodeType) (node : ℕ) (w : World Boxes)
    → (is_dir (w.nodes node).node_type ≡ true → is_dir t ≡ true)
    → Similar w (make kind t node w).1
make-Similar kind t node w d = record {
  used = refl;
  same_root = refl;
  names = λ i. elim (Bool-cases (i == node)) [
    | inl e ↦ let k : i ≡ node = ground arith in rw (k, ==_refl node) refl
    | inr e ↦ rw e refl
  ];
  children = λ i. elim (Bool-cases (i == node)) [
    | inl e ↦ let k : i ≡ node = ground arith in rw (k, ==_refl node) refl
    | inr e ↦ rw e refl
  ];
  dirs = λ i h. elim (Bool-cases (i == node)) [
    | inl e ↦
        let k : i ≡ node = ground arith in
        rw (k, ==_refl node) (d (subst (λ z. is_dir (w.nodes z).node_type ≡ true) k h))
    | inr e ↦ rw e h
  ];
}

pub tmpfs-KeepsTree : KeepsTree only_tmpfs
unfolding tmpfs
tmpfs-KeepsTree id fs parent name node w w' q e =
    let o = is_tmpfs id fs q in
    let k : (make dir_kind dir node w).1 ≡ w' =
      ap (λ r. r.1) (sym (ap (λ ops. ops.mkdir parent name node w) o) ∙ e) in
    subst (λ z. Similar w z) k (make-Similar dir_kind dir node w (λ x. refl))

pub tmpfs-KeepsFiles : KeepsFiles only_tmpfs
unfolding tmpfs
tmpfs-KeepsFiles id fs parent name node w w' q t e =
    let o = is_tmpfs id fs q in
    let k : (make file_kind none_type node w).1 ≡ w' =
      ap (λ r. r.1) (sym (ap (λ ops. ops.mkfile parent name node w) o) ∙ e) in
    subst (λ z. Similar w z) k
      (make-Similar file_kind none_type node w (λ x. ap is_dir (sym t) ∙ x))
