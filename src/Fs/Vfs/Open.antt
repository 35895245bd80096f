-- ===== src/Fs/Vfs/Open.antt =====
-- `vfs_open`, `vfs_open_nofollow` and `vfs_resolve_symlink` of kernel_fs/src/vfs/mod.rs. A link is opened
-- by a call of `vfs_open` in `vfs_open`, and each such call takes one unit of fuel.
pub mod Loops
use old_boruixkernel.Common.{
  ℕ, zero, suc, ◌+◌, ◌-◌, Bool, true, false, Option, none, some, List, [], ◌∷◌, ◌++◌, ◌==◌,
  if◌then◌else◌, bytes_eq,
}
use old_boruixkernel.Fs.Vfs.{
  VfsNode, VfsOps, VfsFs, VfsResult, ok, err, panicked, VfsError, invalid, not_found, no_dev,
  not_supported, World, Vfs, bind_result, ◌>>=◌, ◌>>◌, return, throw, call, get_node, is_symlink,
}
use old_boruixkernel.Fs.Vfs.Path.{Bytes, slash, split, is_absolute, normalize_path, path_join}
use old_boruixkernel.Fs.Vfs.Nodes.{
  get_filesystem_by_id, vfs_child_append, vfs_child_find, vfs_free, upgrade, vfs_get_fullpath,
}

-- `trim_start_matches('/')`.
unfoldable pub trim_slashes : Bytes → Bytes
trim_slashes [] = []
trim_slashes (c ∷ s) = let rest = trim_slashes s in if c == slash then rest else c ∷ s

abbrev pub path_parts : Bytes → List Bytes
path_parts path = split (trim_slashes path)

abbrev pub error_of : VfsError → VfsError
error_of not_supported = not_found
error_of e = e

module _ {F : Type 0} (registry : List (VfsFs F)) (alive : ℕ → Bool) where
  -- What follows the call of `open` of the file system.
  abbrev pub opened : ℕ → VfsResult (Unit {0}) × World F → Option (VfsResult ℕ × World F)
  opened node (ok _, w) = some (ok node, w)
  opened node (err e, w) = some (err (error_of e), vfs_free alive node w)
  opened node (panicked, w) = some (panicked, w)

  -- The child of that name, which the file system may provide.
  unfoldable pub child_or_open : ℕ → Bytes → Vfs F ℕ
  child_or_open current part w = elim (vfs_child_find current part w) [
    | some n ↦ some (ok n, w)
    | none ↦ elim (get_filesystem_by_id registry (w.nodes current).fsid) [
      | none ↦ some (err no_dev, w)
      | some fs ↦
          let (node, w') = vfs_child_append current part w in
          opened node (fs.ops.open_node current part node w')
    ]
  ]

  abbrev pub base_path : ℕ → World F → Bytes
  base_path node w = elim (upgrade alive (w.nodes node).parent) [
    | none ↦ slash ∷ []
    | some p ↦ vfs_get_fullpath alive p w
  ]

  -- `follow` stands for `vfs_open`.
  unfoldable pub vfs_resolve_symlink : (Bytes → Vfs F ℕ) → ℕ → Vfs F (Option ℕ)
  vfs_resolve_symlink follow node w = elim (upgrade alive (w.nodes node).linkto) [
    | some link ↦ some (ok (some link), w)
    | none ↦ elim (w.nodes node).linkto_path [
      | none ↦ some (ok none, w)
      | some path ↦
          bind_result
            (follow (if is_absolute path then path else path_join (base_path node w) path) w)
            (λ n. return (some n))
    ]
  ]

  -- What the loop of `vfs_open` does with the next node; `rest` goes on with the parts that are left.
  unfoldable pub visit : (Bytes → Vfs F ℕ) → (ℕ → ℕ → Vfs F ℕ) → ℕ → ℕ → Vfs F ℕ
  visit follow rest budget next w = elim (is_symlink (w.nodes next).node_type) [
    | false ↦ rest next budget w
    | true ↦ elim (budget == 0) [
      | true ↦ some (err invalid, w)
      | false ↦ bind_result (vfs_resolve_symlink follow next w) λ target w1. elim target [
        | none ↦ some (err not_found, w1)
        | some t ↦ rest t (budget - 1) w1
      ]
    ]
  ]

  -- The loop of `vfs_open`; a link that is the last part gives its target, as the end of the loop does.
  unfoldable pub open_parts : (Bytes → Vfs F ℕ) → ℕ → ℕ → List Bytes → Vfs F ℕ
  open_parts follow current budget [] w = some (ok current, w)
  open_parts follow current budget (part ∷ parts) w = elim (bytes_eq part []) [
    | true ↦ open_parts follow current budget parts w
    | false ↦
        bind_result (child_or_open current part w)
          (visit follow (λ n b. open_parts follow n b parts) budget)
  ]

  unfoldable pub vfs_open : ℕ → Bytes → Vfs F ℕ
  unfolding trim_slashes
  vfs_open zero path w = none
  vfs_open (suc fuel) path w =
      if bytes_eq (normalize_path path) (slash ∷ [])
      then some (ok w.root, w)
      else open_parts (λ p. vfs_open fuel p) w.root 8 (path_parts (normalize_path path)) w

  -- The loop of `vfs_open_nofollow`; `last` is `i == parts.len() - 1`.
  unfoldable pub nofollow_parts : (Bytes → Vfs F ℕ) → ℕ → List Bytes → Vfs F ℕ
  nofollow_parts follow current [] w = some (ok current, w)
  nofollow_parts follow current (part ∷ []) w = elim (bytes_eq part []) [
    | true ↦ some (ok current, w)
    | false ↦ child_or_open current part w
  ]
  nofollow_parts follow current (part ∷ q ∷ parts) w = elim (bytes_eq part []) [
    | true ↦ nofollow_parts follow current (q ∷ parts) w
    | false ↦ bind_result (child_or_open current part w) λ next w1.
        elim (is_symlink (w1.nodes next).node_type) [
          | false ↦ nofollow_parts follow next (q ∷ parts) w1
          | true ↦ bind_result (vfs_resolve_symlink follow next w1) λ target w2. elim target [
            | none ↦ some (err not_found, w2)
            | some t ↦ nofollow_parts follow t (q ∷ parts) w2
          ]
        ]
  ]

  unfoldable pub vfs_open_nofollow : ℕ → Bytes → Vfs F ℕ
  unfolding nofollow_parts trim_slashes
  vfs_open_nofollow fuel path w =
      if bytes_eq (normalize_path path) (slash ∷ [])
      then some (ok w.root, w)
      else nofollow_parts (λ p. vfs_open fuel p) w.root (path_parts (normalize_path path)) w
