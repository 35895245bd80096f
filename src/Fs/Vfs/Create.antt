-- ===== src/Fs/Vfs/Create.antt =====
-- The functions of kernel_fs/src/vfs/mod.rs that make nodes, without their messages.
pub mod Mkdir
pub mod Mkfile
use old_boruixkernel.Common.{
  ℕ, zero, suc, ◌+◌, Bool, true, false, Option, none, some, List, [], ◌∷◌, ◌++◌, ◌==◌,
  if◌then◌else◌, bytes_eq,
}
use old_boruixkernel.Fs.Vfs.{
  VfsNodeType, dir, symlink, VfsNode, VfsOps, VfsFs, VfsResult, ok, err, VfsError, invalid, not_dir,
  exists, World, Vfs, bind_result, ◌>>=◌, ◌>>◌, return, throw, call, modify, get_node, is_dir,
}
use old_boruixkernel.Fs.Vfs.Path.{Bytes, slash, join, is_absolute, drop_last, normalize_path}
use old_boruixkernel.Fs.Vfs.Nodes.{get_filesystem_by_id, vfs_child_append, vfs_child_find}
use old_boruixkernel.Fs.Vfs.Open.{path_parts, vfs_open}

-- `if !path.starts_with('/') { path.insert(0, '/') }`.
abbrev pub make_absolute : Bytes → Bytes
make_absolute path = if is_absolute path then path else slash ∷ path

abbrev pub last_part : List Bytes → Option Bytes
last_part [] = none
last_part (p ∷ []) = some p
last_part (p ∷ q ∷ ps) = last_part (q ∷ ps)

module _ {F : Type 0} (registry : List (VfsFs F)) (alive : ℕ → Bool) where
  -- `if let Some(fs) = get_filesystem_by_id(fsid) { fs.ops.mkdir(…)? }`, and the same for files.
  abbrev pub op_mkdir : Option (VfsFs F) → ℕ → Bytes → ℕ → Vfs F (Unit {0})
  op_mkdir none parent name node w = some (ok tt, w)
  op_mkdir (some fs) parent name node w = some (fs.ops.mkdir parent name node w)

  abbrev pub op_mkfile : Option (VfsFs F) → ℕ → Bytes → ℕ → Vfs F (Unit {0})
  op_mkfile none parent name node w = some (ok tt, w)
  op_mkfile (some fs) parent name node w = some (fs.ops.mkfile parent name node w)

  -- What `vfs_mkdir` does where there is no child of the name.
  unfoldable pub new_dir : ℕ → Bytes → Vfs F ℕ
  new_dir current part w =
      let (node, w1) = vfs_child_append current part w in
      (do
        modify node (λ n. record n { node_type = dir })
        op_mkdir (get_filesystem_by_id registry (w.nodes current).fsid) current part node
        return node)
        w1

  -- The loop of `vfs_mkdir`.
  unfoldable pub mkdir_parts : ℕ → List Bytes → Vfs F (Unit {0})
  mkdir_parts current [] w = some (ok tt, w)
  mkdir_parts current (part ∷ parts) w = elim (bytes_eq part []) [
    | true ↦ mkdir_parts current parts w
    | false ↦ elim (vfs_child_find current part w) [
      | some existing ↦ elim (is_dir (w.nodes existing).node_type) [
        | true ↦ mkdir_parts existing parts w
        | false ↦ some (err not_dir, w)
      ]
      | none ↦ bind_result (new_dir current part w) (λ node w1. mkdir_parts node parts w1)
    ]
  ]

  unfoldable pub vfs_mkdir : Bytes → Vfs F (Unit {0})
  unfolding mkdir_parts
  vfs_mkdir path w = mkdir_parts w.root (path_parts (make_absolute (normalize_path path))) w

  -- What `vfs_mkfile` does where there is no child of the name, and where the parent has been opened.
  unfoldable pub fresh_file : ℕ → Bytes → Vfs F ℕ
  fresh_file parent name w =
      let (node, w1) = vfs_child_append parent name w in
      (do
        op_mkfile (get_filesystem_by_id registry (w.nodes parent).fsid) parent name node
        return node)
        w1

  unfoldable pub new_file : ℕ → Bytes → Vfs F ℕ
  unfolding fresh_file
  new_file parent name w = elim (vfs_child_find parent name w) [
    | some _ ↦ some (err exists, w)
    | none ↦ fresh_file parent name w
  ]

  unfoldable pub vfs_mkfile : ℕ → Bytes → Vfs F ℕ
  unfolding new_file
  vfs_mkfile fuel path w =
      let parts = path_parts (make_absolute (normalize_path path)) in
      elim (last_part parts) [
        | none ↦ some (err invalid, w)
        | some name ↦
            bind_result (vfs_open registry alive fuel (slash ∷ join (drop_last parts)) w)
              (λ parent w1. new_file parent name w1)
      ]

  unfoldable pub vfs_link : ℕ → Bytes → Bytes → Vfs F ℕ
  vfs_link fuel target link_path = do
    target_node ← vfs_open registry alive fuel target
    link_node ← vfs_mkfile fuel link_path
    t ← get_node target_node
    modify link_node (λ n. record n {
      linkto = some target_node;
      node_type = t.node_type;
      handle = t.handle;
      size = t.size;
      mode = t.mode;
    })
    return link_node

  unfoldable pub vfs_symlink : ℕ → Bytes → Bytes → Vfs F ℕ
  vfs_symlink fuel target link_path = do
    link_node ← vfs_mkfile fuel link_path
    modify link_node (λ n. record n { node_type = symlink; linkto_path = some target })
    return link_node

  unfoldable pub vfs_mknod : ℕ → Bytes → ℕ → ℕ → Vfs F ℕ
  vfs_mknod fuel path mode dev = do
    node ← vfs_mkfile fuel path
    modify node (λ n. record n { mode = mode; dev = dev; rdev = dev })
    return node
