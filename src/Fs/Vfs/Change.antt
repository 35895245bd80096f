-- ===== src/Fs/Vfs/Change.antt =====
-- The other functions of kernel_fs/src/vfs/mod.rs that change nodes, and those that pass a call on.
pub mod Delete
use old_boruixkernel.Common.{
  ℕ, zero, suc, ◌+◌, Bool, true, false, Option, none, some, List, [], ◌∷◌, ◌++◌, ◌==◌, ◌&&◌,
  if◌then◌else◌, not,
}
use old_boruixkernel.Fs.Vfs.{
  VfsNodeType, VfsNode, VfsOps, VfsFs, VfsResult, ok, err, panicked, VfsError, invalid, no_dev,
  not_empty, World, Vfs, bind_result, ◌>>=◌, ◌>>◌, return, throw, call, set_node, modify, get_node,
  is_dir,
}
use old_boruixkernel.Fs.Vfs.Path.{Bytes}
use old_boruixkernel.Fs.Vfs.Nodes.{get_filesystem, get_filesystem_by_id, drop_child, upgrade}
use old_boruixkernel.Fs.Vfs.Open.{vfs_open}

abbrev pub is_empty : List ℕ → Bool
is_empty [] = true
is_empty (c ∷ cs) = false

module _ {F : Type 0} (registry : List (VfsFs F)) (alive : ℕ → Bool) where
  abbrev pub op_delete : Option (VfsFs F) → ℕ → ℕ → Vfs F (Unit {0})
  op_delete none parent node w = some (ok tt, w)
  op_delete (some fs) parent node w = some (fs.ops.delete parent node w)

  abbrev pub op_rename : Option (VfsFs F) → ℕ → Bytes → Vfs F (Unit {0})
  op_rename none node name w = some (ok tt, w)
  op_rename (some fs) node name w = some (fs.ops.rename node name w)

  -- What `vfs_delete` does with the node that it has opened.
  unfoldable pub delete_node : ℕ → Vfs F (Unit {0})
  delete_node node w = elim (upgrade alive (w.nodes node).parent) [
    | none ↦ some (err invalid, w)
    | some parent ↦
        if is_dir (w.nodes node).node_type && not (is_empty (w.nodes node).children)
        then some (err not_empty, w)
        else bind_result
            (op_delete (get_filesystem_by_id registry (w.nodes parent).fsid) parent node w)
            (λ _ w1. some (ok tt, drop_child parent node w1))
  ]

  unfoldable pub vfs_delete : ℕ → Bytes → Vfs F (Unit {0})
  vfs_delete fuel path w = bind_result (vfs_open registry alive fuel path w) delete_node

  unfoldable pub vfs_rename : ℕ → Bytes → Bytes → Vfs F (Unit {0})
  vfs_rename fuel path new_name = do
    node ← vfs_open registry alive fuel path
    n ← get_node node
    op_rename (get_filesystem_by_id registry n.fsid) node new_name
    modify node (λ n. record n { name = new_name })

  -- `get_filesystem_by_id(…).ok_or(VfsError::NoDev)?`, for a node.
  abbrev pub fs_of : {A : Type 0} → ℕ → (VfsFs F → Vfs F A) → Vfs F A
  fs_of node k w = elim (get_filesystem_by_id registry (w.nodes node).fsid) [
    | none ↦ some (err no_dev, w)
    | some fs ↦ k fs w
  ]

  unfoldable pub vfs_read : ℕ → ℕ → ℕ → Vfs F (List ℕ)
  vfs_read node offset len = fs_of node (λ fs. call (fs.ops.read node offset len))

  unfoldable pub vfs_write : ℕ → ℕ → List ℕ → Vfs F ℕ
  vfs_write node offset buf = fs_of node (λ fs. call (fs.ops.write node offset buf))

  unfoldable pub vfs_ioctl : ℕ → ℕ → ℕ → Vfs F (Unit {0})
  vfs_ioctl node req arg = fs_of node (λ fs. call (fs.ops.ioctl node req arg))

  unfoldable pub vfs_poll : ℕ → ℕ → Vfs F ℕ
  vfs_poll node events = fs_of node (λ fs. call (fs.ops.poll node events))

  unfoldable pub vfs_map : ℕ → ℕ → ℕ → ℕ → Vfs F (Unit {0})
  vfs_map node addr len offset = fs_of node (λ fs. call (fs.ops.map_node node addr len offset))

  -- The nodes where `mount` of the file system has failed.
  abbrev pub mount_result :
      ℕ → ℕ → Bool → VfsResult (Unit {0}) × World F → Option (VfsResult (Unit {0}) × World F)
  mount_result node fsid mounted (ok _, w) = some (ok tt, w)
  mount_result node fsid mounted (err e, w) =
      some (err e, set_node node (record (w.nodes node) { fsid = fsid; is_mount = mounted }) w)
  mount_result node fsid mounted (panicked, w) = some (panicked, w)

  unfoldable pub vfs_mount : Option Bytes → Bytes → ℕ → Vfs F (Unit {0})
  vfs_mount src fstype mountpoint w = elim (get_filesystem registry fstype) [
    | none ↦ some (err no_dev, w)
    | some fs ↦
        let old = w.nodes mountpoint in
        mount_result mountpoint old.fsid old.is_mount (
          fs.ops.mount src mountpoint
            (set_node mountpoint (record old { fsid = fs.fs_id; is_mount = true }) w))
  ]

  unfoldable pub vfs_unmount : ℕ → Bytes → Vfs F (Unit {0})
  vfs_unmount fuel path = do
    node ← vfs_open registry alive fuel path
    fs_of node (λ fs. call (fs.ops.unmount node))
    modify node (λ n. record n { is_mount = false })
