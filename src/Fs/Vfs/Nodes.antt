-- ===== src/Fs/Vfs/Nodes.antt =====
-- The nodes and the registry of kernel_fs/src/vfs/mod.rs. `alive` says whether the weak link to a node
-- can be followed, which is when an `Arc` holds the node. `vfs_get_fullpath` has fuel for each node on
-- the way to the root.
pub mod Tree
pub mod Similar
use old_boruixkernel.Common.{
  ℕ, zero, suc, ◌+◌, ◌%◌, ◌^◌, Bool, true, false, Option, none, some, List, [], ◌∷◌, ◌++◌, map,
  ◌==◌, ltb, if◌then◌else◌, not, keep, bytes_eq, length,
}
use old_boruixkernel.Fs.Vfs.{
  VfsNodeType, none_type, VfsNode, VfsOps, VfsFs, VfsResult, ok, err, VfsError, not_dir, World,
  set_node, new_root, is_dir,
}
use old_boruixkernel.Fs.Vfs.Path.{Bytes, slash, join, drop_last}

-- The registry and `NEXT_FSID`, a `u16`.
abbrev pub vfs_register_fs :
    {F : Type 0} → Bytes → VfsOps F → List (VfsFs F) × ℕ → ℕ × (List (VfsFs F) × ℕ)
vfs_register_fs name ops (registry, next) = (
  next,
  (registry ++ (record { fs_name = name; fs_id = next; ops = ops } ∷ []), (next + 1) % 2 ^ 16),
)

unfoldable pub get_filesystem : {F : Type 0} → List (VfsFs F) → Bytes → Option (VfsFs F)
get_filesystem [] name = none
get_filesystem (fs ∷ rest) name =
    let later = get_filesystem rest name in if bytes_eq fs.fs_name name then some fs else later

unfoldable pub get_filesystem_by_id : {F : Type 0} → List (VfsFs F) → ℕ → Option (VfsFs F)
get_filesystem_by_id [] fsid = none
get_filesystem_by_id (fs ∷ rest) fsid =
    let later = get_filesystem_by_id rest fsid in if fs.fs_id == fsid then some fs else later

-- `vfs_init`, in a world with no other node.
abbrev pub vfs_init : {F : Type 0} → F → World F
vfs_init store = record { nodes = λ i. new_root; used = 1; root = 0; store = store }

abbrev pub fsid_of : {F : Type 0} → Option ℕ → World F → ℕ
fsid_of none w = 0
fsid_of (some p) w = (w.nodes p).fsid

abbrev pub add_child : {F : Type 0} → Option ℕ → ℕ → World F → World F
add_child none node w = w
add_child (some p) node w =
    set_node p (record (w.nodes p) { children = (w.nodes p).children ++ (node ∷ []) }) w

unfoldable pub vfs_node_alloc : {F : Type 0} → Option ℕ → Bytes → World F → ℕ × World F
vfs_node_alloc parent name w =
    let node : VfsNode = record {
      name = name;
      node_type = none_type;
      fsid = fsid_of parent w;
      size = 0;
      mode = 0o777;
      flags = 0;
      dev = 0;
      rdev = 0;
      parent = parent;
      children = [];
      linkto = none;
      linkto_path = none;
      handle = none;
      is_mount = false;
    } in
    (w.used, add_child parent w.used (record (set_node w.used node w) { used = w.used + 1 }))

abbrev pub vfs_child_append : {F : Type 0} → ℕ → Bytes → World F → ℕ × World F
vfs_child_append parent name = vfs_node_alloc (some parent) name

-- `children.iter().find`.
unfoldable pub find_named : (ℕ → VfsNode) → Bytes → List ℕ → Option ℕ
find_named nodes name [] = none
find_named nodes name (c ∷ cs) =
    let later = find_named nodes name cs in if bytes_eq (nodes c).name name then some c else later

abbrev pub vfs_child_find : {F : Type 0} → ℕ → Bytes → World F → Option ℕ
vfs_child_find parent name w = find_named w.nodes name (w.nodes parent).children

unfoldable pub vfs_list_dir : {F : Type 0} → ℕ → World F → VfsResult (List Bytes)
vfs_list_dir node w =
    if is_dir (w.nodes node).node_type
    then ok (map (λ c. (w.nodes c).name) (w.nodes node).children)
    else err not_dir

-- `children.retain(|c| !Arc::ptr_eq(c, node))`.
abbrev pub drop_child : {F : Type 0} → ℕ → ℕ → World F → World F
drop_child parent node w =
    set_node parent
      (record (w.nodes parent) { children = keep (λ c. not (c == node)) (w.nodes parent).children })
      w

-- `parent.as_ref().and_then(|p| p.upgrade())`.
abbrev pub upgrade : (ℕ → Bool) → Option ℕ → Option ℕ
upgrade alive none = none
upgrade alive (some p) = if alive p then some p else none

abbrev pub drop_from : {F : Type 0} → Option ℕ → ℕ → World F → World F
drop_from none node w = w
drop_from (some p) node w = drop_child p node w

unfoldable pub vfs_free : {F : Type 0} → (ℕ → Bool) → ℕ → World F → World F
vfs_free alive node w =
    let out = drop_from (upgrade alive (w.nodes node).parent) node w in
    set_node node (record (out.nodes node) { children = []; handle = none }) out

-- The names from a node up to the root, the root's first.
unfoldable pub names_up : (ℕ → Bool) → (ℕ → VfsNode) → ℕ → Option ℕ → List Bytes → List Bytes
names_up alive nodes zero cur parts = parts
names_up alive nodes (suc fuel) none parts = parts
names_up alive nodes (suc fuel) (some n) parts =
    names_up alive nodes fuel (upgrade alive (nodes n).parent)
      (if bytes_eq (nodes n).name (slash ∷ []) then parts else (nodes n).name ∷ parts)

-- `out.pop()` where the path is longer than 1 and ends with a slash.
unfoldable pub trim_end : Bytes → Bytes
trim_end [] = []
trim_end (c ∷ []) = if c == slash then [] else c ∷ []
trim_end (c ∷ d ∷ s) = c ∷ trim_end (d ∷ s)

unfoldable pub vfs_get_fullpath : {F : Type 0} → (ℕ → Bool) → ℕ → World F → Bytes
unfolding names_up join trim_end
vfs_get_fullpath alive node w =
    let out = slash ∷ join (names_up alive w.nodes w.used (some node) []) in
    if ltb 1 (length out) then trim_end out else out
