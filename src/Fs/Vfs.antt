-- ===== src/Fs/Vfs.antt =====
-- kernel_fs/src/vfs: the types of node.rs and mod.rs, and the interface `VfsOps` of a file system. A node
-- is its number, and the content of all nodes is a function. A string is the list of its bytes. `F` is
-- the state of the file systems, and an operation of one may change it and the nodes.
pub mod Path
pub mod Laws
pub mod Nodes
pub mod Open
pub mod Create
pub mod Change
use old_boruixkernel.Common.{
  ℕ, Bool, true, false, Option, none, some, List, [], ◌∷◌, ◌==◌, if◌then◌else◌,
}

pub data VfsNodeType : Type 0 where
  none_type dir block stream symlink pipe socket : VfsNodeType

pub data VfsError : Type 0 where
  invalid not_found not_dir exists no_dev busy not_empty not_supported io : VfsError

-- `panicked` stands for a call that does not return, since the code panics in it.
pub data VfsResult {ℓ} (A : Type ℓ) : Type ℓ where
  ok : A → VfsResult A
  err : VfsError → VfsResult A
  panicked : VfsResult A

-- `VfsNodeMeta`.
pub record VfsNode : Type 0 where
  pub name : List ℕ
  pub node_type : VfsNodeType
  pub fsid : ℕ
  pub size : ℕ
  pub mode : ℕ
  pub flags : ℕ
  pub dev : ℕ
  pub rdev : ℕ
  pub parent : Option ℕ
  pub children : List ℕ
  pub linkto : Option ℕ
  pub linkto_path : Option (List ℕ)
  pub handle : Option ℕ
  pub is_mount : Bool

unfoldable pub new_root : VfsNode
new_root = record {
  name = 47 ∷ [];
  node_type = dir;
  fsid = 0;
  size = 0;
  mode = 0o755;
  flags = 0;
  dev = 0;
  rdev = 0;
  parent = none;
  children = [];
  linkto = none;
  linkto_path = none;
  handle = none;
  is_mount = false;
}

-- All nodes, of which those below `used` exist, the root, and the state of the file systems.
pub record World (F : Type 0) : Type 0 where
  pub nodes : ℕ → VfsNode
  pub used : ℕ
  pub root : ℕ
  pub store : F

-- The operations that the functions of the module call.
pub record VfsOps (F : Type 0) : Type 0 where
  pub mount : Option (List ℕ) → ℕ → World F → VfsResult (Unit {0}) × World F
  pub unmount : ℕ → World F → VfsResult (Unit {0}) × World F
  pub open_node : ℕ → List ℕ → ℕ → World F → VfsResult (Unit {0}) × World F
  pub read : ℕ → ℕ → ℕ → World F → VfsResult (List ℕ) × World F
  pub write : ℕ → ℕ → List ℕ → World F → VfsResult ℕ × World F
  pub mkdir : ℕ → List ℕ → ℕ → World F → VfsResult (Unit {0}) × World F
  pub mkfile : ℕ → List ℕ → ℕ → World F → VfsResult (Unit {0}) × World F
  pub delete : ℕ → ℕ → World F → VfsResult (Unit {0}) × World F
  pub ioctl : ℕ → ℕ → ℕ → World F → VfsResult (Unit {0}) × World F
  pub poll : ℕ → ℕ → World F → VfsResult ℕ × World F
  pub map_node : ℕ → ℕ → ℕ → ℕ → World F → VfsResult (Unit {0}) × World F
  pub rename : ℕ → List ℕ → World F → VfsResult (Unit {0}) × World F

pub record VfsFs (F : Type 0) : Type 0 where
  pub fs_name : List ℕ
  pub fs_id : ℕ
  pub ops : VfsOps F

-- A computation that changes the world and may fail; `none` means that the fuel ran out.
abbrev pub Vfs : Type 0 → Type 0 → Type 0
Vfs F A = World F → Option (VfsResult A × World F)

abbrev pub bind_result :
    {F A B : Type 0}
    → Option (VfsResult A × World F)
    → (A → Vfs F B)
    → Option (VfsResult B × World F)
bind_result none k = none
bind_result (some (err e, w)) k = some (err e, w)
bind_result (some (panicked, w)) k = some (panicked, w)
bind_result (some (ok a, w)) k = k a w

infixl 5 ◌>>=◌ ◌>>◌
abbrev pub ◌>>=◌ : {F A B : Type 0} → Vfs F A → (A → Vfs F B) → Vfs F B
(m >>= k) w = bind_result (m w) k

abbrev pub ◌>>◌ : {F A B : Type 0} → Vfs F A → Vfs F B → Vfs F B
m >> k = m >>= λ _. k

abbrev pub return : {F A : Type 0} → A → Vfs F A
return a w = some (ok a, w)

abbrev pub throw : {F A : Type 0} → VfsError → Vfs F A
throw e w = some (err e, w)

-- A call of an operation of a file system.
abbrev pub call : {F A : Type 0} → (World F → VfsResult A × World F) → Vfs F A
call op w = some (op w)

-- An assignment to the fields of a node.
abbrev pub set_node : {F : Type 0} → ℕ → VfsNode → World F → World F
set_node i n w = record w { nodes = λ j. if j == i then n else w.nodes j }

abbrev pub modify : {F : Type 0} → ℕ → (VfsNode → VfsNode) → Vfs F (Unit {0})
modify i f w = some (ok tt, set_node i (f (w.nodes i)) w)

abbrev pub get_node : {F : Type 0} → ℕ → Vfs F VfsNode
get_node i w = some (ok (w.nodes i), w)

abbrev pub is_dir : VfsNodeType → Bool
is_dir dir = true
is_dir _ = false

abbrev pub is_symlink : VfsNodeType → Bool
is_symlink symlink = true
is_symlink _ = false
