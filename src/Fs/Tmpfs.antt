-- ===== src/Fs/Tmpfs.antt =====
-- kernel_fs/src/fs/tmpfs.rs. The boxes of the files are numbered, and `freed` says which have been
-- dropped; what the code does with a handle whose box has been dropped is undefined, and here it finds
-- the last content. A pointer to a box is never null. The heap has room
-- for the files. A sum in `read` is cut to the length of the file, so its size does not matter: a file
-- and a buffer are no longer than the largest `isize`. `unmount` has fuel for each node below its node.
pub mod Bytes
pub mod ReadWrite
pub mod Tree
mod Examples
use old_boruixkernel.Common.{
  ℕ, zero, suc, ◌+◌, ◌-◌, ◌/◌, ◌%◌, ◌^◌, Bool, true, false, Option, none, some, List, [], ◌∷◌, ◌++◌,
  ltb, leb, ◌==◌, if◌then◌else◌, not, min, length, take, drop, replicate,
}
use old_boruixkernel.Fs.Vfs.{
  VfsNodeType, none_type, dir, block, stream, symlink, VfsNode, VfsOps, VfsResult, ok, err,
  panicked, VfsError, invalid, not_supported, World, set_node,
}

pub data TmpfsKind : Type 0 where
  dir_kind file_kind symlink_kind char_kind block_kind : TmpfsKind

pub record TmpfsFile : Type 0 where
  pub kind : TmpfsKind
  pub bytes : List ℕ
  pub link_count : ℕ

unfoldable pub new_file : TmpfsKind → TmpfsFile
new_file kind = record { kind = kind; bytes = []; link_count = 1 }

-- The boxes of which the address has been taken.
pub record Boxes : Type 0 where
  pub files : ℕ → TmpfsFile
  pub next : ℕ
  pub freed : ℕ → Bool

abbrev pub node_type_of : TmpfsKind → VfsNodeType
node_type_of dir_kind = dir
node_type_of file_kind = none_type
node_type_of symlink_kind = symlink
node_type_of char_kind = stream
node_type_of block_kind = block

abbrev pub is_file : TmpfsKind → Bool
is_file file_kind = true
is_file _ = false

abbrev pub set_file : ℕ → TmpfsFile → World Boxes → World Boxes
set_file h f w = record w {
  store = record (w.store) { files = λ j. if j == h then f else w.store.files j };
}

abbrev pub free_box : ℕ → World Boxes → World Boxes
free_box h w = record w {
  store = record (w.store) { freed = λ j. if j == h then true else w.store.freed j };
}

abbrev pub get_handle : ℕ → World Boxes → VfsResult ℕ
get_handle node w = elim (w.nodes node).handle [ none ↦ err invalid | some h ↦ ok h ]

abbrev pub set_handle : ℕ → TmpfsFile → World Boxes → World Boxes
set_handle node file w =
    let h = w.store.next in
    set_node node (record (w.nodes node) { handle = some h })
      (record w {
        store = record {
          files = λ j. if j == h then file else w.store.files j;
          next = h + 1;
          freed = w.store.freed;
        };
      })

unfoldable pub drop_handle : ℕ → World Boxes → World Boxes
drop_handle node w =
    let out = set_node node (record (w.nodes node) { handle = none }) w in
    elim (w.nodes node).handle [ none ↦ out | some h ↦ free_box h out ]

-- `if dec_link(file) { meta.handle = None; drop(…) }`, on the node's handle.
abbrev pub release : ℕ → World Boxes → World Boxes
release node w = elim (w.nodes node).handle [
  | none ↦ w
  | some h ↦
      let f = w.store.files h in
      if ltb 1 f.link_count
      then set_file h (record f { link_count = f.link_count - 1 }) w
      else free_box h (set_node node (record (w.nodes node) { handle = none }) w)
]

-- The calls of `walk` for the children, and `walk`.
unfoldable pub walk_all : (ℕ → World Boxes → World Boxes) → List ℕ → World Boxes → World Boxes
walk_all walk [] w = w
walk_all walk (c ∷ cs) w = walk_all walk cs (walk c w)

unfoldable pub walk : ℕ → ℕ → World Boxes → World Boxes
unfolding walk_all
walk zero node w = w
walk (suc fuel) node w = release node (walk_all (λ c. walk fuel c) (w.nodes node).children w)

abbrev pub set_type : ℕ → VfsNodeType → World Boxes → World Boxes
set_type node t w = set_node node (record (w.nodes node) { node_type = t }) w

-- `Vec::resize(end, 0)` where the file is shorter.
abbrev pub grown : ℕ → List ℕ → List ℕ
grown end bytes =
    if ltb (length bytes) end then bytes ++ replicate (end - length bytes) 0 else bytes

-- `data[offset..end].copy_from_slice(buf)` after the file has grown.
unfoldable pub patched : ℕ → List ℕ → List ℕ → List ℕ
patched offset buf bytes =
    let end = offset + length buf in
    take offset (grown end bytes) ++ (buf ++ drop end (grown end bytes))

unfoldable pub tmpfs_read : ℕ → ℕ → ℕ → World Boxes → VfsResult (List ℕ) × World Boxes
tmpfs_read node offset len w = elim (get_handle node w) [
  | err e ↦ (err e, w)
  | panicked ↦ (panicked, w)
  | ok h ↦
      let f = w.store.files h in
      if is_file f.kind
      then if leb (length f.bytes) offset
        then (ok [], w)
        else (ok (take (min (length f.bytes) (offset + len) - offset) (drop offset f.bytes)), w)
      else (err invalid, w)
]

-- The addition of the end panics where it overflows, as `Vec::resize` does past the largest `isize`.
unfoldable pub tmpfs_write : ℕ → ℕ → List ℕ → World Boxes → VfsResult ℕ × World Boxes
unfolding patched
tmpfs_write node offset buf w = elim (get_handle node w) [
  | err e ↦ (err e, w)
  | panicked ↦ (panicked, w)
  | ok h ↦
      let f = w.store.files h in
      if is_file f.kind
      then if ltb (offset + length buf) (2 ^ 63)
        then (
          ok (length buf),
          set_node node (record (w.nodes node) { size = length (patched offset buf f.bytes) })
              (set_file h (record f { bytes = patched offset buf f.bytes }) w),
        )
        else (panicked, w)
      else (err invalid, w)
]

unfoldable pub tmpfs_stat : ℕ → World Boxes → VfsResult (Unit {0}) × World Boxes
tmpfs_stat node w = elim (get_handle node w) [
  | err e ↦ (err e, w)
  | panicked ↦ (panicked, w)
  | ok h ↦
      let f = w.store.files h in
      let size : ℕ = elim f.kind [ dir_kind ↦ 0 | _ ↦ length f.bytes ] in
      (
        ok tt,
        set_node node (record (w.nodes node) { node_type = node_type_of f.kind; size = size }) w,
      )
]

abbrev pub tmpfs_readlink : ℕ → ℕ → World Boxes → VfsResult (List ℕ) × World Boxes
tmpfs_readlink node len w =
    (ok (elim (w.nodes node).linkto_path [ none ↦ [] | some target ↦ take len target ]), w)

abbrev pub make : TmpfsKind → VfsNodeType → ℕ → World Boxes → VfsResult (Unit {0}) × World Boxes
make kind t node w = (ok tt, set_type node t (set_handle node (new_file kind) w))

abbrev pub tmpfs_symlink : ℕ → World Boxes → VfsResult (Unit {0}) × World Boxes
tmpfs_symlink node w = make symlink_kind symlink node w

abbrev pub tmpfs_free : ℕ → World Boxes → VfsResult (Unit {0}) × World Boxes
tmpfs_free node w = (ok tt, drop_handle node w)

-- `mode & 0o170000`.
abbrev pub kind_of_mode : ℕ → TmpfsKind
kind_of_mode mode =
    let format = mode / 0o10000 % 16 in
    if format == 2 then char_kind else if format == 6 then block_kind else file_kind

unfoldable pub tmpfs_mknod : ℕ → ℕ → ℕ → World Boxes → VfsResult (Unit {0}) × World Boxes
tmpfs_mknod node mode dev w =
    let kind = kind_of_mode mode in
    let made = set_handle node (new_file kind) w in
    (
      ok tt,
      set_node node
          (record (made.nodes node) {
            node_type = node_type_of kind;
            mode = mode;
            dev = dev;
            rdev = dev;
          })
          made,
    )

abbrev pub tmpfs_chmod : ℕ → ℕ → World Boxes → VfsResult (Unit {0}) × World Boxes
tmpfs_chmod node mode w = (ok tt, set_node node (record (w.nodes node) { mode = mode }) w)

-- `Tmpfs` as a file system of the VFS.
unfoldable pub tmpfs : VfsOps Boxes
unfolding walk tmpfs_read tmpfs_write
tmpfs = record {
  mount = λ src node w. make dir_kind dir node w;
  unmount = λ node w. (ok tt, walk w.used node w);
  open_node = λ parent name node w. (err not_supported, w);
  read = λ node offset len w. tmpfs_read node offset len w;
  write = λ node offset buf w. tmpfs_write node offset buf w;
  mkdir = λ parent name node w. make dir_kind dir node w;
  mkfile = λ parent name node w. make file_kind none_type node w;
  delete = λ parent node w. (ok tt, release node w);
  ioctl = λ node req arg w. (err not_supported, w);
  poll = λ node events w. (err not_supported, w);
  map_node = λ node addr len offset w. (err not_supported, w);
  rename = λ node name w. (ok tt, set_node node (record (w.nodes node) { name = name }) w);
}
