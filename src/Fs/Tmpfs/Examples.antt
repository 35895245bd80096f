-- ===== src/Fs/Tmpfs/Examples.antt =====
-- The nodes of a temporary file system, mounted at the root.
use old_boruixkernel.Common.{
  ℕ, ◌≡◌, ◌≢◌, refl, Bool, true, false, Option, none, some, [], ◌∷◌, arith, bytes_eq, keep,
}
use old_boruixkernel.Fs.Vfs.{VfsResult, ok, err, exists, World, new_root, is_dir}
use old_boruixkernel.Fs.Vfs.Path.{Bytes, split, join, drop_last, normal_parts, normalize_path}
use old_boruixkernel.Fs.Vfs.Nodes.{find_named, get_filesystem_by_id, vfs_child_find, vfs_node_alloc}
use old_boruixkernel.Fs.Vfs.Nodes.Tree.{Extends}
use old_boruixkernel.Fs.Vfs.Open.{
  path_parts, trim_slashes, child_or_open, visit, open_parts, vfs_open,
}
use old_boruixkernel.Fs.Vfs.Open.Loops.{IsLoop, vfs_open_loops}
use old_boruixkernel.Fs.Vfs.Create.{
  make_absolute, last_part, new_dir, mkdir_parts, vfs_mkdir, fresh_file, new_file, vfs_mkfile,
  vfs_symlink,
}
use old_boruixkernel.Fs.Vfs.Create.Mkdir.{vfs_open-vfs_mkdir}
use old_boruixkernel.Fs.Vfs.Create.Mkfile.{dir_path, vfs_mkfile-finds}
use old_boruixkernel.Fs.Vfs.Change.{delete_node, vfs_delete}
use old_boruixkernel.Fs.Vfs.Change.Delete.{Deleted, vfs_delete-Deleted}
use old_boruixkernel.Fs.Tmpfs.{
  file_kind, new_file as new_box, Boxes, patched, tmpfs_read, tmpfs_write, tmpfs,
}
use old_boruixkernel.Fs.Tmpfs.ReadWrite.{tmpfs_read-tmpfs_write}
use old_boruixkernel.Fs.Tmpfs.Tree.{only_tmpfs, tmpfs-KeepsTree, tmpfs-KeepsFiles}

abbrev start : World Boxes
start = record {
  nodes = λ i. record (new_root) { fsid = 1 };
  used = 1;
  root = 0;
  store = record { files = λ i. new_box file_kind; next = 0; freed = λ i. false };
}

abbrev all_alive : ℕ → Bool
all_alive i = true

abbrev after : {A : Type 0} → Option (VfsResult A × World Boxes) → World Boxes
after none = start
after (some r) = r.1

-- The path `/a/b`.
abbrev dirs : Bytes
dirs = 47 ∷ 97 ∷ 47 ∷ 98 ∷ []

abbrev with_dirs : World Boxes
with_dirs = after (vfs_mkdir only_tmpfs all_alive dirs start)

makes_dirs : vfs_mkdir only_tmpfs all_alive dirs start ≡ some (ok tt, with_dirs)
unfolding vfs_mkdir mkdir_parts new_dir vfs_node_alloc find_named get_filesystem_by_id trim_slashes
    split join drop_last normal_parts normalize_path bytes_eq tmpfs new_root
makes_dirs = refl

opens_dirs : vfs_open only_tmpfs all_alive 1 dirs with_dirs ≡ some (ok 2, with_dirs)
unfolding vfs_open open_parts child_or_open visit vfs_mkdir mkdir_parts new_dir vfs_node_alloc
    find_named get_filesystem_by_id trim_slashes split join drop_last normal_parts normalize_path
    bytes_eq tmpfs new_root
opens_dirs = refl

vfs_open-vfs_mkdir_example :
    Extends start with_dirs
    × (node : ℕ) × (vfs_open only_tmpfs all_alive 1 dirs with_dirs ≡ some (ok node, with_dirs))
    × (is_dir (with_dirs.nodes node).node_type ≡ true)
unfolding new_root
vfs_open-vfs_mkdir_example =
    vfs_open-vfs_mkdir only_tmpfs all_alive tmpfs-KeepsTree dirs 0 start with_dirs (λ i h. tt)
      (omega arith) refl makes_dirs

-- The path `/a`.
abbrev file : Bytes
file = 47 ∷ 97 ∷ []

abbrev with_file : World Boxes
with_file = after (vfs_mkfile only_tmpfs all_alive 1 file start)

makes_file : vfs_mkfile only_tmpfs all_alive 1 file start ≡ some (ok 1, with_file)
unfolding vfs_mkfile new_file fresh_file vfs_open open_parts vfs_node_alloc find_named
    get_filesystem_by_id trim_slashes split join drop_last normal_parts normalize_path bytes_eq
    tmpfs new_root
makes_file = refl

name_of_file : last_part (path_parts (make_absolute (normalize_path file))) ≡ some (97 ∷ [])
unfolding trim_slashes split join drop_last normal_parts normalize_path bytes_eq
name_of_file = refl

opens_root : vfs_open only_tmpfs all_alive 1 (dir_path file) start ≡ some (ok 0, start)
unfolding vfs_open trim_slashes split join drop_last normal_parts normalize_path bytes_eq
opens_root = refl

vfs_mkfile-finds_example :
    ((vfs_child_find 0 (97 ∷ []) start ≢ none)
      → vfs_mkfile only_tmpfs all_alive 1 file start ≡ some (err exists, start))
    × (vfs_mkfile only_tmpfs all_alive 1 file start ≡ some (ok 1, with_file)
        → (vfs_child_find 0 (97 ∷ []) start ≡ none)
          × (1 ≡ start.used)
          × (vfs_child_find 0 (97 ∷ []) with_file ≡ some 1)
          × Extends start with_file
          × (vfs_open only_tmpfs all_alive 1 (dir_path file) with_file ≡ some (ok 0, with_file)
              → vfs_mkfile only_tmpfs all_alive 1 file with_file ≡ some (err exists, with_file)))
unfolding new_root
vfs_mkfile-finds_example =
    vfs_mkfile-finds only_tmpfs all_alive tmpfs-KeepsFiles 1 file (97 ∷ []) 0 1 start start
      with_file name_of_file opens_root (λ i h. tt) (omega arith)

-- The file is deleted.
abbrev deleted : World Boxes
deleted = after (vfs_delete only_tmpfs all_alive 1 file with_file)

deletes_file : vfs_delete only_tmpfs all_alive 1 file with_file ≡ some (ok tt, deleted)
unfolding vfs_delete delete_node keep child_or_open visit vfs_mkfile new_file fresh_file vfs_open
    open_parts vfs_node_alloc find_named get_filesystem_by_id trim_slashes split join drop_last
    normal_parts normalize_path bytes_eq tmpfs new_root
deletes_file = refl

vfs_delete-Deleted_example :
    (node : ℕ) × (w1 : World Boxes) × (vfs_open only_tmpfs all_alive 1 file with_file
      ≡ some (ok node, w1))
    × Deleted only_tmpfs all_alive node w1 deleted
vfs_delete-Deleted_example =
    vfs_delete-Deleted only_tmpfs all_alive 1 file with_file deleted deletes_file

-- A link `/a` to `/a`.
abbrev with_loop : World Boxes
with_loop = after (vfs_symlink only_tmpfs all_alive 1 file file start)

with_loop-IsLoop : IsLoop all_alive file (97 ∷ []) 1 with_loop
unfolding vfs_symlink vfs_mkfile new_file fresh_file vfs_open open_parts vfs_node_alloc find_named
    get_filesystem_by_id trim_slashes split join drop_last normal_parts normalize_path bytes_eq
    tmpfs new_root
with_loop-IsLoop = record {
  normal = refl;
  absolute = refl;
  one_part = refl;
  not_empty = refl;
  found = refl;
  is_link = refl;
  no_node = refl;
  target = refl;
}

vfs_open_loops_example : vfs_open only_tmpfs all_alive 100 file with_loop ≡ none
vfs_open_loops_example =
    vfs_open_loops only_tmpfs all_alive file (97 ∷ []) 1 with_loop with_loop-IsLoop 100

-- A write with a gap.
patched_gap : patched 3 (7 ∷ 8 ∷ []) (1 ∷ []) ≡ 1 ∷ 0 ∷ 0 ∷ 7 ∷ 8 ∷ []
unfolding patched
patched_gap = refl

handle_of_file : (with_file.nodes 1).handle ≡ some 0
unfolding vfs_mkfile new_file fresh_file vfs_open open_parts vfs_node_alloc find_named
    get_filesystem_by_id trim_slashes split join drop_last normal_parts normalize_path bytes_eq
    tmpfs new_root
handle_of_file = refl

kind_of_file : (with_file.store.files 0).kind ≡ file_kind
unfolding vfs_mkfile new_file fresh_file vfs_open open_parts vfs_node_alloc find_named
    get_filesystem_by_id trim_slashes split join drop_last normal_parts normalize_path bytes_eq
    tmpfs new_root new_box
kind_of_file = refl

tmpfs_read-tmpfs_write_example :
    ((tmpfs_write 1 3 (7 ∷ 8 ∷ []) with_file).0 ≡ ok 2)
    × ((tmpfs_read 1 3 2 (tmpfs_write 1 3 (7 ∷ 8 ∷ []) with_file).1).0 ≡ ok (7 ∷ 8 ∷ []))
    × ((j : ℕ)
        → j ≢ 0
        → (tmpfs_write 1 3 (7 ∷ 8 ∷ []) with_file).1.store.files j ≡ with_file.store.files j)
tmpfs_read-tmpfs_write_example =
    tmpfs_read-tmpfs_write 1 3 (7 ∷ 8 ∷ []) with_file 0 handle_of_file kind_of_file (omega arith)
