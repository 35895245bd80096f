-- ===== src/Fs/Vfs/Open/Loops.antt =====
-- A symbolic link to itself.
use old_boruixkernel.Common.{
  ℕ, zero, suc, ◌≡◌, refl, Bool, true, false, none, some, List, [], ◌∷◌, bytes_eq,
}
use old_boruixkernel.Fs.Vfs.{VfsFs, World, is_symlink}
use old_boruixkernel.Fs.Vfs.Path.{Bytes, slash, is_absolute, normalize_path}
use old_boruixkernel.Fs.Vfs.Nodes.{vfs_child_find, upgrade}
use old_boruixkernel.Fs.Vfs.Open.{
  path_parts, child_or_open, vfs_resolve_symlink, visit, open_parts, vfs_open,
}

-- The path has one part, a link in the root of which the target is the path itself.
pub record IsLoop {F : Type 0} (alive : ℕ → Bool) (path name : Bytes) (link : ℕ) (w : World F)
    : Type 0 where
  pub normal : bytes_eq (normalize_path path) (slash ∷ []) ≡ false
  pub absolute : is_absolute path ≡ true
  pub one_part : path_parts (normalize_path path) ≡ name ∷ []
  pub not_empty : bytes_eq name [] ≡ false
  pub found : vfs_child_find w.root name w ≡ some link
  pub is_link : is_symlink (w.nodes link).node_type ≡ true
  pub no_node : upgrade alive (w.nodes link).linkto ≡ none
  pub target : (w.nodes link).linkto_path ≡ some path

-- `vfs_open` of a link to itself never returns: whatever fuel it has runs out, since each call starts with
-- a budget of its own.
pub vfs_open_loops :
    {F : Type 0}
    → (registry : List (VfsFs F)) (alive : ℕ → Bool) (path name : Bytes) (link : ℕ) (w : World F)
    → IsLoop alive path name link w
    → (fuel : ℕ) → vfs_open registry alive fuel path w ≡ none
unfolding vfs_open open_parts child_or_open visit vfs_resolve_symlink
vfs_open_loops registry alive path name link w l zero = refl
vfs_open_loops registry alive path name link w l (suc fuel) =
    let again = vfs_open_loops registry alive path name link w l fuel in
    let follow = λ (p : Bytes). vfs_open registry alive fuel p in
    let rest = λ (n b : ℕ). open_parts registry alive follow n b [] in
    let a : vfs_resolve_symlink registry alive follow link w ≡ none =
      rw (vfs_resolve_symlink, l.no_node, l.target, l.absolute, again) refl in
    let b : visit registry alive follow rest 8 link w ≡ none = rw (visit, l.is_link, a) refl in
    let c : open_parts registry alive follow w.root 8 (name ∷ []) w ≡ none =
      rw (open_parts, l.not_empty, child_or_open, l.found) b in
    rw (vfs_open, l.normal, l.one_part) c
