-- ===== src/Fs/Vfs/Path/Examples.antt =====
-- Tests of the paths, and the path `/a/./../b//c`.
use old_boruixkernel.Common.{◌≡◌, refl, [], ◌∷◌, All, bytes_eq}
use old_boruixkernel.Fs.Vfs.Path.{
  Bytes, split, join, drop_last, normal_parts, normalize_path, path_join, is_absolute,
}
use old_boruixkernel.Fs.Vfs.Path.Normal.{from_right, render, IsName, normalize_path-from_right}

abbrev raw : Bytes
raw = 47 ∷ 97 ∷ 47 ∷ 46 ∷ 47 ∷ 46 ∷ 46 ∷ 47 ∷ 98 ∷ 47 ∷ 47 ∷ 99 ∷ []

raw_normal : normalize_path raw ≡ 47 ∷ 98 ∷ 47 ∷ 99 ∷ []
unfolding normalize_path split join drop_last normal_parts bytes_eq
raw_normal = refl

-- `..` of the root is the root.
above_root : normalize_path (47 ∷ 46 ∷ 46 ∷ []) ≡ 47 ∷ []
unfolding normalize_path split join drop_last normal_parts bytes_eq
above_root = refl

joined : path_join (47 ∷ 98 ∷ []) (46 ∷ 46 ∷ 47 ∷ 99 ∷ []) ≡ 47 ∷ 99 ∷ []
unfolding path_join normalize_path split join drop_last normal_parts bytes_eq
joined = refl

normalize_path-from_right_example :
    (normalize_path raw ≡ render (is_absolute raw) (from_right (split raw)).1)
    × All IsName (from_right (split raw)).1
normalize_path-from_right_example = normalize_path-from_right raw
