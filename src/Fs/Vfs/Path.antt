-- ===== src/Fs/Vfs/Path.antt =====
-- kernel_fs/src/vfs/path.rs. A string is the list of its bytes.
pub mod Split
pub mod Normal
mod Examples
use old_boruixkernel.Common.{
  ℕ, Bool, true, false, List, [], ◌∷◌, ◌++◌, ◌==◌, ◌||◌, if◌then◌else◌, bytes_eq,
}

abbrev pub Bytes : Type 0
Bytes = List ℕ

abbrev pub slash : ℕ
slash = 47

abbrev pub dot : ℕ
dot = 46

abbrev pub here : Bytes
here = dot ∷ []

abbrev pub parent : Bytes
parent = dot ∷ dot ∷ []

abbrev pub before_first : ℕ → List Bytes → List Bytes
before_first c [] = (c ∷ []) ∷ []
before_first c (p ∷ ps) = (c ∷ p) ∷ ps

-- `split('/')`, which gives one part more than there are slashes.
unfoldable pub split : Bytes → List Bytes
split [] = [] ∷ []
split (c ∷ s) = let rest = split s in if c == slash then [] ∷ rest else before_first c rest

-- `join("/")`.
unfoldable pub join : List Bytes → Bytes
join [] = []
join (p ∷ []) = p
join (p ∷ q ∷ ps) = p ++ (slash ∷ join (q ∷ ps))

-- `Vec::pop`.
unfoldable pub drop_last : List Bytes → List Bytes
drop_last [] = []
drop_last (p ∷ []) = []
drop_last (p ∷ q ∷ ps) = p ∷ drop_last (q ∷ ps)

abbrev pub is_blank : Bytes → Bool
is_blank p = bytes_eq p [] || bytes_eq p here

-- The loop of `normalize_path`, with the parts so far.
unfoldable pub normal_parts : List Bytes → List Bytes → List Bytes
normal_parts parts [] = parts
normal_parts parts (p ∷ ps) =
    normal_parts
      (if is_blank p
        then parts
        else if bytes_eq p parent
        then drop_last parts
        else parts ++ (p ∷ []))
      ps

abbrev pub or_root : Bytes → Bytes
or_root [] = slash ∷ []
or_root (c ∷ s) = c ∷ s

abbrev pub is_absolute : Bytes → Bool
is_absolute [] = false
is_absolute (c ∷ s) = c == slash

unfoldable pub normalize_path : Bytes → Bytes
unfolding split join normal_parts
normalize_path [] = slash ∷ []
normalize_path (c ∷ s) =
    let parts = normal_parts [] (split (c ∷ s)) in
    or_root (if c == slash then slash ∷ join parts else join parts)

abbrev pub ends_with_slash : Bytes → Bool
ends_with_slash [] = false
ends_with_slash (c ∷ []) = c == slash
ends_with_slash (c ∷ d ∷ s) = ends_with_slash (d ∷ s)

unfoldable pub path_join : Bytes → Bytes → Bytes
unfolding normalize_path
path_join base rel =
    if is_absolute rel
    then normalize_path rel
    else normalize_path ((if ends_with_slash base then base else base ++ (slash ∷ [])) ++ rel)

-- `vfs_cwd_path_build` of mod.rs, where the working directory is always the root.
abbrev pub vfs_cwd_path_build : Bytes → Bytes
vfs_cwd_path_build path =
    if is_absolute path then normalize_path path else path_join (slash ∷ []) path
