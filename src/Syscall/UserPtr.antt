-- ===== src/Syscall/UserPtr.antt =====
-- kernel_syscall/src/syscall/user_ptr.rs: the checks of the pointers that user programs pass. `has` is
-- the test of flags that the `bitflags` crate generates, `byte` is the memory that the program sees,
-- and `from_utf8` is that of the standard library. `none` means that the fuel of the walk ran out.
pub mod Reach
mod Examples
use old_boruixkernel.Common.{
  ℕ, zero, suc, ◌+◌, ◌-◌, Bool, true, false, Option, none, some, List, [], ◌∷◌, ltb, leb, ◌==◌,
  if◌then◌else◌, word_max,
}
use old_boruixkernel.Mm.Vma.{Tree}
use old_boruixkernel.Mm.Paging.{Tables, check_range_mapped, user_accessible, writable}

-- What `current_task` gives: the areas and the tables of its memory.
pub record Space : Type 0 where
  pub root : Tree
  pub tables : Tables

abbrev pub user_range_end : ℕ
user_range_end = 0x0000_8000_0000_0000

abbrev pub required_flags : Bool → ℕ
required_flags write = if write then user_accessible + writable else user_accessible

-- What follows the tests of the bounds.
abbrev pub validate_mapped : ℕ → (ℕ → ℕ → Bool) → Option Space → ℕ → ℕ → Bool → Option Bool
validate_mapped fuel has none buf len write = some false
validate_mapped fuel has (some m) buf len write =
    check_range_mapped fuel has m.root m.tables buf len (required_flags write)

unfoldable pub validate_user_range : ℕ → (ℕ → ℕ → Bool) → Option Space → ℕ → ℕ → Bool → Option Bool
validate_user_range fuel has current buf len write =
    if len == 0
    then some true
    else if leb user_range_end buf
    then some false
    else if ltb word_max (buf + len)
    then some false
    else if ltb user_range_end (buf + len)
    then some false
    else validate_mapped fuel has current buf len write

-- `while len < max_len`, with `n` rounds left; `some none` is the early return.
unfoldable pub string_length : (ℕ → Option Bool) → (ℕ → ℕ) → ℕ → ℕ → ℕ → Option (Option ℕ)
string_length valid byte ptr zero len = some (some len)
string_length valid byte ptr (suc n) len =
    let rest = string_length valid byte ptr n (len + 1) in
    elim (valid (ptr + len)) [
      | none ↦ none
      | some ok ↦ if ok then if byte (ptr + len) == 0 then some (some len) else rest else some none
    ]

unfoldable pub bytes_from : (ℕ → ℕ) → ℕ → ℕ → List ℕ
bytes_from byte ptr zero = []
bytes_from byte ptr (suc n) = byte ptr ∷ bytes_from byte (ptr + 1) n

unfoldable pub read_cstring_from_user :
    {S : Type 0}
    → (List ℕ → Option S)
    → S
    → ℕ
    → (ℕ → ℕ → Bool)
    → Option Space
    → (ℕ → ℕ)
    → ℕ
    → ℕ
    → Option (Option S)
unfolding string_length bytes_from
read_cstring_from_user from_utf8 empty fuel has current byte ptr max_len =
    if ptr == 0
    then some none
    else elim (string_length (λ a. validate_user_range fuel has current a 1 false) byte ptr max_len
        0) [
          | none ↦ none
          | some found ↦ elim found [
            | none ↦ some none
            | some len ↦ some (if len == 0 then some empty else from_utf8 (bytes_from byte ptr len))
          ]
        ]
