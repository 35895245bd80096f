-- ===== src/Syscall/UserPtr/Reach.antt =====
-- What the checks of user pointers promise of the addresses.
use old_boruixkernel.Common.{
  ℕ, zero, suc, ◌+◌, ◌/◌, ◌≤◌, ◌<◌, ◌≡◌, ◌≢◌, refl, ap, ◌∙◌, Bool, true, false, Option, none, some,
  List, length, ltb, leb, ◌==◌, if◌then◌else◌, arith, word_max, Bool-cases, inl, inr, subst, ltb→ge,
}
use old_boruixkernel.Mm.Vma.{areas}
use old_boruixkernel.Mm.Vma.Shape.{IsSound}
use old_boruixkernel.Mm.Vma.Order.{Chain}
use old_boruixkernel.Mm.Paging.{translate}
use old_boruixkernel.Mm.Paging.Backed.{check_range_mapped-Mapped, check_range_mapped-translate}
use old_boruixkernel.Syscall.UserPtr.{
  Space, user_range_end, required_flags, validate_mapped, validate_user_range, string_length,
  bytes_from, read_cstring_from_user,
}

-- The memory of the current task, if there is one, is valid, and the fuel is enough for its areas.
abbrev pub IsSpace : ℕ → Option Space → Type 0
IsSpace fuel none = Unit {0}
IsSpace fuel (some m) =
    IsSound m.root × Chain 0 word_max (areas m.root) × (length (areas m.root) + 1 < fuel)

-- The address is one of user space, and the current task has a translation of it.
abbrev pub Reachable : (ℕ → ℕ → Bool) → Option Space → ℕ → Type 0
Reachable has current a =
    (a < user_range_end)
    × (m : Space) × (current ≡ some m)
    × (phys : ℕ) × (translate has m.tables a ≡ some phys)

-- An answer of the check, and what it says of the addresses.
abbrev pub Answers : (ℕ → ℕ → Bool) → Option Space → ℕ → ℕ → Option Bool → Type 0
Answers has current buf len r =
    (b : Bool) × (r ≡ some b)
    × (b ≡ true → (a : ℕ) → buf ≤ a → a < buf + len → Reachable has current a)

mapped-Answers :
    (fuel : ℕ) (has : ℕ → ℕ → Bool) (current : Option Space) (buf len : ℕ) (write : Bool)
    → IsSpace fuel current
    → len / 4096 + 1 < fuel
    → buf + len ≤ user_range_end
    → Answers has current buf len (validate_mapped fuel has current buf len write)
mapped-Answers fuel has none buf len write w g end = (false, refl, λ no_one. absurd (ground arith))
mapped-Answers fuel has (some m) buf len write (s, c, f) g end =
    let (b, e, both) =
      check_range_mapped-Mapped has m.root m.tables s c fuel buf len (required_flags write) f g in
    (
      b,
      e,
      λ y a from to.
          let (phys, at) =
            check_range_mapped-translate has m.root m.tables s c fuel buf len (required_flags write)
              a f g (e ∙ ap some y) from to in
          (omega arith, m, refl, phys, at),
    )

-- With fuel for the areas and the pages, `validate_user_range` answers. Where it accepts a range, every
-- address of the range lies in user space and has a translation in the memory of the current task.
pub validate_user_range-Reachable :
    (fuel : ℕ) (has : ℕ → ℕ → Bool) (current : Option Space) (buf len : ℕ) (write : Bool)
    → IsSpace fuel current
    → len / 4096 + 1 < fuel
    → Answers has current buf len (validate_user_range fuel has current buf len write)
unfolding validate_user_range
validate_user_range-Reachable fuel has current buf len write w g = elim (Bool-cases (len == 0)) [
  | inl empty ↦ rw (empty) (true, refl, λ y a from to. absurd (ground arith))
  | inr some_bytes ↦ elim (Bool-cases (leb user_range_end buf)) [
    | inl out ↦ rw (some_bytes, out) (false, refl, λ y. absurd (ground arith))
    | inr starts ↦ elim (Bool-cases (ltb word_max (buf + len))) [
      | inl over ↦ rw (some_bytes, starts, over) (false, refl, λ y. absurd (ground arith))
      | inr word ↦ elim (Bool-cases (ltb user_range_end (buf + len))) [
        | inl past ↦ rw (some_bytes, starts, word, past) (false, refl, λ y. absurd (ground arith))
        | inr within ↦
            rw (some_bytes, starts, word, within)
              (mapped-Answers fuel has current buf len write w g
                (ltb→ge user_range_end (buf + len) within))
      ]
    ]
  ]
]

-- How the search for the end of a string from `from` on ends.
pub data Ends (Good : ℕ → Type 0) (valid : ℕ → Option Bool) (byte : ℕ → ℕ) (ptr from max_len : ℕ)
    (r : Option (Option ℕ)) : Type 0 where
  found :
      (len : ℕ)
      → r ≡ some (some len)
      → (from ≤ len) × (len ≤ max_len)
      → ((i : ℕ) → from ≤ i → i < len → Good (ptr + i) × (byte (ptr + i) ≢ 0))
      → (len < max_len → Good (ptr + len) × (byte (ptr + len) ≡ 0))
      → Ends Good valid byte ptr from max_len r
  refused :
      (k : ℕ)
      → r ≡ some none
      → (from ≤ k) × (k < max_len)
      → valid (ptr + k) ≡ some false
      → Ends Good valid byte ptr from max_len r

module _ (Good : ℕ → Type 0) (valid : ℕ → Option Bool) (byte : ℕ → ℕ) (ptr : ℕ)
    (answers : (a : ℕ) → (b : Bool) × (valid a ≡ some b) × (b ≡ true → Good a)) where
  string_length-Ends :
      (n from : ℕ) → Ends Good valid byte ptr from (from + n) (string_length valid byte ptr n from)
  unfolding string_length
  string_length-Ends zero from =
      found from refl (omega arith, omega arith) (λ i x y. absurd (omega arith))
        (λ x. absurd (omega arith))
  string_length-Ends (suc n) from =
      let (b, e, good) = answers (ptr + from) in
      elim (Bool-cases b) [
        | inr bad ↦
            refused from (rw (string_length, e, bad) refl) (omega arith, omega arith)
              (e ∙ ap some bad)
        | inl ok ↦ elim (Bool-cases (byte (ptr + from) == 0)) [
          | inl stop ↦
              found from (rw (string_length, e, ok, stop) refl) (omega arith, omega arith)
                (λ i x y. absurd (omega arith)) (λ x. (good ok, ground arith))
          | inr more ↦ elim (string_length-Ends n (from + 1)) [
            | refused k q (lo, hi) at ↦
                refused k (rw (string_length, e, ok, more) q) (omega arith, omega arith) at
            | found len k (lo, hi) body stop ↦
                found len (rw (string_length, e, ok, more) k) (omega arith, omega arith)
                  (λ i x y. elim (Bool-cases (i == from)) [
                    | inl here ↦
                        let at : from ≡ i = ground arith in
                        subst (λ z. Good (ptr + z) × (byte (ptr + z) ≢ 0)) at
                          (good ok, λ z. ground arith)
                    | inr later ↦ body i (ground arith) y
                  ])
                  (λ x. stop (omega arith))
          ]
        ]
      ]

-- How a read of a string ends.
pub data Reads {S : Type 0} (from_utf8 : List ℕ → Option S) (empty : S) (valid : ℕ → Option Bool)
    (Good : ℕ → Type 0) (byte : ℕ → ℕ) (ptr max_len : ℕ) (r : Option (Option S)) : Type 0 where
  reads :
      (len : ℕ)
      → len ≤ max_len
      → r ≡ some (if len == 0 then some empty else from_utf8 (bytes_from byte ptr len))
      → ((i : ℕ) → i < len → Good (ptr + i) × (byte (ptr + i) ≢ 0))
      → (len < max_len → Good (ptr + len) × (byte (ptr + len) ≡ 0))
      → Reads from_utf8 empty valid Good byte ptr max_len r
  null : ptr ≡ 0 → r ≡ some none → Reads from_utf8 empty valid Good byte ptr max_len r
  bad_pointer :
      (k : ℕ)
      → k < max_len
      → valid (ptr + k) ≡ some false
      → r ≡ some none
      → Reads from_utf8 empty valid Good byte ptr max_len r

-- With fuel for the areas, `read_cstring_from_user` answers. It reads up to the first zero byte or
-- `max_len` bytes, and every byte that it reads lies in user space and has a translation in the memory of
-- the current task; or the pointer is null; or it refuses since one of the addresses up to `max_len` is
-- refused by `validate_user_range`.
pub read_cstring_from_user-Reads :
    {S : Type 0}
    → (from_utf8 : List ℕ → Option S) (empty : S) (fuel : ℕ) (has : ℕ → ℕ → Bool)
      (current : Option Space) (byte : ℕ → ℕ) (ptr max_len : ℕ)
    → IsSpace fuel current
    → 1 < fuel
    → Reads from_utf8 empty
        (λ a. validate_user_range fuel has current a 1 false)
        (Reachable has current)
        byte
        ptr
        max_len
        (read_cstring_from_user from_utf8 empty fuel has current byte ptr max_len)
unfolding read_cstring_from_user
read_cstring_from_user-Reads from_utf8 empty fuel has current byte ptr max_len w g =
    let answers : (a : ℕ)
        → (b : Bool) × (validate_user_range fuel has current a 1 false ≡ some b)
          × (b ≡ true → Reachable has current a) =
      λ a.
        let (b, e, all) =
          validate_user_range-Reachable fuel has current a 1 false w (omega arith) in
        (b, e, λ y. all y a (omega arith) (omega arith)) in
    elim (Bool-cases (ptr == 0)) [
      | inl zero_ptr ↦ null (ground arith) (rw (read_cstring_from_user, zero_ptr) refl)
      | inr other ↦
          elim (string_length-Ends (Reachable has current)
            (λ a. validate_user_range fuel has current a 1 false) byte ptr answers max_len 0) [
              | refused k e (lo, hi) at ↦
                  bad_pointer k (omega arith) at (rw (read_cstring_from_user, other, e) refl)
              | found len e (lo, hi) body stop ↦
                  reads len (omega arith) (rw (read_cstring_from_user, other, e) refl)
                    (λ i y. body i (omega arith) y) (λ x. stop (omega arith))
            ]
    ]
