-- ===== src/Task/Fd.antt =====
-- The file descriptor table, kernel_task/src/fd.rs. A handle (`Arc<FileHandle>`) is a number, and its
-- `refcount`, an atomic that wraps, stands in a store that all tables share.
pub mod Slots
pub mod Alloc
pub mod Closing
pub mod Counts
pub mod Dup
mod Examples
use old_boruixkernel.Common.{
  ℕ, zero, suc, ◌+◌, ◌-◌, ◌%◌, Bool, true, false, Option, none, some, List, [], ◌∷◌, ◌++◌, ltb, leb,
  ◌==◌, if◌then◌else◌, length, get_elem?, get_or, set, take, replicate, bump, word_mod, word_max,
}

pub data FdError : Type 0 where
  invalid not_found no_space io : FdError

pub data FdResult {ℓ} (A : Type ℓ) : Type ℓ where
  ok : A → FdResult A
  err : FdError → FdResult A

-- The fields of a `FileHandle` that its methods change; the node is their argument.
pub record FileHandle : Type 0 where
  pub flags : ℕ
  pub offset : ℕ

unfoldable pub new_handle : ℕ → FileHandle
new_handle flags = record { flags = flags; offset = 0 }

-- `FileHandle::read` and `FileHandle::write` differ in the node's function that they call, which is
-- given the offset and returns how many bytes it moved.
unfoldable pub transfer : (ℕ → FdResult ℕ) → FileHandle → FileHandle × FdResult ℕ
transfer node_call h = elim (node_call h.offset) [
  | ok n ↦ (record h { offset = h.offset + n }, ok n)
  | err e ↦ (h, err e)
]

unfoldable pub seek : ℕ → FileHandle → FileHandle
seek offset h = record h { offset = offset }

unfoldable pub set_flags : ℕ → FileHandle → FileHandle
set_flags flags h = record h { flags = flags }

abbrev pub Refs : Type 0
Refs = ℕ → ℕ

-- `refcount.fetch_add(1)` and `refcount.fetch_sub(1)`.
abbrev pub retain : ℕ → Refs → Refs
retain h refs k = if k == h then bump (refs k) else refs k

abbrev pub release : ℕ → Refs → Refs
release h refs k = if k == h then (refs k + word_mod - 1) % word_mod else refs k

pub record FdTable : Type 0 where
  pub entries : List (Option ℕ)
  pub cloexec : List Bool

unfoldable pub new : FdTable
new = record { entries = []; cloexec = [] }

-- `Vec::resize`.
abbrev pub resize {ℓ} : {A : Type ℓ} → ℕ → A → List A → List A
resize len a xs = take len xs ++ replicate (len - length xs) a

unfoldable pub ensure_len : ℕ → FdTable → FdTable
ensure_len len t =
    if ltb (length t.entries) len
    then record { entries = resize len none t.entries; cloexec = resize len false t.cloexec }
    else t

-- Both writes of a slot, which is in range.
abbrev pub put : ℕ → Option ℕ → Bool → FdTable → FdTable
put i e flag t = record { entries = set t.entries i e; cloexec = set t.cloexec i flag }

abbrev pub max_fd : ℕ
max_fd = 1_000_000

-- The `loop` of `alloc_fd`, on fuel; `none` means that the fuel ran out.
unfoldable pub alloc_loop : ℕ → ℕ → ℕ → Bool → FdTable → Option (FdTable × FdResult ℕ)
unfolding ensure_len
alloc_loop zero idx handle flag t = none
alloc_loop (suc fuel) idx handle flag t =
    let t' = ensure_len (idx + 1) t in
    let rest = alloc_loop fuel (idx + 1) handle flag t' in
    elim (get_or t'.entries idx none) [
      | none ↦ some (put idx (some handle) flag t', ok idx)
      | some _ ↦ if ltb max_fd (idx + 1) then some (t', err no_space) else rest
    ]

unfoldable pub alloc_fd : ℕ → ℕ → ℕ → Bool → FdTable → Option (FdTable × FdResult ℕ)
unfolding alloc_loop
alloc_fd fuel min_fd handle flag t =
    if ltb max_fd min_fd then some (t, err invalid) else alloc_loop fuel min_fd handle flag t

-- `entries.get(fd).and_then(..)`: out of range there is no handle.
unfoldable pub get_fd : FdTable → ℕ → Option ℕ
get_fd t fd = get_or t.entries fd none

abbrev pub release_entry : Option ℕ → Refs → Refs
release_entry none refs = refs
release_entry (some h) refs = release h refs

unfoldable pub close_fd : ℕ → Refs → FdTable → Refs × FdTable × FdResult (Unit {0})
unfolding get_fd
close_fd fd refs t =
    if ltb fd (length t.entries)
    then (release_entry (get_fd t fd) refs, put fd none false t, ok tt)
    else (refs, t, err not_found)

unfoldable pub dup : ℕ → ℕ → ℕ → Bool → Refs → FdTable → Option (Refs × FdTable × FdResult ℕ)
dup fuel fd min_fd flag refs t = elim (get_fd t fd) [
  | none ↦ some (refs, t, err not_found)
  | some h ↦ elim (alloc_fd fuel min_fd h flag t) [
    | none ↦ none
    | some (t', r) ↦ some (retain h refs, t', r)
  ]
]

-- `none` is a panic: `newfd + 1` does not fit a `usize`, and the slot is out of range if it wraps.
-- `self.close_fd(newfd)?` cannot fail, since the slot is in range.
unfoldable pub dup2 : ℕ → ℕ → Bool → Refs → FdTable → Option (Refs × FdTable × FdResult ℕ)
dup2 oldfd newfd flag refs t = elim (get_fd t oldfd) [
  | none ↦ some (refs, t, err not_found)
  | some h ↦
      let wide = ensure_len (newfd + 1) t in
      if leb word_max newfd
      then none
      else if oldfd == newfd
      then some (refs, record wide { cloexec = set wide.cloexec newfd flag }, ok newfd)
      else elim (get_fd wide newfd) [
        | none ↦ some (retain h refs, put newfd (some h) flag wide, ok newfd)
        | some _ ↦
            let c = close_fd newfd refs wide in
            elim c.2 [
              | ok _ ↦ some (retain h c.0, put newfd (some h) flag c.1, ok newfd)
              | err e ↦ some (c.0, c.1, err e)
            ]
      ]
]

unfoldable pub dup3 : ℕ → ℕ → Bool → Refs → FdTable → Option (Refs × FdTable × FdResult ℕ)
unfolding dup2
dup3 oldfd newfd flag refs t =
    if oldfd == newfd then some (refs, t, err invalid) else dup2 oldfd newfd flag refs t

-- The loop of `fork_clone`, which counts each handle once more.
unfoldable pub retain_all : List (Option ℕ) → Refs → Refs
retain_all [] refs = refs
retain_all (none ∷ es) refs = retain_all es refs
retain_all (some h ∷ es) refs = retain_all es (retain h refs)

unfoldable pub fork_clone : Refs → FdTable → Refs × FdTable
unfolding retain_all
fork_clone refs t = (retain_all t.entries refs, t)

abbrev pub flag_at : FdTable → ℕ → Bool
flag_at t i = get_or t.cloexec i false

unfoldable pub is_cloexec : FdTable → ℕ → Bool
is_cloexec t fd = flag_at t fd

-- `for i in 0..len`, from `i` with `n` rounds left.
unfoldable pub close_flagged : ℕ → ℕ → Refs → FdTable → Refs × FdTable
unfolding close_fd
close_flagged zero i refs t = (refs, t)
close_flagged (suc n) i refs t =
    let (refs', t', _) = if flag_at t i then close_fd i refs t else (refs, t, ok tt) in
    close_flagged n (i + 1) refs' t'

unfoldable pub close_on_exec : Refs → FdTable → Refs × FdTable
unfolding close_flagged
close_on_exec refs t = close_flagged (length t.entries) 0 refs t

unfoldable pub close_from : ℕ → ℕ → Refs → FdTable → Refs × FdTable
unfolding close_fd
close_from zero i refs t = (refs, t)
close_from (suc n) i refs t =
    let (refs', t', _) = close_fd i refs t in close_from n (i + 1) refs' t'

unfoldable pub close_all : Refs → FdTable → Refs × FdTable
unfolding close_from
close_all refs t = close_from (length t.entries) 0 refs t

unfoldable pub set_cloexec : ℕ → Bool → FdTable → FdTable
set_cloexec fd enabled t =
    if ltb fd (length t.cloexec) then record t { cloexec = set t.cloexec fd enabled } else t
