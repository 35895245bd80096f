-- ===== src/Mm/Rmap.antt =====
-- The reverse map from frames to the pages that map them, mm/src/rmap.rs. The `BTreeMap` is the list of
-- its keys and values in the order of the keys. The two locks leave no trace but their counters.
pub mod Entries
mod Examples
use old_boruixkernel.Common.{
  ℕ, zero, suc, ◌+◌, Bool, true, false, Option, none, some, List, [], ◌∷◌, ◌++◌, ltb, ◌==◌, ◌&&◌,
  if◌then◌else◌, length, bump,
}

pub record RmapEntry : Type 0 where
  pub p4_phys : ℕ
  pub vaddr : ℕ
  pub flags : ℕ

abbrev pub Frames : Type 0
Frames = List (ℕ × List RmapEntry)

-- `map.entry(key).or_insert_with(Vec::new).push(entry)`.
unfoldable pub push_entry : ℕ → RmapEntry → Frames → Frames
push_entry key e [] = (key, e ∷ []) ∷ []
push_entry key e ((k, es) ∷ m) =
    let rest = push_entry key e m in
    if key == k
    then (k, es ++ (e ∷ [])) ∷ m
    else if ltb key k
    then (key, e ∷ []) ∷ (k, es) ∷ m
    else (k, es) ∷ rest

-- `map.get(&key).cloned().unwrap_or_default()`.
unfoldable pub get_entries : ℕ → Frames → List RmapEntry
get_entries key [] = []
get_entries key ((k, es) ∷ m) = let rest = get_entries key m in if key == k then es else rest

abbrev pub maps : ℕ → ℕ → RmapEntry → Bool
maps p4_phys vaddr e = (e.p4_phys == p4_phys) && (e.vaddr == vaddr)

-- `vec.retain(|e| !(e.p4_phys == p4_phys && e.vaddr == vaddr))`.
unfoldable pub retain_others : ℕ → ℕ → List RmapEntry → List RmapEntry
retain_others p4_phys vaddr [] = []
retain_others p4_phys vaddr (e ∷ es) =
    let rest = retain_others p4_phys vaddr es in if maps p4_phys vaddr e then rest else e ∷ rest

-- A value that has become empty is removed with its key.
abbrev pub put_back : ℕ → List RmapEntry → Frames → Frames
put_back key [] m = m
put_back key (e ∷ es) m = (key, e ∷ es) ∷ m

unfoldable pub remove_entries : ℕ → ℕ → ℕ → Frames → Frames
remove_entries key p4_phys vaddr [] = []
remove_entries key p4_phys vaddr ((k, es) ∷ m) =
    let rest = remove_entries key p4_phys vaddr m in
    if key == k then put_back k (retain_others p4_phys vaddr es) m else (k, es) ∷ rest

unfoldable pub count_entries : Frames → ℕ
count_entries [] = 0
count_entries ((k, es) ∷ m) = length es + count_entries m

pub record RmapStats : Type 0 where
  pub adds : ℕ
  pub removes : ℕ
  pub lookups : ℕ
  pub mig_read : ℕ
  pub mig_write : ℕ

pub record Rmap : Type 0 where
  pub frames : Frames
  pub stats : RmapStats

unfoldable pub rmap_add : ℕ → ℕ → ℕ → ℕ → Rmap → Rmap
rmap_add phys p4_phys vaddr flags r = record {
  frames = push_entry phys (record { p4_phys = p4_phys; vaddr = vaddr; flags = flags }) r.frames;
  stats = record (r.stats) { adds = bump r.stats.adds };
}

unfoldable pub rmap_remove : ℕ → ℕ → ℕ → Rmap → Rmap
rmap_remove phys p4_phys vaddr r = record {
  frames = remove_entries phys p4_phys vaddr r.frames;
  stats = record (r.stats) { removes = bump r.stats.removes };
}

unfoldable pub rmap_lookup : ℕ → Rmap → Rmap × List RmapEntry
rmap_lookup phys r = (
  record r { stats = record (r.stats) { lookups = bump r.stats.lookups } },
  get_entries phys r.frames,
)

-- `map.iter().next()?` and `vec.first()?`.
unfoldable pub rmap_any : Rmap → Option (ℕ × RmapEntry)
rmap_any r = elim r.frames [
  | [] ↦ none
  | (k, es) ∷ m ↦ elim es [ [] ↦ none | e ∷ es' ↦ some (k, e) ]
]

unfoldable pub rmap_count : Rmap → ℕ
rmap_count r = count_entries r.frames

unfoldable pub migration_read_lock : Rmap → Rmap
migration_read_lock r = record r { stats = record (r.stats) { mig_read = bump r.stats.mig_read } }

unfoldable pub migration_write_lock : Rmap → Rmap
migration_write_lock r = record r {
  stats = record (r.stats) { mig_write = bump r.stats.mig_write };
}

unfoldable pub reset_rmap_stats : Rmap → Rmap
reset_rmap_stats r = record r {
  stats = record { adds = 0; removes = 0; lookups = 0; mig_read = 0; mig_write = 0 };
}
