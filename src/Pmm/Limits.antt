-- ===== src/Pmm/Limits.antt =====
-- _PmmDetermineMemoryLimits against sums and maxima over the memory map, and the entry whose type
-- is past the table of regions.
use hall.Prelude.{
  ℕ, ◌+◌, ◌%◌, ◌<◌, ◌≡◌, refl, ◌∙◌, inl, inr, Bool, true, ◌&&◌, some, List, [], ◌∷◌, arith, ◌==◌,
  if◌then◌else◌, length, get_or, set, length-set, get_elem?-eq-get_or, get_or-set_self,
  get_or-set_ne, All, ap, add32, u32_mod, u64_mod, max, ℕ_discrete, Bool-cases,
}
use hall.Bitmap.{is_boolean_flag_on}
use hall.Pmm.{
  MemoryMapEntry, MemoryRegionList, MemoryLimits, usable_ram, ea_valid_entry, count_region,
  limits_round, limits_loop, determine_memory_limits,
}

-- An entry that the map marks as valid, and one of usable memory.
abbrev pub is_valid_entry : MemoryMapEntry → Bool
is_valid_entry e = is_boolean_flag_on e.extended_attributes ea_valid_entry

abbrev pub is_usable : MemoryMapEntry → Bool
is_usable e = is_valid_entry e && e.kind == usable_ram

-- The specification: the highest end, the sum of the sizes and the number of the entries picked.
unfoldable pub highest_end : (MemoryMapEntry → Bool) → List MemoryMapEntry → ℕ
highest_end p [] = 0
highest_end p (e ∷ entries) =
    max (if p e then e.base_address + e.size else 0) (highest_end p entries)

unfoldable pub total_size : (MemoryMapEntry → Bool) → List MemoryMapEntry → ℕ
total_size p [] = 0
total_size p (e ∷ entries) = (if p e then e.size else 0) + total_size p entries

unfoldable pub count_if : (MemoryMapEntry → Bool) → List MemoryMapEntry → ℕ
count_if p [] = 0
count_if p (e ∷ entries) = (if p e then 1 else 0) + count_if p entries

abbrev pub number : List MemoryRegionList → ℕ → ℕ
number regions k = (get_or regions k (record { kind = 0; number_of_entries = 0 })).number_of_entries

abbrev pub of_kind : ℕ → MemoryMapEntry → Bool
of_kind k e = is_valid_entry e && e.kind == k

-- What the firmware's map has to satisfy: no region wraps round the address space, and the type of
-- a valid entry has a place in the table.
abbrev pub Fits : ℕ → MemoryMapEntry → Type 0
Fits kinds e = (e.base_address + e.size < u64_mod) × (is_valid_entry e ≡ true → e.kind < kinds)

abbrev counted : List MemoryRegionList → ℕ → List MemoryRegionList
counted regions k = set regions k (record {
  kind = (get_or regions k (record { kind = 0; number_of_entries = 0 })).kind;
  number_of_entries = add32 (number regions k) 1;
})

count_region-eq :
    (regions : List MemoryRegionList) (k : ℕ)
    → k < length regions
    → count_region regions k ≡ some (counted regions k)
unfolding count_region
count_region-eq regions k h =
    rw (get_elem?-eq-get_or regions k (record { kind = 0; number_of_entries = 0 }) h)

number-counted :
    (regions : List MemoryRegionList) (k j : ℕ)
    → k < length regions
    → number (counted regions k) j
      ≡ (if k == j then add32 (number regions k) 1 else number regions j)
number-counted regions k j h = elim (ℕ_discrete k j) [
  | yes e ↦
      rw (← e) (ap (λ r. r.number_of_entries) (get_or-set_self regions k _ _ h) ∙ ground arith)
  | no n ↦ ap (λ r. r.number_of_entries) (get_or-set_ne regions k j _ _ n) ∙ ground arith
]

-- The values of the loop's variables after the entries, from those before them.
record Computed (l : MemoryLimits) (entries : List MemoryMapEntry) (l' : MemoryLimits)
    : Type 0 where
  kinds : length l'.regions ≡ length l.regions
  present : l'.present ≡ max l.present (highest_end (λ _. true) entries)
  available : l'.available ≡ max l.available (highest_end is_usable entries)
  size : l'.available_size ≡ l.available_size + total_size is_usable entries
  numbers :
      (k : ℕ) → number l'.regions k ≡ (number l.regions k + count_if (of_kind k) entries) % u32_mod

abbrev after_round : MemoryLimits → MemoryMapEntry → MemoryLimits
after_round l e = record {
  available_size = l.available_size + (if is_usable e then e.size else 0);
  present = max l.present (e.base_address + e.size);
  available = max l.available (if is_usable e then e.base_address + e.size else 0);
  regions = if is_valid_entry e then counted l.regions e.kind else l.regions;
}

limits_round-eq :
    (l : MemoryLimits) (e : MemoryMapEntry)
    → Fits (length l.regions) e
    → l.available_size + (if is_usable e then e.size else 0) < u64_mod
    → limits_round l e ≡ some (after_round l e)
unfolding limits_round
limits_round-eq l e fits room = elim (Bool-cases (is_valid_entry e)) [
  | inr ignored ↦ ground arith
  | inl valid ↦
      let run : count_region l.regions e.kind ≡ some (counted l.regions e.kind) =
        count_region-eq l.regions e.kind (fits.1 valid) in
      ground (arith, run)
]

after_round-numbers :
    (l : MemoryLimits) (e : MemoryMapEntry)
    → Fits (length l.regions) e
    → ((k : ℕ) → number l.regions k < u32_mod)
    → (k : ℕ)
    → number (after_round l e).regions k
      ≡ (number l.regions k + (if of_kind k e then 1 else 0)) % u32_mod
after_round-numbers l e fits small k = elim (Bool-cases (is_valid_entry e)) [
  | inr ignored ↦ ground (arith, small k)
  | inl valid ↦
      ground (arith, number-counted l.regions e.kind k (fits.1 valid), small k, small e.kind)
]

after_round-kinds :
    (l : MemoryLimits) (e : MemoryMapEntry) → length (after_round l e).regions ≡ length l.regions
after_round-kinds l e = ground (
  arith,
  length-set l.regions e.kind (record {
    kind = (get_or l.regions e.kind (record { kind = 0; number_of_entries = 0 })).kind;
    number_of_entries = add32 (number l.regions e.kind) 1;
  }),
)

limits_loop_lem :
    (kinds : ℕ) (l : MemoryLimits) (entries : List MemoryMapEntry)
    → length l.regions ≡ kinds
    → All (Fits kinds) entries
    → l.available_size + total_size is_usable entries < u64_mod
    → ((k : ℕ) → number l.regions k < u32_mod)
    → (l' : MemoryLimits) × (limits_loop l entries ≡ some l') × Computed l entries l'
unfolding limits_loop highest_end total_size count_if
limits_loop_lem kinds l [] same fits room small = (
  l,
  refl,
  record {
    kinds = refl;
    present = omega arith;
    available = omega arith;
    size = omega arith;
    numbers = λ k. omega (arith, small k);
  },
)
limits_loop_lem kinds l (e ∷ entries) same fits room small =
    let fits' : Fits (length l.regions) e = rw same fits.0 in
    let numbers = after_round-numbers l e fits' small in
    let (l', run, c) =
      limits_loop_lem kinds (after_round l e) entries (after_round-kinds l e ∙ same) fits.1
        (omega arith) (λ k. omega (arith, numbers k)) in
    (
      l',
      rw (limits_round-eq l e fits' (omega arith)) run,
      record {
        kinds = c.kinds ∙ after_round-kinds l e;
        present = omega (arith, c.present);
        available = omega (arith, c.available);
        size = omega (arith, c.size);
        numbers = λ k. omega (arith, c.numbers k, numbers k);
      },
    )

-- For a memory map with an entry, in which no region wraps round the address space, every valid
-- entry has a type inside the table and the usable sizes add up to a QWORD,
-- _PmmDetermineMemoryLimits returns. The highest present address is the greatest end over all
-- entries, the highest available one the greatest end over the valid entries of usable memory, the
-- memory size the sum of the lengths of all these, those under 1 MB included, and each region's counter
-- grows by the number of the valid entries of its type, as a DWORD.
pub determine_memory_limits_lem :
    (e : MemoryMapEntry) (entries : List MemoryMapEntry) (regions : List MemoryRegionList)
    → All (Fits (length regions)) (e ∷ entries)
    → total_size is_usable (e ∷ entries) < u64_mod
    → ((k : ℕ) → number regions k < u32_mod)
    → (l : MemoryLimits) × (determine_memory_limits (e ∷ entries) regions ≡ some l)
      × (l.present ≡ highest_end (λ _. true) (e ∷ entries))
      × (l.available ≡ highest_end is_usable (e ∷ entries))
      × (l.available_size ≡ total_size is_usable (e ∷ entries))
      × ((k : ℕ)
          → number l.regions k ≡ (number regions k + count_if (of_kind k) (e ∷ entries)) % u32_mod)
unfolding determine_memory_limits
determine_memory_limits_lem e entries regions fits room small =
    let (l, run, c) =
      limits_loop_lem (length regions)
        (record { available_size = 0; present = 0; available = 0; regions = regions }) (e ∷ entries)
        refl fits (omega arith) small in
    (l, run, omega (arith, c.present), omega (arith, c.available), omega (arith, c.size), c.numbers)
