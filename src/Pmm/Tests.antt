-- ===== src/Pmm/Tests.antt =====
-- The physical memory manager on concrete inputs, and the theorems at inputs that meet their
-- hypotheses.
use hall.Prelude.{
  ℕ, ◌+◌, ◌*◌, ◌/◌, ◌%◌, ◌<◌, ◌≤◌, ◌≡◌, ◌≢◌, refl, true, false, not, none, some, List, [], ◌∷◌, ◌⊎◌,
  inl, inr, arith, page_size, u32_mod, replicate, All, All-get_or, ℕ_discrete,
}
use hall.Bitmap.Byte.{bit_of}
use hall.Bitmap.Bits.{bit, IsValid}
use hall.Pmm.{
  PmmData, MemoryMapEntry, MemoryLimits, preinit_system, reserve_memory_ex, determine_memory_limits,
  initialize_allocation_bitmap, limits_loop, limits_round, count_region,
}
use hall.Pmm.Reserve.{with_buffer, reserved, frames, reserve_lem, Granted}
use hall.Pmm.Trace.{Clients, Step, Reach, AllApart, IsHeld, Inv, no_double_allocation}
use hall.Pmm.Limits.{
  is_usable, of_kind, highest_end, total_size, count_if, number, determine_memory_limits_lem,
}
use hall.Pmm.Boot.{covered, initialize_allocation_bitmap_lem}
use hall.Pmm.Outside.{release_past_end}

-- Sixteen frames, of which 0, 1 and 5 are reserved.
abbrev sixteen : PmmData
sixteen = record preinit_system {
  allocation_bitmap = record { buffer = 0x23 ∷ 0 ∷ []; buffer_size = 2; bit_count = 16 };
}

sixteen-IsValid : IsValid sixteen.allocation_bitmap
sixteen-IsValid = record { bytes = omega arith; room = omega arith; small = omega arith }

reserve_example :
    ((r : ℕ) × (after : List ℕ) × Granted sixteen 3 0x1000 r after)
    ⊎ ((reserve_memory_ex sixteen 3 0x1000 ≡ some (0, sixteen))
        × ((k : ℕ)
            → 1 ≤ k
            → k + 3 ≤ 16
            → ¬ ((f : ℕ) → k ≤ f → f < k + 3 → reserved sixteen f ≡ false)))
reserve_example =
    reserve_lem sixteen 3 0x1000 sixteen-IsValid (omega arith) (omega arith) (omega arith)

-- Three frames from 0x1000 on are granted: frames 2, 3 and 4 are free.
granted : (r : ℕ) × (after : List ℕ) × Granted sixteen 3 0x1000 r after
unfolding bit bit_of
granted =
    elim (reserve_lem sixteen 3 0x1000 sixteen-IsValid (omega arith) (omega arith) (omega arith)) [
      | inl found ↦ found
      | inr (null, nothing) ↦ absurd (nothing 6 (omega arith) (omega arith) free)
    ]
  where
    free : (f : ℕ) → 6 ≤ f → f < 9 → reserved sixteen f ≡ false
    free f lo hi = elim (ℕ_discrete f 6) [
      | yes e ↦ rw e
      | no not_six ↦ elim (ℕ_discrete f 7) [
        | yes e ↦ rw e
        | no not_seven ↦ let e : f ≡ 8 = omega arith in rw e
      ]
    ]

abbrev start : Clients
start = record { pmm = sixteen; held = [] }

start-Inv : Inv start
unfolding bit bit_of
start-Inv = record { valid = sixteen-IsValid; frame_zero = refl; blocks = tt; apart = tt }

one_held : Clients
one_held = record {
  pmm = with_buffer sixteen granted.1;
  held = record { first = granted.0 * page_size / page_size; count = 3 } ∷ [];
}

one_held-Reach : Reach start one_held
unfolding one_held
one_held-Reach = Reach.step Reach.begin (
    Step.grant 3 0x1000 (omega arith) (omega arith) (omega arith) granted.2.returned
      (omega (arith, granted.2.above)))

no_double_allocation_example : AllApart one_held.held × All (IsHeld one_held.pmm) one_held.held
no_double_allocation_example = no_double_allocation start-Inv one_held-Reach

-- A memory map with low memory, 64 KB from 1 MB on and a reserved entry.
abbrev low : MemoryMapEntry
low = record { base_address = 0; size = 0x9f000; kind = 1; extended_attributes = 1 }

abbrev high : MemoryMapEntry
high = record { base_address = 0x10_0000; size = 0x1_0000; kind = 1; extended_attributes = 1 }

abbrev firmware : MemoryMapEntry
firmware = record { base_address = 0x9f000; size = 0x1000; kind = 2; extended_attributes = 1 }

abbrev persistent : MemoryMapEntry
persistent = record { base_address = 0x20_0000; size = 0x1000; kind = 7; extended_attributes = 1 }

abbrev straddling : MemoryMapEntry
straddling = record { base_address = 0x10_0800; size = 0x2000; kind = 1; extended_attributes = 1 }

limits_run :
    determine_memory_limits (low ∷ firmware ∷ high ∷ []) preinit_system.memory_regions ≢ none
unfolding determine_memory_limits limits_loop limits_round count_region
limits_run = ground arith

kinds_small : (k : ℕ) → number preinit_system.memory_regions k < u32_mod
kinds_small k =
    All-get_or (λ r. r.number_of_entries < u32_mod) preinit_system.memory_regions k _ (omega arith)
      (omega arith)

determine_memory_limits_example :
    (l : MemoryLimits) × (determine_memory_limits
        (low ∷ firmware ∷ high ∷ [])
        preinit_system.memory_regions
      ≡ some l)
    × (l.present ≡ highest_end (λ _. true) (low ∷ firmware ∷ high ∷ []))
    × (l.available ≡ highest_end is_usable (low ∷ firmware ∷ high ∷ []))
    × (l.available_size ≡ total_size is_usable (low ∷ firmware ∷ high ∷ []))
    × ((k : ℕ)
        → number l.regions k
          ≡ (number preinit_system.memory_regions k
              + count_if (of_kind k) (low ∷ firmware ∷ high ∷ []))
            % u32_mod)
unfolding total_size
determine_memory_limits_example =
    determine_memory_limits_lem low (firmware ∷ high ∷ []) preinit_system.memory_regions
      (omega arith) (omega arith) kinds_small

initialize_allocation_bitmap_example :
    (after : PmmData) × (initialize_allocation_bitmap preinit_system
        (replicate 40 0)
        0x11_0000
        (low ∷ firmware ∷ high ∷ [])
      ≡ some (34, after))
    × (frames after ≡ 272)
    × ((f : ℕ) → f < 272 → reserved after f ≡ not (covered (low ∷ firmware ∷ high ∷ []) f))
    × IsValid after.allocation_bitmap
initialize_allocation_bitmap_example =
    initialize_allocation_bitmap_lem preinit_system (replicate 40 0) 0x11_0000
      (low ∷ firmware ∷ high ∷ []) (omega arith) (omega arith) (omega arith) (omega arith)
      (omega arith)

release_past_end_example :
    (after : PmmData) × (initialize_allocation_bitmap preinit_system
        (replicate 40 0)
        0x11_0000
        (low ∷ straddling ∷ [])
      ≡ some (34, after))
    × (reserved after 258 ≡ false)
    × (0x10_0800 + 0x2000 < 258 * page_size + page_size)
release_past_end_example =
    release_past_end preinit_system (replicate 40 0) 0x11_0000 (low ∷ []) [] straddling
      (omega arith) (omega arith) (omega arith) (omega arith) (omega arith) refl (omega arith)
      (omega arith) (omega arith)
