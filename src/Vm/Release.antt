-- ===== src/Vm/Release.antt =====
-- What VmReservationSpaceFreeRegion does to the reservations.
use hall.Prelude.{
  ℕ, zero, suc, ◌%◌, ◌≡◌, ◌≢◌, refl, sym, ap, ◌∙◌, none, some, List, [], ◌∷◌, arith, ◌==◌, ==-false,
  ==_iff, inl, inr, if◌then◌else◌, page_size, set,
}
use hall.Bitmap.Kept.{All-get_elem?}
use hall.Vm.{Reservation, ReservationSpace, find_loop, find_reservation, vmm_free_type_release}
use hall.Vm.Live.{
  live_at, State-cases, live_at-last, live_at-state, live_at-next, live_at-first, live_at-later,
}
use hall.Vm.Find.{First, First-find_loop}
use hall.Vm.Invariant.{IsSound, Inv}
use hall.Vm.Region.{
  Request, mmu_unmap_memory, io_close_file, uninitialize_reservation, zeroed_reservation,
  FreeResult, release_entry, free_region,
}

-- A released entry is not live.
live_at-released :
    (entries : List Reservation) (j : ℕ) → live_at (set entries j zeroed_reservation) j ≡ none
unfolding live_at
live_at-released [] j = refl
live_at-released (e ∷ entries) zero = refl
live_at-released (e ∷ entries) (suc j) = elim (State-cases e.state) [
  | inl h ↦ live_at-next e (set entries j zeroed_reservation) j (inl h) ∙ live_at-released entries j
  | inr (inl h) ↦
      live_at-next e (set entries j zeroed_reservation) j (inr h) ∙ live_at-released entries j
  | inr (inr h) ↦ live_at-last e (set entries j zeroed_reservation) j h
]

-- Every other entry is as live as it was.
live_at-others :
    (entries : List Reservation) (j : ℕ) (r : Reservation)
    → live_at entries j ≡ some r
    → (m : ℕ) → m ≢ j
    → live_at (set entries j zeroed_reservation) m ≡ live_at entries m
unfolding live_at
live_at-others [] j r h m n = refl
live_at-others (e ∷ entries) zero r h zero n = absurd (n refl)
live_at-others (e ∷ entries) zero r h (suc m) n =
    sym (live_at-next e entries m (inr (live_at-first r e entries h).0))
live_at-others (e ∷ entries) (suc j) r h zero n = refl
live_at-others (e ∷ entries) (suc j) r h (suc m) n =
    let (state, live) = live_at-later r e entries j h in
    live_at-next e (set entries j zeroed_reservation) m state
    ∙ live_at-others entries j r live m (λ x. n (ap suc x))
    ∙ sym (live_at-next e entries m state)

-- What a release asks for: the bitmap's pages are unmapped, and the file is closed if there is one.
abbrev pub requests_of : Reservation → List Request
requests_of r =
    mmu_unmap_memory r.bitmap_buffer r.commit_bitmap.buffer_size
    ∷ (if r.backing_file == 0 then [] else io_close_file r.backing_file ∷ [])

-- The outcome of releasing entry `index`.
abbrev pub released : ReservationSpace → ℕ → Reservation → FreeResult
released space index r = record {
  space = record space { reservation_list = set space.reservation_list index zeroed_reservation };
  aligned_address = r.start_va;
  aligned_size = r.size;
  requests = requests_of r;
}

release_entry-eq :
    (space : ReservationSpace) (index : ℕ) (r : Reservation)
    → r.bitmap_buffer % page_size ≡ 0
    → release_entry space index r ≡ some (released space index r)
unfolding release_entry uninitialize_reservation
release_entry-eq space index r h = rw ((==_iff (r.bitmap_buffer % page_size) 0).1 h) refl

-- In a space with the invariant, releasing at an address other than 0 that is in a reservation
-- returns the start and the size of the first reservation in use that contains the address, and asks for its bitmap to be unmapped and its file to be closed.
-- Afterwards that reservation is gone, and every other one is in use exactly if it was.
pub free_region-release :
    (space : ReservationSpace) (address j : ℕ)
    → Inv space
    → address ≢ 0
    → (f : First space.reservation_list address 1 j)
    → (result : FreeResult) × (free_region space address 0 vmm_free_type_release ≡ some result)
      × (result.aligned_address ≡ f.entry.start_va)
      × (result.aligned_size ≡ f.entry.size)
      × (result.requests ≡ requests_of f.entry)
      × (live_at result.space.reservation_list j ≡ none)
      × ((m : ℕ)
          → m ≢ j
          → live_at result.space.reservation_list m ≡ live_at space.reservation_list m)
unfolding free_region find_reservation
free_region-release space address j v positive f =
    let sound = All-get_elem? IsSound space.reservation_list j v.sound f.place in
    let d = sound (live_at-state space.reservation_list j f.entry f.live) in
    let found : find_loop space.reservation_list 0 address 1 ≡ some j =
      First-find_loop space.reservation_list 0 address 1 j f ∙ ap some (omega arith) in
    (
      released space j f.entry,
      rw (==-false address 0 positive, found, f.place) (release_entry-eq space j f.entry d.buffer),
      refl,
      refl,
      refl,
      live_at-released space.reservation_list j,
      live_at-others space.reservation_list j f.entry f.live,
    )
