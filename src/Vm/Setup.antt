-- ===== src/Vm/Setup.antt =====
-- The initialisation of a reservation space.
use hall.Prelude.{
  ℕ, zero, suc, ◌+◌, ◌*◌, ◌/◌, ◌%◌, ◌<◌, ◌≡◌, refl, sym, ◌∙◌, >>=-run, not, Option, none, some,
  List, [], ◌∷◌, arith, ◌==◌, ==-false, ==_iff, if◌then◌else◌, ◌>>=◌, ◌>>◌, assert, page_size,
  u64_mod, is_address_aligned, add64, All,
}
use hall.IntUtils.{calculate_percentage}
use hall.Vm.{free, used, last, Reservation, ReservationSpace, mark_last}
use hall.Vm.Live.{two_states, live_at}
use hall.Vm.Invariant.{Inv, IsSound}

-- VmReservationSpaceInit; `entries` is the memory of the list, and a reservation base of 0 is NULL.
unfoldable pub reservation_space_init : ℕ → ℕ → ℕ → List Reservation → Option ReservationSpace
reservation_space_init metadata_base reservation_base metadata_size entries = do
  assert (not (metadata_base == 0))
  assert (is_address_aligned metadata_base page_size)
  assert (not (metadata_size == 0))
  size_for_list ← calculate_percentage metadata_size 2000
  let start = if reservation_base == 0 then add64 metadata_base metadata_size else reservation_base
  some (record {
    free_virtual_address_pointer = start;
    start_of_virtual_address_space = start;
    bitmap_address_start = add64 metadata_base size_for_list;
    reserved_area_size = metadata_size;
    free_bitmap_address = add64 metadata_base size_for_list;
    list_address = metadata_base;
    reservation_list = entries;
  })

-- VmReservationSpaceFinishInit
unfoldable pub reservation_space_finish_init : ReservationSpace → Option ReservationSpace
reservation_space_finish_init space = do
  entries ← mark_last space.reservation_list
  some (record space { reservation_list = entries })

abbrev IsUnused : Reservation → Type 0
IsUnused r = r.state ≡ free

last_used : last ≡ used → ⊥
last_used h = cc

unused-IsSound : (entries : List Reservation) → All IsUnused entries → All IsSound entries
unused-IsSound [] h = tt
unused-IsSound (r ∷ entries) h =
    ((λ u. absurd (two_states (sym h.0 ∙ u))), unused-IsSound entries h.1)

-- A fifth of a metadata area of whole groups of five pages is a number of whole pages.
calculate_fifth :
    (size : ℕ) → size * 2000 < u64_mod → calculate_percentage size 2000 ≡ some (size / 5)
unfolding calculate_percentage
calculate_fifth size small = ground arith

-- The space after the initialisation: the metadata area holds the list and, from a fifth of it on,
-- the commit bitmaps; addresses are given out from `start` on, or from behind the metadata area.
abbrev pub initial_space : ℕ → ℕ → ℕ → List Reservation → ReservationSpace
initial_space base start size entries =
    let first = if start == 0 then base + size else start in
    record {
      free_virtual_address_pointer = first;
      start_of_virtual_address_space = first;
      bitmap_address_start = base + size / 5;
      reserved_area_size = size;
      free_bitmap_address = base + size / 5;
      list_address = base;
      reservation_list = entries;
    }

reservation_space_init-eq :
    (base start size : ℕ) (entries : List Reservation)
    → 0 < base
    → base % page_size ≡ 0
    → 0 < size
    → base + size < u64_mod
    → size * 2000 < u64_mod
    → reservation_space_init base start size entries ≡ some (initial_space base start size entries)
unfolding reservation_space_init
reservation_space_init-eq base start size entries positive on_page nonempty end small =
    let behind : add64 base size ≡ base + size = omega (arith, end) in
    let bitmaps : add64 base (size / 5) ≡ base + size / 5 = omega (arith, end) in
    rw
      (
        ==-false base 0 (λ x. omega (arith, x, positive)),
        (==_iff (base % page_size) 0).1 on_page,
        ==-false size 0 (λ x. omega (arith, x, nonempty)),
        calculate_fifth size small,
        behind,
        bitmaps,
      )
      refl

-- On memory of at least one entry, where the state of every entry behind the first is the free one,
-- for metadata at a page other than 0, of whole groups of five pages, that ends below 2^64 and whose
-- size times 2000 fits a QWORD, VmReservationSpaceInit and VmReservationSpaceFinishInit return. In the space that
-- they give the first entry is marked as the last one and every other entry is as it was, the commit
-- bitmaps begin at a fifth of the metadata area, and addresses are given out from the base asked
-- for, or from the end of the metadata area if that is NULL. The space has the invariant, and no
-- reservation whatever the first entry held.
pub reservation_space_init-Inv :
    (base start size : ℕ) (e : Reservation) (entries : List Reservation)
    → 0 < base
    → base % page_size ≡ 0
    → 0 < size
    → size % (5 * page_size) ≡ 0
    → base + size < u64_mod
    → size * 2000 < u64_mod
    → All IsUnused entries
    → let space = initial_space base start size (record e { state = last } ∷ entries) in
      ((reservation_space_init base start size (e ∷ entries) >>= reservation_space_finish_init)
        ≡ some space)
      × Inv space
      × ((j : ℕ) → live_at space.reservation_list j ≡ none)
unfolding reservation_space_finish_init live_at
reservation_space_init-Inv base start size e entries positive on_page nonempty groups end small
      unused =
    let marked : List Reservation = record e { state = last } ∷ entries in
    (
      >>=-run _
          (reservation_space_init-eq base start size (e ∷ entries) positive on_page nonempty end
            small)
          refl,
      record {
        sound = ((λ u. absurd (last_used u)), unused-IsSound entries unused);
        aligned = omega (arith, on_page, groups, end);
      },
      λ j. elim j as (λ k. live_at marked k ≡ none) [ zero ↦ refl | suc j' ↦ refl ],
    )
