-- ===== src/Vm/Fill.antt =====
-- What a new reservation is: the RESERVE case of _VmChangeVaReservationState.
use hall.Prelude.{
  ℕ, ◌+◌, ◌/◌, ◌%◌, ◌≤◌, ◌<◌, ◌≡◌, ◌≢◌, refl, subst, Bool, true, false, none, some, List, arith,
  ==-false, ==_iff, le→leb, page_size, max_dword, u32_mod, add64, set, align_upper, All, length,
}
use hall.Bitmap.{Bitmap, preinit, init_ex}
use hall.Bitmap.Bits.{IsByte, bit}
use hall.Bitmap.Init.{init_lem, preinited}
use hall.Vm.{
  success, Reservation, ReservationSpace, check_bounds, first_free_loop,
  find_first_free_reservation, initialize_reservation,
}
use hall.Vm.Live.{live_at}
use hall.Vm.Slot.{Slot, first_free_loop-Slot}
use hall.Vm.Invariant.{Inv, new_reservation, first_free_loop-IsSound}
use hall.Vm.Region.{reserve_va}

-- What a reservation needs: whole pages, few enough; memory for their bits; and room for that memory
-- in the metadata.
pub record Fits (space : ReservationSpace) (address size : ℕ) (memory : List ℕ) : Type 0 where
  pub positive : address ≢ 0
  pub nonempty : 0 < size
  pub on_page : address % page_size ≡ 0
  pub pages : size % page_size ≡ 0
  pub few : size / page_size < u32_mod
  pub bytes : All IsByte memory
  pub long : (size / page_size + 7) / 8 ≤ length memory
  pub room :
      check_bounds space.free_bitmap_address
        (align_upper ((size / page_size + 7) / 8) page_size)
        space.list_address
        space.reserved_area_size
      ≡ true

module _ (space : ReservationSpace) (address size rights : ℕ) (uncacheable : Bool) (file : ℕ)
    (memory : List ℕ) (v : Inv space) (fits : Fits space address size memory) where
  -- The space with the slot filled.
  abbrev pub filled_space : ℕ → Bitmap → ReservationSpace
  filled_space index bitmap = record space {
    reservation_list =
        set space.reservation_list index
          (new_reservation address size rights uncacheable file bitmap space.free_bitmap_address);
    free_bitmap_address =
        add64 space.free_bitmap_address (align_upper ((size / page_size + 7) / 8) page_size);
  }

  initialize_reservation-run :
      (index : ℕ) (bitmap : Bitmap)
      → preinit (size / page_size) ≡ some ((size / page_size + 7) / 8, preinited (size / page_size))
      → init_ex (preinited (size / page_size)) memory false ≡ some bitmap
      → initialize_reservation space address size rights uncacheable file index memory
        ≡ some (filled_space index bitmap)
  unfolding initialize_reservation
  initialize_reservation-run index bitmap prepared made =
      let some_pages : 0 < size / page_size = omega (arith, fits.nonempty, fits.pages) in
      rw
        (
          ==-false address 0 fits.positive,
          ==-false size 0 (λ e. omega (arith, e, fits.nonempty)),
          (==_iff (address % page_size) 0).1 fits.on_page,
          (==_iff (size % page_size) 0).1 fits.pages,
          le→leb (size / page_size) max_dword (omega (arith, fits.few)),
          prepared,
          ==-false ((size / page_size + 7) / 8) 0 (λ e. omega (arith, e, some_pages)),
          (==_iff (space.free_bitmap_address % page_size) 0).1 v.aligned,
          made,
          fits.room,
        )
        refl

reserve-chain :
    (space : ReservationSpace) (address size rights : ℕ) (uncacheable : Bool) (file : ℕ)
    (memory : List ℕ) (n : ℕ) (slots : List Reservation) {after : ReservationSpace}
    → first_free_loop space.reservation_list 0 ≡ some (some (n, slots))
    → initialize_reservation
        (record space { reservation_list = slots })
        address
        size
        rights
        uncacheable
        file
        n
        memory
      ≡ some after
    → reserve_va space address size rights uncacheable file memory ≡ some (success, after)
unfolding reserve_va find_first_free_reservation
reserve-chain space address size rights uncacheable file memory n slots found run =
    rw (found, run) refl

-- In a space with the invariant, reserving whole pages, fewer than 2^32, at an address other than
-- 0 returns with success where a slot is found and the metadata has room and memory for the bits. Then a reservation that was not in use has the address, the size, the rights and the file
-- asked for, with no page committed, and every other reservation is in use as before.
pub reserve_va_lem :
    (space : ReservationSpace) (address size rights : ℕ) (uncacheable : Bool) (file : ℕ)
    (memory : List ℕ) (n : ℕ) (slots : List Reservation)
    → Inv space
    → Fits space address size memory
    → first_free_loop space.reservation_list 0 ≡ some (some (n, slots))
    → (after : ReservationSpace) × (bitmap : Bitmap) × (reserve_va space address size rights
          uncacheable file memory
        ≡ some (success, after))
      × (live_at space.reservation_list n ≡ none)
      × (live_at after.reservation_list n
          ≡ some (
              new_reservation address size rights uncacheable file bitmap
                space.free_bitmap_address))
      × ((j : ℕ) → j < size / page_size → bit bitmap.buffer j ≡ false)
      × ((m : ℕ) → m ≢ n → live_at after.reservation_list m ≡ live_at space.reservation_list m)
reserve_va_lem space address size rights uncacheable file memory n slots v fits found =
    let (k, place, slot) = first_free_loop-Slot space.reservation_list slots 0 n found in
    let slot' : Slot space.reservation_list slots n =
      subst (Slot space.reservation_list slots) (omega (arith, place)) slot in
    let space' : ReservationSpace = record space { reservation_list = slots } in
    let v' : Inv space' = record {
      sound = first_free_loop-IsSound space.reservation_list slots 0 n v.sound found;
      aligned = v.aligned;
    } in
    let fits' : Fits space' address size memory = record {
      positive = fits.positive;
      nonempty = fits.nonempty;
      on_page = fits.on_page;
      pages = fits.pages;
      few = fits.few;
      bytes = fits.bytes;
      long = fits.long;
      room = fits.room;
    } in
    let made =
      init_lem (size / page_size) memory false (omega (arith, fits.nonempty, fits.pages)) fits.few
        fits.bytes fits.long in
    let bitmap : Bitmap = record (preinited (size / page_size)) { buffer = made.0 } in
    let run =
      initialize_reservation-run space' address size rights uncacheable file memory v' fits' n
        bitmap made.1 made.2 in
    let entry =
      new_reservation address size rights uncacheable file bitmap space.free_bitmap_address in
    (
      filled_space space' address size rights uncacheable file memory v' fits' n bitmap,
      bitmap,
      reserve-chain space address size rights uncacheable file memory n slots found run,
      slot'.empty,
      slot'.filled entry refl,
      made.3,
      slot'.others entry refl,
    )
