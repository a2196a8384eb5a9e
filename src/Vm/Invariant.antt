-- ===== src/Vm/Invariant.antt =====
-- What every operation on a reservation space preserves.
use hall.Prelude.{
  ℕ, ◌+◌, ◌*◌, ◌/◌, ◌%◌, ◌<◌, ◌≡◌, refl, sym, ap, ◌∙◌, subst, Bool, true, false, not, Option, none,
  some, List, [], ◌∷◌, arith, leb, ◌==◌, leb→le, ==_iff, ◌⊎◌, inl, inr, assert-then, >>=-eq-some,
  some_inj, page_size, max_dword, add64, u64_mod, is_address_aligned, All, All-set, set,
  align_upper,
}
use hall.Bitmap.{Bitmap, preinit, init_ex, set_bits_value}
use hall.Bitmap.Bits.{bit, IsByte, IsValid}
use hall.Bitmap.Kept.{set_bits_value-IsValid, init-IsValid}
use hall.Vm.{
  ReservationState, free, used, last, Reservation, ReservationSpace, page_index, change_committed,
  mark_last, first_free_round, first_free_loop, initialize_reservation, check_bounds,
}
use hall.Vm.Commit.{Described}

-- An entry in use is described well.
abbrev pub IsSound : Reservation → Type 0
IsSound r = r.state ≡ used → Described r

-- The entries are sound, and the next commit bitmap starts on a page.
pub record Inv (space : ReservationSpace) : Type 0 where
  pub sound : All IsSound space.reservation_list
  pub aligned : space.free_bitmap_address % page_size ≡ 0

not_in_use :
    (r : Reservation) (s : ReservationState) → (s ≡ used → ⊥) → IsSound (record r { state = s })
not_in_use r s h e = absurd (h e)

mark_last-IsSound :
    (entries : List Reservation) {marked : List Reservation}
    → All IsSound entries
    → mark_last entries ≡ some marked
    → All IsSound marked
mark_last-IsSound [] all h = cc
mark_last-IsSound (r ∷ entries) all h =
    subst (All IsSound) (some_inj h) (not_in_use r last (λ e. cc), all.1)

-- The outcomes of one round of the search for a slot.
pub first_free_loop-round :
    (s : ReservationState) (r : Reservation) (entries after : List Reservation) (i k : ℕ)
    (onward : Option (Option (ℕ × List Reservation)))
    → first_free_round s r entries i onward ≡ some (some (k, after))
    → ((s ≡ free) × (after ≡ r ∷ entries) × (k ≡ i))
      ⊎ ((s ≡ last)
          × (marked : List Reservation) × (mark_last entries ≡ some marked)
          × (after ≡ record r { state = free } ∷ marked)
          × (k ≡ i))
      ⊎ ((s ≡ used)
          × (rest : List Reservation) × (onward ≡ some (some (k, rest)))
          × (after ≡ r ∷ rest))
first_free_loop-round free r entries after i k onward h =
    inl (
      refl,
      ap (λ p. p.1) (some_inj (some_inj (sym h))),
      ap (λ p. p.0) (some_inj (some_inj (sym h))),
    )
first_free_loop-round last r entries after i k onward h =
    let (marked, run, e) = >>=-eq-some (mark_last entries) _ h in
    inr (
      inl (
        refl,
        marked,
        run,
        ap (λ p. p.1) (some_inj (some_inj (sym e))),
        ap (λ p. p.0) (some_inj (some_inj (sym e))),
      ))
first_free_loop-round used r entries after i k none h = cc
first_free_loop-round used r entries after i k (some none) h = cc
first_free_loop-round used r entries after i k (some (some f)) h = inr (
    inr (
      refl,
      f.1,
      ap (λ x. some (some (x, f.1))) (ap (λ p. p.0) (some_inj (some_inj h))),
      ap (λ p. p.1) (some_inj (some_inj (sym h))),
    ))

-- Whatever slot is chosen, the list stays sound.
pub first_free_loop-IsSound :
    (entries after : List Reservation) (i k : ℕ)
    → All IsSound entries
    → first_free_loop entries i ≡ some (some (k, after))
    → All IsSound after
unfolding first_free_loop
first_free_loop-IsSound [] after i k all h = cc
first_free_loop-IsSound (r ∷ entries) after i k all h =
    elim (first_free_loop-round r.state r entries after i k (first_free_loop entries (i + 1)) h) [
      | inl (state, e, place) ↦ subst (All IsSound) (sym e) all
      | inr (inl (state, marked, run, e, place)) ↦
          subst (All IsSound) (sym e)
            (not_in_use r free (λ e. cc), mark_last-IsSound entries all.1 run)
      | inr (inr (state, rest, run, e)) ↦
          subst (All IsSound) (sym e)
            (all.0, first_free_loop-IsSound entries rest (i + 1) k all.1 run)
    ]

-- Neither changes the state of the entry.
pub change_committed-state :
    (r : Reservation) (address size : ℕ) (on : Bool) {after : Reservation}
    → change_committed address size r on ≡ some after
    → r.state ≡ after.state
unfolding change_committed
change_committed-state r address size on h = ground arith

-- Committing and decommitting keep an entry well described, whatever the range.
pub change_committed-Described :
    (r : Reservation) (address size : ℕ) (on : Bool) {after : Reservation}
    → Described r
    → change_committed address size r on ≡ some after
    → Described after
unfolding change_committed
change_committed-Described r address size on d h =
    let (a1, h1) = assert-then (not (address == 0)) _ h in
    let (a2, h2) = assert-then (not (size == 0)) _ h1 in
    let (a3, h3) = assert-then (is_address_aligned address page_size) _ h2 in
    let (a4, h4) = assert-then (is_address_aligned size page_size) _ h3 in
    let (a5, h5) = assert-then (leb (size / page_size) max_dword) _ h4 in
    let (a6, h6) = assert-then (leb (page_index r address) max_dword) _ h5 in
    let (bm, run, e) =
      >>=-eq-some (set_bits_value r.commit_bitmap (page_index r address) (size / page_size) on) _
        h6 in
    let (valid, same) =
      set_bits_value-IsValid r.commit_bitmap (page_index r address) (size / page_size) on d.bitmap
        run in
    subst Described (some_inj e) (record {
      aligned = d.aligned;
      positive = d.positive;
      whole = d.whole ∙ ap (λ n. n * page_size) (sym same);
      above = d.above;
      bitmap = valid;
      buffer = d.buffer;
    })

not_zero : (n : ℕ) → not (n == 0) ≡ true → 0 < n
not_zero n h = ground arith

-- The entry of a new reservation.
abbrev pub new_reservation : ℕ → ℕ → ℕ → Bool → ℕ → Bitmap → ℕ → Reservation
new_reservation address size rights uncacheable file bitmap buffer = record {
  start_va = address;
  size = size;
  page_rights = rights;
  state = used;
  uncacheable = uncacheable;
  backing_file = file;
  commit_bitmap = bitmap;
  bitmap_buffer = buffer;
}

-- What _VmInitializeReservation has checked and done where it returns.
pub record Initialized (space : ReservationSpace) (address size rights : ℕ) (uncacheable : Bool)
    (file index : ℕ) (after : ReservationSpace) : Type 0 where
  pub positive : 0 < address
  pub on_page : address % page_size ≡ 0
  pub pages : size % page_size ≡ 0
  pub bitmap : Bitmap
  pub valid : IsValid bitmap
  pub count : bitmap.bit_count ≡ size / page_size
  pub clear : (j : ℕ) → j < size / page_size → bit bitmap.buffer j ≡ false
  pub next : ℕ
  pub next_page : next % page_size ≡ 0
  pub outcome :
      record space {
        reservation_list =
            set space.reservation_list index (
              new_reservation address size rights uncacheable file bitmap
                space.free_bitmap_address);
        free_bitmap_address = next;
      }
      ≡ after

module _ (space : ReservationSpace) (address size rights : ℕ) (uncacheable : Bool) (file index : ℕ)
    (memory : List ℕ) {after : ReservationSpace} (v : Inv space) (valid : All IsByte memory) where
  pub initialize_reservation-Initialized :
      initialize_reservation space address size rights uncacheable file index memory ≡ some after
      → Initialized space address size rights uncacheable file index after
  unfolding initialize_reservation
  initialize_reservation-Initialized h =
      let (a1, h1) = assert-then (not (address == 0)) _ h in
      let (a2, h2) = assert-then (not (size == 0)) _ h1 in
      let (a3, h3) = assert-then (is_address_aligned address page_size) _ h2 in
      let (a4, h4) = assert-then (is_address_aligned size page_size) _ h3 in
      let (a5, h5) = assert-then (leb (size / page_size) max_dword) _ h4 in
      let (prepared, p, h6) = >>=-eq-some (preinit (size / page_size)) _ h5 in
      let (a7, h7) = assert-then (not (prepared.0 == 0)) _ h6 in
      let (a8, h8) = assert-then (is_address_aligned space.free_bitmap_address page_size) _ h7 in
      let (bitmap, run, h9) = >>=-eq-some (init_ex prepared.1 memory false) _ h8 in
      let (a10, h10) =
        assert-then
          (check_bounds space.free_bitmap_address (align_upper prepared.0 page_size)
            space.list_address space.reserved_area_size)
          _ h9 in
      let whole : size % page_size ≡ 0 = (==_iff (size % page_size) 0).0 a4 in
      let some_size = not_zero size a2 in
      let (made, count, clear) =
        init-IsValid (size / page_size) memory false (omega (arith, whole, some_size))
          (omega (arith, leb→le (size / page_size) max_dword a5)) valid p run in
      record {
        positive = not_zero address a1;
        on_page = (==_iff (address % page_size) 0).0 a3;
        pages = whole;
        bitmap = bitmap;
        valid = made;
        count = count;
        clear = clear;
        next = add64 space.free_bitmap_address (align_upper prepared.0 page_size);
        next_page = omega (arith, v.aligned);
        outcome = some_inj h10;
      }

  -- Filling a slot for a range that does not wrap keeps the invariant.
  pub initialize_reservation-Inv :
      address + size < u64_mod
      → initialize_reservation space address size rights uncacheable file index memory ≡ some after
      → Inv after
  initialize_reservation-Inv above h =
      let i = initialize_reservation-Initialized h in
      subst Inv i.outcome (record {
        sound = All-set IsSound space.reservation_list index _ v.sound (λ u. record {
          aligned = i.on_page;
          positive = i.positive;
          whole = omega (arith, i.pages, i.count);
          above = above;
          bitmap = i.valid;
          buffer = v.aligned;
        });
        aligned = i.next_page;
      })
