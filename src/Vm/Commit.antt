-- ===== src/Vm/Commit.antt =====
-- Which pages of a reservation are committed.
use hall.Prelude.{
  ℕ, ◌+◌, ◌-◌, ◌*◌, ◌/◌, ◌%◌, ◌≤◌, ◌<◌, ◌≡◌, refl, ap, ◌∙◌, Bool, ◌&&◌, some, List, arith, ltb, leb,
  lt→ltb, le→leb, ==-false, ==_iff, if◌then◌else◌, page_size, max_dword, u64_mod,
}
use hall.Bitmap.{Bitmap, set_bits_value, get_bit_value}
use hall.Bitmap.Bits.{bit, IsValid, get_bit-eq}
use hall.Bitmap.Range.{set_bits_value_lem, in_range}
use hall.Vm.{Reservation, page_index, change_committed, is_va_commited}

-- The entry describes whole pages that do not wrap, with a bit for each of them, and its bitmap
-- starts on a page.
pub record Described (r : Reservation) : Type 0 where
  pub aligned : r.start_va % page_size ≡ 0
  pub positive : 0 < r.start_va
  pub whole : r.size ≡ r.commit_bitmap.bit_count * page_size
  pub above : r.start_va + r.size < u64_mod
  pub bitmap : IsValid r.commit_bitmap
  pub buffer : r.bitmap_buffer % page_size ≡ 0

-- The address belongs to the entry.
pub record Within (r : Reservation) (address : ℕ) : Type 0 where
  pub lower : r.start_va ≤ address
  pub upper : address < r.start_va + r.size

-- The state of the page of the address.
abbrev pub committed : Reservation → ℕ → Bool
committed r address = bit r.commit_bitmap.buffer ((address - r.start_va) / page_size)

-- The check of an address of the reservation returns the bit of its page.
pub is_va_commited_lem :
    (r : Reservation) (address : ℕ)
    → Described r
    → Within r address
    → is_va_commited r address ≡ some (committed r address)
unfolding is_va_commited get_bit_value
is_va_commited_lem r address d w =
    let index : page_index r address ≡ (address - r.start_va) / page_size =
      omega (arith, w.lower, w.upper, d.above) in
    rw
      (
        index,
        ==-false address 0 (λ e. omega (arith, e, w.lower, d.positive)),
        le→leb ((address - r.start_va) / page_size) max_dword
            (omega (arith, w.upper, d.whole, d.bitmap.small)),
        lt→ltb ((address - r.start_va) / page_size) r.commit_bitmap.bit_count
            (omega (arith, w.upper, w.lower, d.whole)),
      )
      (get_bit-eq r.commit_bitmap.buffer ((address - r.start_va) / page_size)
        (omega (arith, w.upper, w.lower, d.whole, d.bitmap.room)))

-- A range of whole pages inside a reservation.
pub record Pages (r : Reservation) (address size : ℕ) : Type 0 where
  pub aligned : address % page_size ≡ 0
  pub whole : size % page_size ≡ 0
  pub nonempty : 0 < size
  pub lower : r.start_va ≤ address
  pub upper : address + size ≤ r.start_va + r.size

-- The page of an address is one of the range's exactly if the address is in the range.
in_range-page :
    (r : Reservation) (address size a : ℕ)
    → Described r
    → Pages r address size
    → Within r a
    → in_range
        ((address - r.start_va) / page_size)
        (size / page_size)
        ((a - r.start_va) / page_size)
      ≡ (leb address a && ltb a (address + size))
in_range-page r address size a d p w =
    ground (arith, d.aligned, p.aligned, p.whole, p.lower, w.lower)

change_committed-run :
    (r : Reservation) (address size : ℕ) (on : Bool) (after : Bitmap)
    → Described r
    → Pages r address size
    → set_bits_value r.commit_bitmap ((address - r.start_va) / page_size) (size / page_size) on
      ≡ some after
    → change_committed address size r on ≡ some (record r { commit_bitmap = after })
unfolding change_committed
change_committed-run r address size on after d p run =
    let index : page_index r address ≡ (address - r.start_va) / page_size =
      omega (arith, p.lower, p.upper, d.above) in
    rw
      (
        index,
        ==-false address 0 (λ e. omega (arith, e, p.lower, d.positive)),
        ==-false size 0 (λ e. omega (arith, e, p.nonempty)),
        (==_iff (address % page_size) 0).1 p.aligned,
        (==_iff (size % page_size) 0).1 p.whole,
        le→leb (size / page_size) max_dword
            (omega (arith, p.lower, p.upper, d.whole, d.bitmap.small)),
        le→leb ((address - r.start_va) / page_size) max_dword
            (omega (arith, p.lower, p.upper, d.whole, d.bitmap.small)),
        run,
      )
      refl

-- Committing or decommitting whole pages inside a well-described reservation returns. Afterwards exactly these
-- pages have the new state, every other page of the reservation has the state it had, and the entry
-- is as well described as before; nothing else in it changes.
pub change_committed_lem :
    (r : Reservation) (address size : ℕ) (on : Bool)
    → Described r
    → Pages r address size
    → (buffer : List ℕ) × (let after = record r {
      commit_bitmap = record r.commit_bitmap { buffer = buffer };
    } in
        (change_committed address size r on ≡ some after)
        × Described after
        × ((a : ℕ)
            → Within r a
            → is_va_commited after a
              ≡ some (if leb address a && ltb a (address + size) then on else committed r a)))
change_committed_lem r address size on d p =
    let (buffer, run, bits, valid) =
      set_bits_value_lem r.commit_bitmap ((address - r.start_va) / page_size) (size / page_size) on
        d.bitmap (omega (arith, p.lower, p.upper, p.nonempty, d.whole))
        (omega (arith, p.lower, p.upper, d.whole)) in
    let after : Reservation = record r {
      commit_bitmap = record r.commit_bitmap { buffer = buffer };
    } in
    let described : Described after = record {
      aligned = d.aligned;
      positive = d.positive;
      whole = d.whole;
      above = d.above;
      bitmap = valid;
      buffer = d.buffer;
    } in
    (
      buffer,
      (
        change_committed-run r address size on (record r.commit_bitmap { buffer = buffer }) d p run,
        described,
        λ a w.
            is_va_commited_lem after a described (record { lower = w.lower; upper = w.upper })
            ∙ ap some (
                bits ((a - r.start_va) / page_size)
                ∙ ap (λ b. if b then on else committed r a) (in_range-page r address size a d p w)),
      ),
    )
