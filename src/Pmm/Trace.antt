-- ===== src/Pmm/Trace.antt =====
-- Clients of the physical memory manager: any sequence of reservations and releases, each release
-- of a block that is held. No two blocks that are held share a frame.
use hall.Prelude.{
  ℕ, ◌+◌, ◌*◌, ◌/◌, ◌%◌, ◌≤◌, ◌<◌, ◌≡◌, ◌≢◌, ◌⊎◌, inl, inr, true, false, some, List, [], ◌∷◌, arith,
  if◌then◌else◌, All, page_size, dec_le, max, sym, subst, some_inj, ◌∙◌, ap,
}
use hall.Bitmap.Bits.{bit, IsValid}
use hall.Bitmap.Range.{in_range}
use hall.Pmm.{PmmData, reserve_memory_ex, release_memory}
use hall.Pmm.Reserve.{with_buffer, reserved, frames, reserve_lem, Granted}
use hall.Pmm.Release.{release_lem}

-- A block of `count` frames from `first` on.
pub record Block : Type 0 where
  pub first : ℕ
  pub count : ℕ

pub record Clients : Type 0 where
  pub pmm : PmmData
  pub held : List Block

-- `rest` is `held` less one occurrence of `b`.
pub data Takes (b : Block) : List Block → List Block → Type 0 where
  here : {held : List Block} → Takes b (b ∷ held) held
  there : {c : Block} {held rest : List Block} → Takes b held rest → Takes b (c ∷ held) (c ∷ rest)

pub data Step (s : Clients) : Clients → Type 0 where
  grant :
      (n addr : ℕ) {phys : ℕ} {pmm : PmmData}
      → 0 < n
      → addr % page_size ≡ 0
      → addr / page_size ≤ frames s.pmm
      → reserve_memory_ex s.pmm n addr ≡ some (phys, pmm)
      → phys ≢ 0
      → Step s
          (record { pmm = pmm; held = record { first = phys / page_size; count = n } ∷ s.held })
  refuse :
      (n addr : ℕ) {pmm : PmmData}
      → 0 < n
      → addr % page_size ≡ 0
      → addr / page_size ≤ frames s.pmm
      → reserve_memory_ex s.pmm n addr ≡ some (0, pmm)
      → Step s (record { pmm = pmm; held = s.held })
  release :
      {b : Block} {rest : List Block} {pmm : PmmData}
      → Takes b s.held rest
      → release_memory s.pmm (b.first * page_size) b.count ≡ some pmm
      → Step s (record { pmm = pmm; held = rest })

pub data Reach (start : Clients) : Clients → Type 0 where
  begin : Reach start start
  step : {s t : Clients} → Reach start s → Step s t → Reach start t

abbrev pub Apart : Block → Block → Type 0
Apart b c = (b.first + b.count ≤ c.first) ⊎ (c.first + c.count ≤ b.first)

abbrev pub AllApart : List Block → Type 0
AllApart [] = Unit
AllApart (b ∷ held) = All (Apart b) held × AllApart held

-- A block that is held: frames of the bitmap, not frame 0, all reserved.
pub record IsHeld (pmm : PmmData) (b : Block) : Type 0 where
  pub some_frames : 0 < b.count
  pub inside : b.first + b.count ≤ frames pmm
  pub not_null : 0 < b.first
  pub taken : (f : ℕ) → b.first ≤ f → f < b.first + b.count → reserved pmm f ≡ true

-- What holds at every moment. Frame 0 is reserved for good, so that an address 0 means NULL.
pub record Inv (s : Clients) : Type 0 where
  pub valid : IsValid s.pmm.allocation_bitmap
  pub frame_zero : reserved s.pmm 0 ≡ true
  pub blocks : All (IsHeld s.pmm) s.held
  pub apart : AllApart s.held

-- A block with none of its frames free stays apart from a run of free frames.
IsHeld-Apart :
    (pmm : PmmData) (b c : Block)
    → IsHeld pmm c
    → ((f : ℕ) → b.first ≤ f → f < b.first + b.count → reserved pmm f ≡ false)
    → 0 < b.count
    → Apart b c
IsHeld-Apart pmm b c h free some_frames = elim (dec_le (b.first + b.count) c.first) [
  | yes before ↦ inl before
  | no overlap ↦ elim (dec_le (c.first + c.count) b.first) [
    | yes after ↦ inr after
    | no overlap' ↦ absurd (
        clash (max b.first c.first) (omega arith) (omega (arith, h.some_frames)) (omega arith)
          (omega (arith, h.some_frames)))
  ]
]
  where
    clash : (f : ℕ) → b.first ≤ f → f < b.first + b.count → c.first ≤ f → f < c.first + c.count → ⊥
    clash f p q r s = ground (arith, free f p q, h.taken f r s)

All-Apart :
    (pmm : PmmData) (b : Block) (held : List Block)
    → All (IsHeld pmm) held
    → ((f : ℕ) → b.first ≤ f → f < b.first + b.count → reserved pmm f ≡ false)
    → 0 < b.count
    → All (Apart b) held
All-Apart pmm b [] h free some_frames = tt
All-Apart pmm b (c ∷ held) h free some_frames =
    (IsHeld-Apart pmm b c h.0 free some_frames, All-Apart pmm b held h.1 free some_frames)

-- Blocks stay held when reserved frames stay reserved.
All-IsHeld_keep :
    (pmm : PmmData) (after : List ℕ) (held : List Block)
    → ((f : ℕ) → reserved pmm f ≡ true → bit after f ≡ true)
    → All (IsHeld pmm) held
    → All (IsHeld (with_buffer pmm after)) held
All-IsHeld_keep pmm after [] keep h = tt
All-IsHeld_keep pmm after (c ∷ held) keep h = (
  record {
    some_frames = h.0.some_frames;
    inside = h.0.inside;
    not_null = h.0.not_null;
    taken = λ f lo hi. keep f (h.0.taken f lo hi);
  },
  All-IsHeld_keep pmm after held keep h.1,
)

Granted-Inv :
    {s : Clients} {n addr r : ℕ} {after : List ℕ}
    → Inv s
    → 0 < n
    → r ≢ 0
    → Granted s.pmm n addr r after
    → Inv (record {
      pmm = with_buffer s.pmm after;
      held = record { first = r * page_size / page_size; count = n } ∷ s.held;
    })
Granted-Inv {s} {n} {addr} {r} {after} inv some_frames ne g =
    let e : r * page_size / page_size ≡ r = omega arith in
    rw e (record {
      valid = g.valid;
      frame_zero = ground (arith, g.bits 0, inv.frame_zero);
      blocks = (
        record {
          some_frames = some_frames;
          inside = g.inside;
          not_null = omega arith;
          taken = λ f lo hi. ground (arith, g.bits f);
        },
        All-IsHeld_keep s.pmm after s.held (λ f h. ground (arith, g.bits f)) inv.blocks,
      );
      apart = (
        All-Apart s.pmm (record { first = r; count = n }) s.held inv.blocks g.free some_frames,
        inv.apart,
      );
    })

Takes-All :
    (P : Block → Type 0) {b : Block} {held rest : List Block}
    → Takes b held rest
    → All P held
    → P b × All P rest
Takes-All P here h = h
Takes-All P (there t) h = let (first, others) = Takes-All P t h.1 in (first, (h.0, others))

Apart-sym : (b c : Block) → Apart b c → Apart c b
Apart-sym b c (inl h) = inr h
Apart-sym b c (inr h) = inl h

Takes-AllApart :
    {b : Block} {held rest : List Block}
    → Takes b held rest
    → AllApart held
    → All (Apart b) rest × AllApart rest
Takes-AllApart here h = h
Takes-AllApart {b} (there {c = c} t) h =
    let (near, others) = Takes-All (Apart c) t h.0 in
    let (from_b, apart) = Takes-AllApart t h.1 in ((Apart-sym c b near, from_b), (others, apart))

-- A release leaves the blocks held that are apart from it.
All-IsHeld_release :
    (pmm : PmmData) (b : Block) (after : List ℕ) (held : List Block)
    → ((f : ℕ) → bit after f ≡ (if in_range b.first b.count f then false else reserved pmm f))
    → All (Apart b) held
    → All (IsHeld pmm) held
    → All (IsHeld (with_buffer pmm after)) held
All-IsHeld_release pmm b after [] bits apart h = tt
All-IsHeld_release pmm b after (c ∷ held) bits apart h = (
  record {
    some_frames = h.0.some_frames;
    inside = h.0.inside;
    not_null = h.0.not_null;
    taken = λ f lo hi. ground (arith, bits f, h.0.taken f lo hi, apart.0);
  },
  All-IsHeld_release pmm b after held bits apart.1 h.1,
)

Granted-phys :
    {pmm pmm' : PmmData} {n addr r phys : ℕ} {after : List ℕ}
    → Granted pmm n addr r after
    → reserve_memory_ex pmm n addr ≡ some (phys, pmm')
    → phys ≡ r * page_size
Granted-phys g run = ap (λ q. q.0) (some_inj (sym run ∙ g.returned))

Granted-ne_zero :
    {s : Clients} {n addr r : ℕ} {after : List ℕ}
    → Inv s
    → 0 < n
    → Granted s.pmm n addr r after
    → r ≢ 0
Granted-ne_zero {r = r} inv some_frames g e = ground (arith, inv.frame_zero, g.free 0)

Step-Inv : {s t : Clients} → Step s t → Inv s → Inv t
Step-Inv {s} (grant n addr some_frames aligned inside run ne) inv =
    elim (reserve_lem s.pmm n addr inv.valid some_frames aligned inside) [
      | inl (r, after, g) ↦
          subst
            (λ q.
              Inv (record {
                pmm = q.1;
                held = record { first = q.0 / page_size; count = n } ∷ s.held;
              }))
            (some_inj (sym g.returned ∙ run))
            (Granted-Inv inv some_frames (Granted-ne_zero inv some_frames g) g)
      | inr (null, nothing) ↦ absurd (ne (ap (λ q. q.0) (some_inj (sym run ∙ null))))
    ]
Step-Inv {s} (refuse n addr some_frames aligned inside run) inv =
    elim (reserve_lem s.pmm n addr inv.valid some_frames aligned inside) [
      | inl (r, after, g) ↦
          absurd (Granted-ne_zero inv some_frames g (omega (arith, Granted-phys g run)))
      | inr (null, nothing) ↦
          subst (λ q. Inv (record { pmm = q.1; held = s.held })) (some_inj (sym null ∙ run)) inv
    ]
Step-Inv {s} (release {b} {rest} takes run) inv =
    let (b_held, rest_held) = Takes-All (IsHeld s.pmm) takes inv.blocks in
    let (b_apart, rest_apart) = Takes-AllApart takes inv.apart in
    let (after, run', bits, valid) =
      release_lem s.pmm b.first b.count inv.valid (omega (arith, b_held.inside, b_held.some_frames))
        b_held.inside in
    subst (λ q. Inv (record { pmm = q; held = rest })) (some_inj (sym run' ∙ run))
      (record {
        valid = valid;
        frame_zero = ground (arith, bits 0, inv.frame_zero, b_held.not_null);
        blocks = All-IsHeld_release s.pmm b after rest bits b_apart rest_held;
        apart = rest_apart;
      })

Reach-Inv : {s t : Clients} → Inv s → Reach s t → Inv t
Reach-Inv inv begin = inv
Reach-Inv inv (step r st) = Step-Inv st (Reach-Inv inv r)

-- A block that is held twice, or two blocks that share a frame, never occur: from a state in which
-- the invariant holds, after any sequence of reservations and releases of held blocks, the blocks
-- that are held are pairwise apart, lie inside the bitmap, avoid frame 0, and all their frames are
-- reserved.
pub no_double_allocation :
    {s t : Clients} → Inv s → Reach s t → AllApart t.held × All (IsHeld t.pmm) t.held
no_double_allocation inv r = let i = Reach-Inv inv r in (i.apart, i.blocks)
