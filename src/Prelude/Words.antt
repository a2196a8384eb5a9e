-- ===== src/Prelude/Words.antt =====
-- Machine words: DWORD is 32 bits wide and QWORD 64 (CommonLib/inc/data_type.h), and the
-- alignment macros of CommonLib/inc/base.h.
use Prim.Native.Nat.{ℕ, ◌+◌, ◌-◌, ◌*◌, ◌/◌, ◌%◌, ◌^◌}
use mathlib.Core.Bool.{Bool}
use hall.Prelude.Tests.{◌==◌}

abbrev pub u32_mod : ℕ
u32_mod = 2 ^ 32

abbrev pub u64_mod : ℕ
u64_mod = 2 ^ 64

abbrev pub max_byte : ℕ
max_byte = 0xff

abbrev pub max_dword : ℕ
max_dword = 0xffff_ffff

abbrev pub max_qword : ℕ
max_qword = 0xffff_ffff_ffff_ffff

abbrev pub page_size : ℕ
page_size = 0x1000

abbrev pub mb_size : ℕ
mb_size = 0x10_0000

-- DWORD and QWORD sums and differences wrap.
abbrev pub add32 : ℕ → ℕ → ℕ
add32 a b = (a + b) % u32_mod

abbrev pub sub32 : ℕ → ℕ → ℕ
sub32 a b = (a + u32_mod - b) % u32_mod

abbrev pub add64 : ℕ → ℕ → ℕ
add64 a b = (a + b) % u64_mod

abbrev pub sub64 : ℕ → ℕ → ℕ
sub64 a b = (a + u64_mod - b) % u64_mod

-- The alignments that the code passes are powers of two, for which masking the low bits off is
-- rounding down to a multiple.
abbrev pub align_lower : ℕ → ℕ → ℕ
align_lower addr alig = addr / alig * alig

abbrev pub align_upper : ℕ → ℕ → ℕ
align_upper addr alig = align_lower (sub64 (add64 addr alig) 1) alig

abbrev pub is_address_aligned : ℕ → ℕ → Bool
is_address_aligned addr alig = addr % alig == 0
