-- ===== src/Memory.antt =====
-- CommonLib/src/cl_memory.c: the byte loops over a buffer. A pointer that is not NULL is the list of
-- the bytes from it on; a loop that runs past them has no meaning in C, and returns `none`.
pub mod Compare
pub mod Copy
use hall.Prelude.{ℕ, zero, suc, Option, none, some, List, [], ◌∷◌, ◌>>=◌}

-- cl_memset: the buffer with its first `size` bytes overwritten.
unfoldable pub memset : List ℕ → ℕ → ℕ → Option (List ℕ)
memset bytes value zero = some bytes
memset [] value (suc size) = none
memset (b ∷ bytes) value (suc size) = do rest ← memset bytes value size; some (value ∷ rest)
