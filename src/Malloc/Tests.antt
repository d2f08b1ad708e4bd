-- ===== src/Malloc/Tests.antt =====
-- The theorems of main/malloc-helper.c at inputs; a block is a number.
use coremu.Common.{ℕ, ◌≡◌, refl, Option, none, some}
use coremu.Memory.{Ptr, Store, Run, ok, aborted, write, load, free}
use coremu.Malloc.{coremu_realloc, oom_check}

abbrev empty : Store ℕ Ptr
empty = record { mem = λ _. none; glob = 0 }

abbrev cell : Run ℕ Ptr Ptr → Option (Option ℕ × Option ℕ)
cell (ok p s) = some (s.mem 16, s.mem p)
cell _ = none

-- The contents move to the new block and the old one is free; exhausted memory aborts.
realloc_moves :
    (cell (coremu_realloc 16 32 9 (record empty { mem = write empty.mem 16 (some 5) }))
      ≡ some (none, some 5))
    × (coremu_realloc 16 0 9 empty ≡ aborted)
unfolding coremu_realloc load free oom_check
realloc_moves = (refl, refl)
