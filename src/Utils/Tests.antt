-- ===== src/Utils/Tests.antt =====
-- Runs of main/utils.c, and its theorems at inputs.
use coremu.Common.{◌≡◌, ◌-◌, ◌^◌, refl, true, none, some, arith}
use mathlib.Core.Option
use coremu.Common.Int.{pos, negsuc, ◌+ℤ◌, ◌-ℤ◌, ◌*ℤ◌}
use coremu.Utils.{Timeval, Subtracted, timeval_subtract, maketimeout}
use coremu.Utils.Subtract.{IsDifference, timeval_subtract-IsDifference}

abbrev earlier : Timeval
earlier = record { tv_sec = pos 3; tv_usec = pos 900000 }

abbrev later : Timeval
later = record { tv_sec = pos 5; tv_usec = pos 200000 }

later_minus_earlier :
    Option.map (λ (r : Subtracted). r.result) (timeval_subtract later earlier)
    ≡ some (record { tv_sec = pos 1; tv_usec = pos 300000 })
unfolding timeval_subtract ◌+ℤ◌ ◌-ℤ◌ ◌*ℤ◌
later_minus_earlier = refl

earlier_minus_later :
    Option.map (λ (r : Subtracted). r.negative) (timeval_subtract earlier later) ≡ some true
unfolding timeval_subtract ◌+ℤ◌ ◌-ℤ◌ ◌*ℤ◌
earlier_minus_later = refl

five_seconds :
    maketimeout (record { tsp_sec = pos 0; tsp_nsec = pos 7 }) (pos 5)
    ≡ record { tsp_sec = pos 5; tsp_nsec = pos 0 }
unfolding maketimeout
five_seconds = refl

-- The difference of the two ends of the range is no long.
too_far :
    timeval_subtract
      (record earlier { tv_sec = pos (2 ^ 63 - 1) })
      (record earlier { tv_sec = negsuc (2 ^ 63 - 1) })
    ≡ none
unfolding timeval_subtract ◌+ℤ◌ ◌-ℤ◌ ◌*ℤ◌
too_far = refl

timeval_subtract-IsDifference_example :
    (r : Subtracted) × (timeval_subtract earlier later ≡ some r) × IsDifference earlier later r
timeval_subtract-IsDifference_example =
    timeval_subtract-IsDifference earlier later (omega arith) (omega arith) (omega arith)
      (omega arith)
