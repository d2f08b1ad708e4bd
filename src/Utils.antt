-- ===== src/Utils.antt =====
-- main/utils.c: the time arithmetic and the random number helper.
mod Tests
pub mod Subtract
use coremu.Common.{ℕ, ◌+◌, ◌-◌, ◌^◌, ◌%◌, ◌&&◌, Bool, Option, none, some, ◌==◌, if◌then◌else◌}
use coremu.System.{◌>>=◌}
use coremu.Common.Int.{
  ℤ, pos, negsuc, leb_ℤ, pos_part, neg_part, ◌+ℤ◌, ◌-ℤ◌, ◌*ℤ◌, ltb_ℤ, quot_ℤ, int32,
}

-- `struct timeval`; both fields are signed longs.
pub record Timeval : Type 0 where
  pub tv_sec : ℤ
  pub tv_usec : ℤ

abbrev pub million : ℕ
million = 1000000

-- The result of an operation on longs and on ints; `none` is an overflow, which C leaves undefined.
abbrev pub long : ℤ → Option ℤ
long a = if leb_ℤ (negsuc (2 ^ 63 - 1)) a && leb_ℤ a (pos (2 ^ 63 - 1)) then some a else none

abbrev pub int : ℤ → Option ℤ
int a = if leb_ℤ (negsuc (2 ^ 31 - 1)) a && leb_ℤ a (pos (2 ^ 31 - 1)) then some a else none

-- The first carry of `timeval_subtract`: borrows seconds for `y`.
unfoldable pub borrow : Timeval → Timeval → Option Timeval
borrow x y =
    if ltb_ℤ x.tv_usec y.tv_usec
    then (do
      d ← long (y.tv_usec -ℤ x.tv_usec)
      let nsec = int32 (quot_ℤ d million +ℤ pos 1)
      m ← int (pos million *ℤ nsec)
      usec ← long (y.tv_usec -ℤ m)
      sec ← long (y.tv_sec +ℤ nsec)
      some (record { tv_sec = sec; tv_usec = usec }))
    else some y

-- The second carry: gives seconds of `y` back.
unfoldable pub give_back : Timeval → Timeval → Option Timeval
give_back x y = do
  d ← long (x.tv_usec -ℤ y.tv_usec)
  if ltb_ℤ (pos million) d
      then (do
        let nsec = int32 (quot_ℤ d million)
        m ← int (pos million *ℤ nsec)
        usec ← long (y.tv_usec +ℤ m)
        sec ← long (y.tv_sec -ℤ nsec)
        some (record { tv_sec = sec; tv_usec = usec }))
      else some y

pub record Subtracted : Type 0 where
  pub result : Timeval
  pub y : Timeval  -- as the caller finds it afterwards
  pub negative : Bool

-- `timeval_subtract(result, x, y)`; the caller's `y` is updated in place.
unfoldable pub timeval_subtract : Timeval → Timeval → Option Subtracted
unfolding borrow give_back
timeval_subtract x y0 = do
  y1 ← borrow x y0
  y ← give_back x y1
  sec ← long (x.tv_sec -ℤ y.tv_sec)
  usec ← long (x.tv_usec -ℤ y.tv_usec)
  some (record {
    result = record { tv_sec = sec; tv_usec = usec };
    y = y;
    negative = ltb_ℤ x.tv_sec y.tv_sec;
  })

-- `struct timespec` as `maketimeout` fills it.
pub record Timespec : Type 0 where
  pub tsp_sec : ℤ
  pub tsp_nsec : ℤ

unfoldable pub maketimeout : Timespec → ℤ → Timespec
maketimeout tsp seconds = record { tsp_sec = seconds; tsp_nsec = pos 0 }

-- `coremu_random(min, max)`, where `random` is what random() returned; `none` is the division by
-- zero of `max == min`.
unfoldable pub coremu_random : ℕ → ℤ → ℤ → Option ℤ
coremu_random random lo hi =
    let span = hi -ℤ lo in
    let divisor = pos_part span + neg_part span in
    if divisor == 0 then none else some (int32 (pos (random % divisor) +ℤ lo))
