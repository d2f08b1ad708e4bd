-- ===== src/Utils/Subtract.antt =====
-- main/utils.c: what `timeval_subtract` and `coremu_random` compute.
use coremu.Common.{
  ℕ, ◌+◌, ◌-◌, ◌*◌, ◌<◌, ◌≡◌, ◌↔◌, true, false, some, refl, ap, arith, ltb, ltb→lt, lt→ltb, ltb→le,
  Bool-cases, inl, inr, ◌/◌, ◌^◌, ◌&&◌, if◌then◌else◌, if_true,
}
use coremu.Common.Int.{
  ℤ, pos, negsuc, ◌<ℤ◌, ◌≤ℤ◌, ◌+ℤ◌, ◌-ℤ◌, ◌*ℤ◌, pos_part, neg_part, int_laws, ltb_ℤ, leb_ℤ, quot_ℤ,
  int32,
}
use coremu.Utils.{Timeval, long, million, borrow, give_back, Subtracted, timeval_subtract}

-- A time whose microseconds lie in one second.
abbrev pub IsNormal : Timeval → Type 0
IsNormal t = (pos 0 ≤ℤ t.tv_usec) × (t.tv_usec <ℤ pos million)

abbrev pub time : ℤ → ℤ → Timeval
time s u = record { tv_sec = s; tv_usec = u }

div_small : (d : ℕ) → d < million → d / million ≡ 0
div_small d p = omega arith

test_pos : (a b : ℕ) → ltb_ℤ (pos a) (pos b) ≡ ltb a b
test_pos a b = ground arith

-- One second is borrowed, if any.
borrowed : (a b : ℕ) → a < b → b < million → pos b -ℤ pos a ≡ pos (b - a)
unfolding ◌-ℤ◌
borrowed a b p q = ground arith

one_second : (d : ℕ) → d < million → int32 (quot_ℤ (pos d) million +ℤ pos 1) ≡ pos 1
unfolding ◌+ℤ◌
one_second d p = rw (div_small d p) refl

million_parts :
    (a : ℤ)
    → pos_part (pos million *ℤ a) + million * neg_part a
      ≡ neg_part (pos million *ℤ a) + million * pos_part a
unfolding ◌*ℤ◌
million_parts a = ground arith

ruleset time_laws = (int_laws, million_parts)

million_times_one : pos million *ℤ pos 1 ≡ pos million
unfolding ◌*ℤ◌
million_times_one = refl

-- What the carries make of a normal `y`.
abbrev carried : ℤ → ℕ → ℕ → Timeval
carried ys a b = if ltb a b then time (ys +ℤ pos 1) (pos b -ℤ pos million) else time ys (pos b)

-- The values of a `long`.
abbrev pub IsLong : ℤ → Type 0
IsLong a = (negsuc (2 ^ 63 - 1) ≤ℤ a) × (a ≤ℤ pos (2 ^ 63 - 1))

long-some : (a : ℤ) → IsLong a → long a ≡ some a
long-some a h =
    if_true (leb_ℤ (negsuc (2 ^ 63 - 1)) a && leb_ℤ a (pos (2 ^ 63 - 1))) _ _ (ground (arith, h))

-- The seconds are so few that no difference of two times overflows.
abbrev pub IsModerate : Timeval → Type 0
IsModerate t = (negsuc (2 ^ 62 - 2) ≤ℤ t.tv_sec) × (t.tv_sec ≤ℤ pos (2 ^ 62 - 1))

borrow-carried :
    (xs ys : ℤ) (a b : ℕ)
    → IsModerate (time ys (pos b))
    → b < million
    → borrow (time xs (pos a)) (time ys (pos b)) ≡ some (carried ys a b)
unfolding borrow
borrow-carried xs ys a b m q = elim (Bool-cases (ltb a b)) [
  | inl t ↦
      rw
        (
          test_pos a b,
          t,
          borrowed a b (ltb→lt a b t) q,
          long-some (pos (b - a)) (omega (arith, q)),
          one_second (b - a) (omega arith),
          million_times_one,
          long-some (pos b -ℤ pos million) (omega (int_laws, q)),
          long-some (ys +ℤ pos 1) (omega (int_laws, m)),
        )
        refl
  | inr f ↦ rw (test_pos a b, f)
]

carried_usec : (s t : ℤ) (a b : ℕ) → (carried s a b).tv_usec ≡ (carried t a b).tv_usec
carried_usec s t a b = ground arith

within_a_second :
    (ys : ℤ) (a b : ℕ)
    → a < million
    → b < million
    → IsLong (pos a -ℤ (carried ys a b).tv_usec)
      × (ltb_ℤ (pos million) (pos a -ℤ (carried ys a b).tv_usec) ≡ false)
unfolding ◌-ℤ◌
within_a_second ys a b p q = (ground (arith, p, q), ground (arith, p))

give_back-carried :
    (xs ys : ℤ) (a b : ℕ)
    → a < million
    → b < million
    → give_back (time xs (pos a)) (carried ys a b) ≡ some (carried ys a b)
unfolding give_back
give_back-carried xs ys a b p q =
    let h = within_a_second ys a b p q in
    rw (long-some (pos a -ℤ (carried ys a b).tv_usec) h.0, h.1)

-- The microseconds that a time stands for.
abbrev pub micros : Timeval → ℤ
micros t = pos million *ℤ t.tv_sec +ℤ t.tv_usec

-- What a caller may rely on.
pub record IsDifference (x y : Timeval) (r : Subtracted) : Type 0 where
  pub normal : IsNormal r.result
  pub exact : micros r.result ≡ micros x -ℤ micros y
  pub kept : micros r.y ≡ micros y
  pub sign : (r.negative ≡ true) ↔ (micros x <ℤ micros y)

-- It holds once the carries have brought the microseconds within a second of one another.
IsDifference-of :
    (x y y' : Timeval)
    → micros y' ≡ micros y
    → y'.tv_usec ≤ℤ x.tv_usec
    → x.tv_usec <ℤ y'.tv_usec +ℤ pos million
    → IsDifference x y (record {
      result = record { tv_sec = x.tv_sec -ℤ y'.tv_sec; tv_usec = x.tv_usec -ℤ y'.tv_usec };
      y = y';
      negative = ltb_ℤ x.tv_sec y'.tv_sec;
    })
IsDifference-of x y y' e lo hi = record {
  normal = omega time_laws;
  exact = omega (time_laws, ap pos_part e, ap neg_part e);
  kept = e;
  sign = (
    λ t. omega (time_laws, ap pos_part e, ap neg_part e, ltb→lt _ _ t),
    λ l. lt→ltb _ _ (omega (time_laws, ap pos_part e, ap neg_part e)),
  );
}

micros-carried : (ys : ℤ) (a b : ℕ) → micros (carried ys a b) ≡ micros (time ys (pos b))
micros-carried ys a b = elim (Bool-cases (ltb a b)) [
  | inl t ↦ rw t (omega time_laws)
  | inr f ↦ rw f
]

carried_close :
    (ys : ℤ) (a b : ℕ)
    → a < million
    → b < million
    → ((carried ys a b).tv_usec ≤ℤ pos a) × (pos a <ℤ (carried ys a b).tv_usec +ℤ pos million)
carried_close ys a b p q = elim (Bool-cases (ltb a b)) [
  | inl t ↦ rw t (omega (time_laws, ltb→lt a b t))
  | inr f ↦ rw f (omega (time_laws, ltb→le a b f))
]

carried_sec :
    (xs ys : ℤ) (a b : ℕ)
    → IsModerate (time xs (pos a))
    → IsModerate (time ys (pos b))
    → IsLong (xs -ℤ (carried ys a b).tv_sec)
carried_sec xs ys a b m n = elim (Bool-cases (ltb a b)) [
  | inl t ↦ rw t (omega (int_laws, m, n))
  | inr f ↦ rw f (omega (int_laws, m, n))
]

-- The subtraction returns, without an overflow, what `IsDifference` says.
abbrev pub Subtracts : Timeval → Timeval → Type 0
Subtracts x y = (r : Subtracted) × (timeval_subtract x y ≡ some r) × IsDifference x y r

subtract_pos :
    (xs ys : ℤ) (a b : ℕ)
    → IsModerate (time xs (pos a))
    → IsModerate (time ys (pos b))
    → a < million
    → b < million
    → Subtracts (time xs (pos a)) (time ys (pos b))
unfolding timeval_subtract
subtract_pos xs ys a b m n p q = (
  _,
  rw
      (
        borrow-carried xs ys a b n q,
        give_back-carried xs ys a b p q,
        long-some (xs -ℤ (carried ys a b).tv_sec) (carried_sec xs ys a b m n),
        long-some (pos a -ℤ (carried ys a b).tv_usec) (within_a_second ys a b p q).0,
      )
      refl,
  IsDifference-of (time xs (pos a)) (time ys (pos b)) (carried ys a b) (micros-carried ys a b)
      (carried_close ys a b p q).0 (carried_close ys a b p q).1,
)

subtract_normal :
    (xs xu ys yu : ℤ)
    → IsModerate (time xs xu)
    → IsModerate (time ys yu)
    → IsNormal (time xs xu)
    → IsNormal (time ys yu)
    → Subtracts (time xs xu) (time ys yu)
subtract_normal xs (pos a) ys (pos b) m n p q =
    subtract_pos xs ys a b m n (omega (arith, p)) (omega (arith, q))
subtract_normal xs (pos a) ys (negsuc b) m n p q = absurd (omega (arith, q))
subtract_normal xs (negsuc a) ys yu m n p q = absurd (omega (arith, p))

-- For two times of fewer than 2^62 seconds, before or after the epoch, with microseconds below a million:
-- `timeval_subtract` overflows nowhere, returns their exact difference with microseconds below a million,
-- leaves in `y` the same time as before, and returns 1 exactly when the difference is negative.
pub timeval_subtract-IsDifference :
    (x y : Timeval)
    → IsModerate x
    → IsModerate y
    → IsNormal x
    → IsNormal y
    → (r : Subtracted) × (timeval_subtract x y ≡ some r) × IsDifference x y r
timeval_subtract-IsDifference x y = subtract_normal x.tv_sec x.tv_usec y.tv_sec y.tv_usec

-- How far `hi` is from `lo`.
abbrev distance : ℤ → ℤ → ℕ
distance lo hi = pos_part (hi -ℤ lo) + neg_part (hi -ℤ lo)
