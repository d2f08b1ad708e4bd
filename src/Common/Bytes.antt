-- ===== src/Common/Bytes.antt =====
-- Facts about all bytes by evaluation.
use coremu.Common.{
  ℕ, zero, suc, ◌<◌, ◌≡◌, inl, inr, refl, sym, subst, Bool, true, false, ◌==◌, ==_iff,
  if◌then◌else◌, if_taken, if_skipped, clash, Bool-cases, arith,
}

-- Whether a test is true of every number below a bound.
abbrev pub all_below : ℕ → (ℕ → Bool) → Bool
all_below zero test = true
all_below (suc k) test = if test k then all_below k test else false

pub all_below_sound :
    (k : ℕ) (test : ℕ → Bool) (v : ℕ) → all_below k test ≡ true → v < k → test v ≡ true
all_below_sound zero test v passed below = absurd (omega (arith, below))
all_below_sound (suc k) test v passed below = elim (Bool-cases (test k)) [
  | inl b ↦ elim (Bool-cases (v == k)) [
    | inl same ↦ subst (λ u. test u ≡ true) (sym ((==_iff v k).0 same)) b
    | inr other ↦
        all_below_sound k test v (if_taken (test k) _ _ b passed) (ground (arith, below, other))
  ]
  | inr b ↦ clash false (if_skipped (test k) _ _ b passed) refl
]

-- An equation between two functions of a byte.
pub byte_eq : (f g : ℕ → ℕ) (x : ℕ) → all_below 256 (λ y. f y == g y) ≡ true → x < 256 → f x ≡ g x
byte_eq f g x h lt = (==_iff (f x) (g x)).0 (all_below_sound 256 (λ y. f y == g y) x h lt)
