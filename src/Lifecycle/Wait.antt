-- ===== src/Lifecycle/Wait.antt =====
-- main/core.c: `coremu_wait_init` waits until the cores have been started.
use coremu.Common.{
  ℕ, zero, suc, ◌+◌, ◌<◌, ◌≡◌, Bool, true, false, some, List, ◌∷◌, arith, ◌∙◌, subst, if_true,
  if_false,
}
use coremu.Types.{Effect, nanosleep}
use coremu.Lifecycle.{coremu_wait_init}

-- `m` sleeps of a millisecond.
abbrev pub naps : ℕ → List Effect → List Effect
naps zero done = done
naps (suc m) done = naps m (nanosleep 1000000 ∷ done)

plus_zero : (k : ℕ) → k + 0 ≡ k
plus_zero k = omega arith

plus_suc : (k j : ℕ) → k + suc j ≡ suc k + j
plus_suc k j = omega arith

-- If the loop reads `init_done` as false `m` times and then as true, `coremu_wait_init` returns after
-- exactly `m` sleeps of a millisecond.
pub wait_init-returns :
    (m k : ℕ) (seen : ℕ → Bool) (done : List Effect)
    → ((j : ℕ) → j < m → seen (k + j) ≡ false)
    → seen (k + m) ≡ true
    → coremu_wait_init (suc m) k seen done ≡ some (naps m done)
unfolding coremu_wait_init
wait_init-returns zero k seen done before now =
    if_true (seen k) _ _ (subst (λ j. seen j ≡ true) (plus_zero k) now)
wait_init-returns (suc m) k seen done before now =
    if_false (seen k) _ _ (subst (λ j. seen j ≡ false) (plus_zero k) (before 0 (omega arith)))
    ∙ wait_init-returns m (suc k) seen (nanosleep 1000000 ∷ done)
        (λ j lt. subst (λ i. seen i ≡ false) (plus_suc k j) (before (suc j) (omega (arith, lt))))
        (subst (λ i. seen i ≡ true) (plus_suc k m) now)
