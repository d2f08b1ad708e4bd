-- ===== src/Atomic/Sums.antt =====
-- incl/atomic-template.h: the operations of many threads on one word, in whatever order they happen.
use coremu.Common.{
  ℕ, zero, suc, ◌+◌, ◌-◌, ◌%◌, ◌^◌, ◌<◌, ◌≡◌, refl, sym, ap, ◌∙◌, List, [], ◌∷◌, arith,
}
use native.Mathlib.Nat.{mod-add-mod, add-mod_right, one-le-pow, mod-eq_of_lt}
use coremu.Atomic.{atomic_inc, atomic_dec, atomic_add, atomic_xadd}

-- One operation of some thread.
pub data Update : Type 0 where
  inc dec : Update
  add : (val : ℕ) → Update

abbrev apply : ℕ → Update → ℕ → ℕ
apply w inc p = atomic_inc w p
apply w dec p = atomic_dec w p
apply w (add val) p = atomic_add w p val

abbrev pub apply_all : ℕ → List Update → ℕ → ℕ
apply_all w [] p = p
apply_all w (u ∷ us) p = apply_all w us (apply w u p)

-- How often a word goes up and down in all.
abbrev pub ups : List Update → ℕ
ups [] = 0
ups (inc ∷ us) = 1 + ups us
ups (dec ∷ us) = ups us
ups (add val ∷ us) = val + ups us

abbrev pub downs : List Update → ℕ
downs [] = 0
downs (inc ∷ us) = downs us
downs (dec ∷ us) = 1 + downs us
downs (add val ∷ us) = downs us

pow_pos : (w : ℕ) → 0 < 2 ^ w
pow_pos w = omega (arith, one-le-pow w 2 (omega arith))

mod_step : (m p q r s : ℕ) → q ≡ (p + r) % m → (q + s) % m ≡ (p + (r + s)) % m
mod_step m p q r s e =
    ap (λ x. (x + s) % m) e ∙ (mod-add-mod (p + r) m s ∙ ap (λ x. x % m) (assoc p r s))
  where
    assoc : (a b c : ℕ) → (a + b) + c ≡ a + (b + c)
    assoc a b c = omega arith

-- One below, made up for by one above.
dec_step :
    (m p a d u : ℕ)
    → 0 < m
    → (a + d) % m ≡ ((p + m - 1) % m + u) % m
    → (a + (1 + d)) % m ≡ (p + u) % m
dec_step m p a d u pos e =
    ap (λ x. x % m) (outside a d)
    ∙ (sym (mod-add-mod (a + d) m 1)
        ∙ (ap (λ x. (x + 1) % m) e
            ∙ (mod-add-mod ((p + m - 1) % m + u) m 1
                ∙ (ap (λ x. x % m) (inside_of ((p + m - 1) % m))
                    ∙ (mod-add-mod (p + m - 1) m (u + 1)
                        ∙ (ap (λ x. x % m) (around p m u pos) ∙ add-mod_right (p + u) m))))))
  where
    outside : (x y : ℕ) → x + (1 + y) ≡ (x + y) + 1
    outside x y = omega arith

    inside_of : (x : ℕ) → (x + u) + 1 ≡ x + (u + 1)
    inside_of x = omega arith

    around : (x y z : ℕ) → 0 < y → (x + y - 1) + (z + 1) ≡ (x + z) + y
    around x y z l = omega (arith, l)

-- Whatever their order, increments, decrements and additions by many threads leave the sum of all of
-- them modulo 2^w: none is lost.
pub apply_all-sum :
    (w : ℕ) (us : List Update) (p : ℕ)
    → (apply_all w us p + downs us) % 2 ^ w ≡ (p + ups us) % 2 ^ w
unfolding atomic_inc atomic_dec atomic_add
apply_all-sum w [] p = refl
apply_all-sum w (inc ∷ us) p =
    apply_all-sum w us ((p + 1) % 2 ^ w) ∙ mod_step (2 ^ w) p _ 1 (ups us) refl
apply_all-sum w (dec ∷ us) p =
    dec_step (2 ^ w) p (apply_all w us ((p + 2 ^ w - 1) % 2 ^ w)) (downs us) (ups us) (pow_pos w)
      (apply_all-sum w us ((p + 2 ^ w - 1) % 2 ^ w))
apply_all-sum w (add val ∷ us) p =
    apply_all-sum w us ((p + val) % 2 ^ w) ∙ mod_step (2 ^ w) p _ val (ups us) refl

-- `atomic_xadd` by 1 hands out numbers to threads, and every thread that takes one gets the number
-- after the last.
abbrev pub tickets : ℕ → ℕ → ℕ → List ℕ
tickets w zero p = []
tickets w (suc n) p = (atomic_xadd w p 1).0 ∷ tickets w n (atomic_xadd w p 1).1

abbrev pub count_up : ℕ → ℕ → List ℕ
count_up zero p = []
count_up (suc n) p = p ∷ count_up n (suc p)

-- As long as the word does not overflow, `n` calls of `atomic_xadd` by 1 return `n` consecutive
-- numbers, so no two of them the same.
pub tickets-count : (w n p : ℕ) → p + n < 2 ^ w → tickets w n p ≡ count_up n p
unfolding atomic_xadd
tickets-count w zero p l = refl
tickets-count w (suc n) p l =
    ap (λ ts. p ∷ ts)
      (ap (tickets w n) (small (2 ^ w) p n l) ∙ tickets-count w n (suc p) (omega (arith, l)))
  where
    small : (m p n : ℕ) → p + suc n < m → (p + 1) % m ≡ suc p
    small m p n l = mod-eq_of_lt {n = p + 1} {m = m} (omega (arith, l)) ∙ omega arith
