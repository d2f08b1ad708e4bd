-- ===== src/Tools/Filter.antt =====
-- utils/monitor.c and utils/kill.c: what comparing with the result of `strstr` tests.
use coremu.Common.{
  ℕ, suc, ◌≡◌, ◌≤◌, subst, refl, sym, ap, ◌∙◌, Bool, false, Option, none, some, List, [], ◌∷◌,
  arith, if_true, if_false, Bool-cases, inl, inr, ◌==◌,
}
use coremu.Tools.{is_prefix, strstr, Process, tail, matches}

abbrev FromOn : ℕ → Option ℕ → Type 0
FromOn i none = Unit
FromOn i (some j) = i ≤ j

FromOn-suc : (i : ℕ) (o : Option ℕ) → FromOn (suc i) o → FromOn i o
FromOn-suc i none h = tt
FromOn-suc i (some j) h = omega (arith, h)

strstr-FromOn : (i : ℕ) (s t : List ℕ) → FromOn i (strstr i s t)
unfolding strstr
strstr-FromOn i [] t = elim (Bool-cases (is_prefix t [])) [
  | inl e ↦ subst (FromOn i) (sym (if_true (is_prefix t []) (some i) none e)) (omega arith)
  | inr e ↦ subst (FromOn i) (sym (if_false (is_prefix t []) (some i) none e)) tt
]
strstr-FromOn i (c ∷ cs) t = elim (Bool-cases (is_prefix t (c ∷ cs))) [
  | inl e ↦ subst (FromOn i) (sym (if_true (is_prefix t (c ∷ cs)) (some i) _ e)) (omega arith)
  | inr e ↦
      subst (FromOn i) (sym (if_false (is_prefix t (c ∷ cs)) (some i) _ e))
        (FromOn-suc i (strstr (suc i) cs t) (strstr-FromOn (suc i) cs t))
]

abbrev at_start : Option ℕ → Bool
at_start none = false
at_start (some i) = i == 0

at_start-later : (o : Option ℕ) → FromOn 1 o → at_start o ≡ false
at_start-later none h = refl
at_start-later (some i) h = ground (arith, h)

strstr-prefix : (s t : List ℕ) → at_start (strstr 0 s t) ≡ is_prefix t s
unfolding strstr
strstr-prefix [] t = elim (Bool-cases (is_prefix t [])) [
  | inl e ↦ ap at_start (if_true (is_prefix t []) (some 0) none e) ∙ sym e
  | inr e ↦ ap at_start (if_false (is_prefix t []) (some 0) none e) ∙ sym e
]
strstr-prefix (c ∷ cs) t = elim (Bool-cases (is_prefix t (c ∷ cs))) [
  | inl e ↦ ap at_start (if_true (is_prefix t (c ∷ cs)) (some 0) _ e) ∙ sym e
  | inr e ↦
      ap at_start (if_false (is_prefix t (c ∷ cs)) (some 0) (strstr 1 cs t) e)
      ∙ (at_start-later (strstr 1 cs t) (strstr-FromOn 1 cs t) ∙ sym e)
]

-- The filter is a test for a prefix.
pub matches-prefix :
    (pfilter : List ℕ) (p : Process) → matches pfilter p ≡ is_prefix pfilter (tail p.comm)
unfolding matches
matches-prefix pfilter p =
    cases (strstr 0 (tail p.comm) pfilter) ∙ strstr-prefix (tail p.comm) pfilter
  where
    cases : (o : Option ℕ) → (elim o as (λ _. Bool) [ none ↦ false | some i ↦ i == 0 ]) ≡ at_start o
    cases none = refl
    cases (some i) = refl
