-- ===== src/Printf/Total.antt =====
-- bios/seabios/src/output.c: every format is printed to its end.
use coremu.Common.{
  ℕ, zero, suc, ◌+◌, ◌-◌, ◌*◌, ◌%◌, ◌^◌, ◌≤◌, ◌<◌, ◌≡◌, refl, ap, ap₂, Option, none, some, List, [],
  ◌∷◌, ◌++◌, length, All, leb, ◌==◌, if_both, arith,
}
use coremu.Printf.{
  putuint, putint, with_sign, field_width, skip_l, va_arg, directive, string_on_stack, directive_at,
  print_before, bvprintf,
}
use coremu.Printf.Decimal.{putuint_reads}

-- A word of 32 bits.
abbrev pub IsWord : ℕ → Type 0
IsWord a = a < 2 ^ 32

va_arg-IsWord :
    (args : List ℕ) → All IsWord args → IsWord (va_arg args).0 × All IsWord (va_arg args).1
va_arg-IsWord [] h = (omega arith, tt)
va_arg-IsWord (a ∷ args) (h, hs) = (h, hs)

field_width-shorter : (w : ℕ) (s : List ℕ) → length (field_width w s).1 ≤ length s
unfolding field_width
field_width-shorter w [] = omega arith
field_width-shorter w (c ∷ s) =
    ground (arith, field_width-shorter ((w * 10 + (c - b'0')) % 2 ^ 32) s)

skip_l-shorter : (s : List ℕ) → length (skip_l s) ≤ length s
skip_l-shorter [] = omega arith
skip_l-shorter (c ∷ s) = ground arith

putuint-some : (val : ℕ) → IsWord val → (out : List ℕ) × (putuint val ≡ some out)
putuint-some val h = let (out, e, _, _, _) = putuint_reads val h in (out, e)

Returns : Option (List ℕ) → Type 0
Returns o = (out : List ℕ) × (o ≡ some out)

putint-some : (val : ℕ) → IsWord val → Returns (putint val)
unfolding putint Returns
putint-some val h =
    let (out, e) = putuint-some ((2 ^ 32 - val) % 2 ^ 32) (omega arith) in
    if_both Returns (leb (2 ^ 31) val) _ _ (b'-' ∷ out, ap with_sign e) (putuint-some val h)

module _ (strings : ℕ → List ℕ) where
  -- A directive that prints, and leaves less of the format.
  Prints : ℕ → Option (Option (List ℕ) × List ℕ × List ℕ) → Type 0
  Prints n none = Unit
  Prints n (some (out, rest, args)) = Returns out × (length rest ≤ n) × All IsWord args

  directive-Prints :
      (w : ℕ) (s args : List ℕ) → All IsWord args → Prints (length s) (directive strings w s args)
  unfolding directive string_on_stack Prints Returns
  directive-Prints w [] args h = tt
  directive-Prints w (c ∷ n) args h =
      let (hv, ha) = va_arg-IsWord args h in
      let val = (va_arg args).0 in
      let less : length n ≤ suc (length n) = omega arith in
      let P = Prints (suc (length n)) in
      if_both P (c == b'%') _ _ ((_, refl), less, h)
        (if_both P (c == b'd') _ _ (putint-some val hv, less, ha)
          (if_both P (c == b'u') _ _ (putuint-some val hv, less, ha)
            (if_both P (c == b'p') _ _ ((_, refl), less, ha)
              (if_both P (c == b'x') _ _ ((_, refl), less, ha)
                (if_both P (c == b'c') _ _ ((_, refl), less, ha)
                  (if_both P (c == b'.') _ _ (on_stack n (strings val) args (va_arg args).1 h ha)
                    (if_both P (c == b's') _ _ ((_, refl), less, ha) tt)))))))
    where
      on_stack :
          (n sarg args args' : List ℕ)
          → All IsWord args
          → All IsWord args'
          → Prints (suc (length n)) (string_on_stack n sarg args args')
      on_stack [] sarg args args' h h' = ((_, refl), omega arith, h)
      on_stack (c ∷ n) sarg args args' h h' =
          if_both (Prints (suc (suc (length n)))) (c == b's') _ _ ((_, refl), omega arith, h')
            ((_, refl), omega arith, h)

  Prints-weaken :
      (m n : ℕ) (r : Option (Option (List ℕ) × List ℕ × List ℕ)) → m ≤ n → Prints m r → Prints n r
  unfolding Prints
  Prints-weaken m n none le p = tt
  Prints-weaken m n (some (out, rest, args)) le (o, short, h) = (o, omega (arith, short, le), h)

  directive_at-Prints :
      (s args : List ℕ) → All IsWord args → Prints (length s) (directive_at strings s args)
  directive_at-Prints s args h =
      Prints-weaken (length (skip_l (field_width 0 s).1)) (length s) _
        (omega (arith, skip_l-shorter (field_width 0 s).1, field_width-shorter 0 s))
        (directive-Prints (field_width 0 s).0 (skip_l (field_width 0 s).1) args h)

  before : (o p : Option (List ℕ)) → Returns o → Returns p → Returns (print_before o p)
  unfolding Returns
  before o p (out, e) (rest, f) = (out ++ rest, ap₂ print_before e f)

  -- With arguments of 32 bits, every format is printed to its end, whatever directives it has: as much
  -- fuel as it has characters is enough, and no number overruns the buffer of putuint.
  pub bvprintf_returns :
      (fuel : ℕ) (fmt args : List ℕ)
      → length fmt ≤ fuel
      → All IsWord args
      → (out : List ℕ) × (bvprintf strings fuel fmt args ≡ some out)
  unfolding bvprintf Returns Prints
  bvprintf_returns fuel [] args l h = ([], refl)
  bvprintf_returns zero (c ∷ s) args l h = absurd (omega (arith, l))
  bvprintf_returns (suc fuel) (c ∷ s) args l h =
      let again : Returns (bvprintf strings fuel s args) =
        bvprintf_returns fuel s args (omega (arith, l)) h in
      if_both Returns (c == b'%') _ _
        (by_directive (directive_at strings s args) again (λ n a m k. bvprintf_returns fuel n a m k)
          (directive_at-Prints s args h))
        (before (some (c ∷ [])) _ (_, refl) again)
    where
      by_directive :
          (r : Option (Option (List ℕ) × List ℕ × List ℕ))
          → Returns (bvprintf strings fuel s args)
          → ((n a : List ℕ) → length n ≤ fuel → All IsWord a → Returns (bvprintf strings fuel n a))
          → Prints (length s) r
          → Returns (elim r [
            | none ↦ print_before (some (b'%' ∷ [])) (bvprintf strings fuel s args)
            | some (out, n, args') ↦ print_before out (bvprintf strings fuel n args')
          ])
      by_directive none again rec p = before (some (b'%' ∷ [])) _ (_, refl) again
      by_directive (some (out, n, args')) again rec (o, short, k) =
          before out _ o (rec n args' (omega (arith, short, l)) k)
