-- ===== src/Printf/Decimal.antt =====
-- bios/seabios/src/output.c: the decimal digits of a number, read back.
use coremu.Common.{
  ℕ, zero, suc, ◌+◌, ◌-◌, ◌*◌, ◌/◌, ◌%◌, ◌^◌, ◌≤◌, ◌<◌, ◌≡◌, ap, ◌∙◌, false, some, List, [], ◌∷◌,
  length, All, ◌==◌, if_true, if_false, Bool-cases, inl, inr, arith,
}
use coremu.Printf.{uint_loop, putuint}

-- The number that digits spell behind `n`.
abbrev pub read : ℕ → List ℕ → ℕ
read n [] = n
read n (c ∷ cs) = read (n * 10 + (c - b'0')) cs

abbrev pub IsDigit : ℕ → Type 0
IsDigit c = (b'0' ≤ c) × (c ≤ b'9')

-- The numbers of at most so many digits are below this.
abbrev power_of_ten : ℕ → ℕ
power_of_ten zero = 1
power_of_ten (suc n) = 10 * power_of_ten n

-- What the loop leaves, if there is room enough.
record Printed (room val : ℕ) (d : List ℕ) : Type 0 where
  out : List ℕ
  returned : uint_loop room val d ≡ some out
  value : read 0 out ≡ read val d
  digits : All IsDigit d → All IsDigit out
  size : length out ≤ room + length d

uint_loop-Printed :
    (room val : ℕ) (d : List ℕ) → 0 < room → val < power_of_ten room → Printed room val d
unfolding uint_loop
uint_loop-Printed zero val d pos h = absurd (omega (arith, pos))
uint_loop-Printed (suc room) val d pos h = elim (Bool-cases (val / 10 == 0)) [
  | inl b ↦ record {
    out = (val % 10 + b'0') ∷ d;
    returned = if_true (val / 10 == 0) _ _ b;
    value = ap (λ n. read n d) (ground (arith, b));
    digits = λ ds. ((omega arith, omega arith), ds);
    size = omega arith;
  }
  | inr b ↦
      let p =
        uint_loop-Printed room (val / 10) ((val % 10 + b'0') ∷ d) (more room h b)
          (omega (arith, h)) in
      record {
        out = p.out;
        returned = if_false (val / 10 == 0) _ _ b ∙ p.returned;
        value = p.value ∙ ap (λ n. read n d) (omega arith);
        digits = λ ds. p.digits ((omega arith, omega arith), ds);
        size = omega (arith, p.size);
      }
]
  where
    more : (room : ℕ) → val < 10 * power_of_ten room → (val / 10 == 0) ≡ false → 0 < room
    more zero h b = ground (arith, h, b)
    more (suc room) h b = omega arith

-- putuint prints every number of 32 bits, within its buffer, as decimal digits that read back as the
-- number.
pub putuint_reads :
    (val : ℕ)
    → val < 2 ^ 32
    → (out : List ℕ) × (putuint val ≡ some out)
      × (read 0 out ≡ val)
      × All IsDigit out
      × (length out ≤ 11)
unfolding putuint
putuint_reads val h =
    let p = uint_loop-Printed 11 val [] (omega arith) (omega (arith, h)) in
    (p.out, p.returned, p.value, p.digits tt, omega (arith, p.size))
