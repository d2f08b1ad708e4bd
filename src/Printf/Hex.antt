-- ===== src/Printf/Hex.antt =====
-- bios/seabios/src/output.c: the hexadecimal digits of a number, read back.
use coremu.Common.{
  ℕ, zero, suc, ◌+◌, ◌-◌, ◌*◌, ◌/◌, ◌%◌, ◌^◌, ◌≤◌, ◌<◌, ◌≡◌, refl, sym, ap, ◌∙◌, List, [], ◌∷◌,
  length, ltb, leb, ◌==◌, if◌then◌else◌, if_true, if_false, Bool-cases, inl, inr, arith,
}
use native.Mathlib.Nat.{
  div-add-mod, div-div-eq-div-mul, mul-add, add-mul, mul_assoc, mul_comm, pow-suc, one-le-pow,
}
use coremu.Printf.{putsinglehex, hex_digits, hex_width, puthex}

-- The value of a hexadecimal digit, and the number that digits spell behind `n`.
abbrev pub digit_value : ℕ → ℕ
digit_value c = if leb c b'9' then c - b'0' else c - b'a' + 10

abbrev pub read_hex : ℕ → List ℕ → ℕ
read_hex n [] = n
read_hex n (c ∷ cs) = read_hex (n * 16 + digit_value c) cs

value_back : (d : ℕ) → d < 16 → digit_value (putsinglehex d) ≡ d
unfolding putsinglehex
value_back d h = ground (arith, h)

-- A remainder by one digit more.
one_more : (val p : ℕ) → 0 < p → val % (p * 16) ≡ (val / p % 16) * p + val % p
one_more val p h = omega (
  arith,
  div-add-mod val p,
  div-add-mod val (p * 16),
  ap (λ q. p * 16 * q) (div-div-eq-div-mul val p 16),
  ap (λ q. p * q) (sym (div-add-mod (val / p) 16)) ∙ mul-add p (16 * (val / p / 16)) (val / p % 16),
  mul_assoc p 16 (val / p / 16),
  mul_comm p (val / p % 16),
)

hex_width-fits :
    (val : ℕ)
    → val < 2 ^ 32
    → (val % 16 ^ hex_width val ≡ val) × (0 < hex_width val) × (hex_width val ≤ 8)
unfolding hex_width
hex_width-fits val h = ground (arith, h)

hex_digits-read : (n acc val : ℕ) → read_hex acc (hex_digits n val) ≡ acc * 16 ^ n + val % 16 ^ n
unfolding hex_digits
hex_digits-read zero acc val = omega arith
hex_digits-read (suc n) acc val =
    ap (λ d. read_hex (acc * 16 + d) (hex_digits n val))
      (value_back (val / 16 ^ n % 16) (omega arith))
    ∙ (hex_digits-read n (acc * 16 + val / 16 ^ n % 16) val
        ∙ omega (
          arith,
          one_more val (16 ^ n) (one-le-pow n 16 (omega arith)),
          ap (λ p. val % p) (pow-suc 16 n),
          ap (λ p. acc * p) (pow-suc 16 n),
          add-mul (acc * 16) (val / 16 ^ n % 16) (16 ^ n),
          mul_assoc acc 16 (16 ^ n),
          mul_comm 16 (16 ^ n),
        ))

length-hex_digits : (n val : ℕ) → length (hex_digits n val) ≡ n
unfolding hex_digits
length-hex_digits zero val = refl
length-hex_digits (suc n) val = ap suc (length-hex_digits n val)

printed :
    (val w : ℕ)
    → w ≤ 8
    → (read_hex 0 (hex_digits (if ltb 7 w then 8 else w) val) ≡ val % 16 ^ w)
      × (length (hex_digits (if ltb 7 w then 8 else w) val) ≡ w)
printed val w h =
    let same : (if ltb 7 w then 8 else w) ≡ w = ground (arith, h) in
    (
      ap (λ n. read_hex 0 (hex_digits n val)) same ∙ hex_digits-read w 0 val ∙ zero_plus,
      ap (λ n. length (hex_digits n val)) same ∙ length-hex_digits w val,
    )
  where
    zero_plus : 0 * 16 ^ w + val % 16 ^ w ≡ val % 16 ^ w
    zero_plus = omega arith

-- puthex prints a number of 32 bits as hexadecimal digits: without a width as many as it needs, which
-- read back as the number; with a width up to 8 that many, which read back as the number modulo 16 to
-- the power of the width.
puthex_reads :
    (val width : ℕ)
    → val < 2 ^ 32
    → width ≤ 8
    → (read_hex 0 (puthex val width) ≡ (if width == 0 then val else val % 16 ^ width))
      × (length (puthex val width) ≡ (if width == 0 then hex_width val else width))
unfolding puthex
puthex_reads val width h w = elim (Bool-cases (width == 0)) [
  | inl b ↦
      let (same, pos, few) = hex_width-fits val h in
      let (value, size) = printed val (hex_width val) few in
      let e = if_true (width == 0) (hex_width val) width b in
      (
        ap (λ u. read_hex 0 (hex_digits (if ltb 7 u then 8 else u) val)) e
            ∙ value
            ∙ same
            ∙ sym (if_true (width == 0) val (val % 16 ^ width) b),
        ap (λ u. length (hex_digits (if ltb 7 u then 8 else u) val)) e
            ∙ size
            ∙ sym (if_true (width == 0) (hex_width val) width b),
      )
  | inr b ↦
      let (value, size) = printed val width w in
      let e = if_false (width == 0) (hex_width val) width b in
      (
        ap (λ u. read_hex 0 (hex_digits (if ltb 7 u then 8 else u) val)) e
            ∙ value
            ∙ sym (if_false (width == 0) val (val % 16 ^ width) b),
        ap (λ u. length (hex_digits (if ltb 7 u then 8 else u) val)) e
            ∙ size
            ∙ sym (if_false (width == 0) (hex_width val) width b),
      )
]
