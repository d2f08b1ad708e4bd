-- ===== src/Printf/Tests.antt =====
-- bios/seabios/src/output.c: texts that are printed.
use coremu.Common.{
  ℕ, ◌-◌, ◌^◌, ◌≤◌, ◌≡◌, refl, some, List, [], ◌∷◌, ◌++◌, length, take, All, min, ◌==◌,
  if◌then◌else◌, arith,
}
use coremu.Printf.{
  uint_loop, putuint, putint, putsinglehex, hex_digits, hex_width, puthex, isdigit, field_width,
  directive, string_on_stack, bvprintf,
}
use coremu.Printf.Decimal.{read, IsDigit, putuint_reads}
use coremu.Printf.Buffer.{snprintf, written, snprintf_lem}

abbrev strings : ℕ → List ℕ
strings p = if p == 1 then b'o' ∷ b'k' ∷ [] else []

-- "%d=%5x%s%%%q"
abbrev fmt : List ℕ
fmt = b'%' ∷ b'd' ∷ b'=' ∷ b'%' ∷ b'5' ∷ b'l' ∷ b'x' ∷ b'%' ∷ b's' ∷ b'%' ∷ b'%' ∷ b'%' ∷ b'q' ∷ []

bvprintf_test :
    bvprintf strings (length fmt) fmt ((2 ^ 32 - 12) ∷ 0xbeef ∷ 1 ∷ [])
    ≡ some (
        b'-' ∷ b'1' ∷ b'2' ∷ b'=' ∷ b'0' ∷ b'b' ∷ b'e' ∷ b'e' ∷ b'f' ∷ b'o' ∷ b'k' ∷ b'%' ∷ b'%'
        ∷ b'q' ∷ [])
unfolding bvprintf directive string_on_stack field_width isdigit putint putuint uint_loop puthex
    hex_digits hex_width putsinglehex
bvprintf_test = refl

limits_test :
    (putuint 0 ≡ some (b'0' ∷ []))
    × (putuint 4294967295
        ≡ some (b'4' ∷ b'2' ∷ b'9' ∷ b'4' ∷ b'9' ∷ b'6' ∷ b'7' ∷ b'2' ∷ b'9' ∷ b'5' ∷ []))
    × (puthex 0 0 ≡ b'0' ∷ [])
    × (puthex 0x12345678 9 ≡ puthex 0x12345678 0)
unfolding putuint uint_loop puthex hex_digits hex_width putsinglehex
limits_test = (refl, refl, refl, refl)

putuint_reads_example :
    (out : List ℕ) × (putuint 90210 ≡ some out)
    × (read 0 out ≡ 90210)
    × All IsDigit out
    × (length out ≤ 11)
putuint_reads_example = putuint_reads 90210 (omega arith)

snprintf_lem_example :
    (out : List ℕ) × (n : ℕ) × (bytes' : ℕ → ℕ) × (bvprintf strings 6
        (b'a' ∷ b'%' ∷ b'd' ∷ b'%' ∷ b'x' ∷ b'z' ∷ [])
        (7 ∷ 8 ∷ [])
      ≡ some out)
    × (snprintf strings 100 3 (b'a' ∷ b'%' ∷ b'd' ∷ b'%' ∷ b'x' ∷ b'z' ∷ []) (7 ∷ 8 ∷ []) (λ x. 255)
        ≡ some (n, bytes'))
    × (n ≡ min (length out) 2)
    × ((x : ℕ) → bytes' x ≡ written 100 (take n out ++ (0 ∷ [])) (λ x. 255) x)
snprintf_lem_example =
    snprintf_lem strings 100 3 (b'a' ∷ b'%' ∷ b'd' ∷ b'%' ∷ b'x' ∷ b'z' ∷ []) (7 ∷ 8 ∷ [])
      (λ x. 255) (omega arith) (omega arith, (omega arith, tt))
