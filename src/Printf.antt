-- ===== src/Printf.antt =====
-- bios/seabios/src/output.c: what the printing functions print, as lists of characters in ASCII.
pub mod Decimal
pub mod Hex
pub mod Total
pub mod Buffer
mod Tests
use coremu.Common.{
  ℕ, zero, suc, ◌+◌, ◌-◌, ◌*◌, ◌/◌, ◌%◌, ◌^◌, Bool, true, false, not, ◌&&◌, ◌||◌, Option, none,
  some, List, [], ◌∷◌, ◌++◌, ltb, leb, ◌==◌, if◌then◌else◌,
}

-- The loop of `putuint`, on the places that are left in `buf` and the characters behind `d`. Nothing
-- when it would write before the start of `buf`.
unfoldable pub uint_loop : ℕ → ℕ → List ℕ → Option (List ℕ)
uint_loop zero val d = none
uint_loop (suc room) val d =
    let d' = (val % 10 + b'0') ∷ d in
    let rest = uint_loop room (val / 10) d' in if val / 10 == 0 then some d' else rest

-- `buf` has room for eleven characters and the NUL.
unfoldable pub putuint : ℕ → Option (List ℕ)
unfolding uint_loop
putuint val = uint_loop 11 val []

unfoldable pub putsinglehex : ℕ → ℕ
putsinglehex val = if leb val 9 then b'0' + val else b'a' + (val - 10)

-- The switch of `puthex`: the last `n` digits.
unfoldable pub hex_digits : ℕ → ℕ → List ℕ
unfolding putsinglehex
hex_digits zero val = []
hex_digits (suc n) val = putsinglehex (val / 16 ^ n % 16) ∷ hex_digits n val

-- The width that is enough for a value.
unfoldable pub hex_width : ℕ → ℕ
hex_width val =
    let w1 = if ltb 0xffff val then 5 else 1 in
    let t1 = if ltb 0xffff val then val / 2 ^ 16 else val in
    let w2 = if ltb 0xff t1 then w1 + 2 else w1 in
    let t2 = if ltb 0xff t1 then t1 / 2 ^ 8 else t1 in if ltb 0xf t2 then w2 + 1 else w2

-- A width above 7 is the default case of the switch: eight digits.
unfoldable pub puthex : ℕ → ℕ → List ℕ
unfolding hex_digits hex_width
puthex val width =
    let w = if width == 0 then hex_width val else width in hex_digits (if ltb 7 w then 8 else w) val

unfoldable pub isdigit : ℕ → Bool
isdigit c = ltb ((c + (256 - b'0')) % 256) 10

-- The field width, an `int`, and the characters behind it.
unfoldable pub field_width : ℕ → List ℕ → ℕ × List ℕ
unfolding isdigit
field_width width [] = (width, [])
field_width width (c ∷ n) =
    let rest = field_width ((width * 10 + (c - b'0')) % 2 ^ 32) n in
    if isdigit c then rest else (width, c ∷ n)

-- The long format indicator is skipped.
abbrev pub skip_l : List ℕ → List ℕ
skip_l [] = []
skip_l (c ∷ n) = if c == b'l' then n else c ∷ n

-- `va_arg`; every argument is a word of 32 bits.
abbrev pub va_arg : List ℕ → ℕ × List ℕ
va_arg [] = (0, [])
va_arg (a ∷ args) = (a, args)

abbrev pub with_sign : Option (List ℕ) → Option (List ℕ)
with_sign none = none
with_sign (some out) = some (b'-' ∷ out)

-- `%d`: the sign and the number.
unfoldable pub putint : ℕ → Option (List ℕ)
putint val =
    let negative = putuint ((2 ^ 32 - val) % 2 ^ 32) in
    let positive = putuint val in if leb (2 ^ 31) val then with_sign negative else positive

-- `%.s`, behind the dot.
unfoldable pub string_on_stack :
    List ℕ → List ℕ → List ℕ → List ℕ → Option (Option (List ℕ) × List ℕ × List ℕ)
string_on_stack [] sarg args args' = some (some [], [], args)
string_on_stack (c ∷ n) sarg args args' =
    if c == b's' then some (some sarg, n, args') else some (some [], c ∷ n, args)

abbrev pub print_before : Option (List ℕ) → Option (List ℕ) → Option (List ℕ)
print_before (some out) (some rest) = some (out ++ rest)
print_before _ _ = none

-- `strings` are the strings in memory, by their addresses.
module _ (strings : ℕ → List ℕ) where
  -- A directive: what it prints, the format behind it and the arguments that are left. Nothing for one
  -- that is not known.
  unfoldable pub directive : ℕ → List ℕ → List ℕ → Option (Option (List ℕ) × List ℕ × List ℕ)
  directive width [] args = none
  directive width (c ∷ n) args =
      let (val, args') = va_arg args in
      if c == b'%'
      then some (some (b'%' ∷ []), n, args)
      else if c == b'd'
      then some (putint val, n, args')
      else if c == b'u'
      then some (putuint val, n, args')
      else if c == b'p'
      then some (some (b'0' ∷ b'x' ∷ puthex val 8), n, args')
      else if c == b'x'
      then some (some (puthex val width), n, args')
      else if c == b'c'
      then some (some ((val % 256) ∷ []), n, args')
      else if c == b'.'
      then string_on_stack n (strings val) args args'
      else if c == b's'
      then some (some (strings val), n, args')
      else none

  -- The text behind a `%`.
  abbrev pub directive_at : List ℕ → List ℕ → Option (Option (List ℕ) × List ℕ × List ℕ)
  directive_at s args = let (width, n) = field_width 0 s in directive width (skip_l n) args

  -- The loop over the format, on fuel. After a directive that is not known, the `%` is printed and the
  -- text behind it is read again.
  unfoldable pub bvprintf : ℕ → List ℕ → List ℕ → Option (List ℕ)
  bvprintf fuel [] args = some []
  bvprintf zero (c ∷ s) args = none
  bvprintf (suc fuel) (c ∷ s) args =
      let rest = bvprintf fuel s args in
      if c == b'%'
      then elim (directive_at s args) [
        | none ↦ print_before (some (b'%' ∷ [])) rest
        | some (out, n, args') ↦ print_before out (bvprintf fuel n args')
      ]
      else print_before (some (c ∷ [])) rest
