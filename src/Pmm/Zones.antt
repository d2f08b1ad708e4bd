-- ===== src/Pmm/Zones.antt =====
-- bios/seabios/src/pmm.c: what zone_malloc returns, and that zone_free takes it back.
use coremu.Common.{
  ℕ, ◌+◌, ◌-◌, ◌*◌, ◌/◌, ◌%◌, ◌^◌, ◌≤◌, ◌<◌, ◌≡◌, ◌⊎◌, Bool, true, false, ◌||◌, ltb, ltb→lt, ltb→le,
  if_true, if_false, Bool-cases, inl, inr, arith,
}
use native.Mathlib.Nat.{
  div-add-mod', mul-mod_left, mod-lt, mod-le, mul-le-mul_right, le-div_iff_mul-le,
}
use coremu.Pmm.{Zone, sub32, align_down, newpos, zone_malloc}

-- The blocks of a zone lie between `cur` and `top`, the free space between `bottom` and `cur`.
pub record IsZone (z : Zone) : Type 0 where
  pub low : z.bottom ≤ z.cur
  pub high : z.cur ≤ z.top
  pub word : z.top < 2 ^ 32

aligned_lem : (x a : ℕ) → align_down x a ≡ x / a * a
aligned_lem x a = omega (arith, div-add-mod' x a)

align_down-mod : (x a : ℕ) → align_down x a % a ≡ 0
align_down-mod x a = rw (aligned_lem x a) (mul-mod_left (x / a) a)

-- An aligned address that is no higher than `x` is no higher than `x` aligned down.
greatest : (x a q : ℕ) → 0 < a → q % a ≡ 0 → q ≤ x → q ≤ align_down x a
greatest x a q h e l = omega (
  arith,
  aligned_lem x a,
  div-add-mod' q a,
  mul-le-mul_right a
      ((le-div_iff_mul-le {k = a} {x = q / a} {y = x} h).1 (omega (arith, div-add-mod' q a, e, l))),
  e,
)

module _ {z : Zone} {size align : ℕ} (v : IsZone z) (hs : size < 2 ^ 31) (ha : 0 < align)
    (hb : align ≤ 2 ^ 31) where
  sub_lem : size ≤ z.cur → sub32 z.cur size ≡ z.cur - size
  sub_lem l = omega (arith, l, v.high, v.word, hs)

  wrap_lem : z.cur < size → z.cur + 2 ^ 31 < sub32 z.cur size
  wrap_lem l = omega (arith, l, hs, v.high, v.word)

  near : (newpos z size align ≤ sub32 z.cur size) × (sub32 z.cur size < newpos z size align + align)
  near = omega (arith, mod-le (sub32 z.cur size) align, mod-lt (sub32 z.cur size) ha)

  refused : Bool
  refused = ltb (newpos z size align) z.bottom || ltb z.cur (newpos z size align)

  highest : (q : ℕ) → q % align ≡ 0 → q + size ≤ z.cur → q ≤ newpos z size align
  highest q e l =
      greatest (sub32 z.cur size) align q ha e (omega (arith, sub_lem (omega (arith, l)), l))

  none_lem : refused ≡ true → (q : ℕ) → q % align ≡ 0 → z.bottom ≤ q → z.cur < q + size
  unfolding refused
  none_lem b q e l = elim (Bool-cases (ltb z.cur (q + size))) [
    | inl c ↦ ltb→lt z.cur (q + size) c
    | inr c ↦
        let inside = ltb→le z.cur (q + size) c in
        ground (arith, b, l, highest q e inside, near.0, sub_lem (omega (arith, inside)))
  ]

  block_lem :
      refused ≡ false → (z.bottom ≤ newpos z size align) × (newpos z size align + size ≤ z.cur)
  unfolding refused
  block_lem b = elim (Bool-cases (ltb z.cur size)) [
    | inl c ↦ ground (arith, b, wrap_lem (ltb→lt z.cur size c), near.1, hb)
    | inr c ↦ ground (arith, b, near.0, sub_lem (ltb→le z.cur size c), ltb→le z.cur size c)
  ]

-- `zone_malloc` gives an aligned block of the free space, the highest that there is, and gives 0 only
-- when there is none; the block is no longer free then, and nothing else of the zone changes.
pub zone_malloc-fits :
    {z : Zone} (size align : ℕ)
    → IsZone z
    → size < 2 ^ 31
    → 0 < align
    → align ≤ 2 ^ 31
    → ((zone_malloc z size align ≡ (0, z))
        × ((q : ℕ) → q % align ≡ 0 → z.bottom ≤ q → z.cur < q + size))
      ⊎ ((p : ℕ) × (zone_malloc z size align ≡ (p, record z { cur = p }))
          × (p % align ≡ 0)
          × (z.bottom ≤ p)
          × (p + size ≤ z.cur)
          × ((q : ℕ) → q % align ≡ 0 → q + size ≤ z.cur → q ≤ p))
unfolding zone_malloc refused
zone_malloc-fits {z} size align v hs ha hb = elim (Bool-cases (refused v hs ha hb)) [
  | inl b ↦ inl (if_true (refused v hs ha hb) _ _ b, none_lem v hs ha hb b)
  | inr b ↦
      let (above, below) = block_lem v hs ha hb b in
      inr (
        newpos z size align,
        if_false (refused v hs ha hb) _ _ b,
        align_down-mod (sub32 z.cur size) align,
        above,
        below,
        highest v hs ha hb,
      )
]
