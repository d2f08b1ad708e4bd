-- ===== src/MemMap/High.antt =====
-- bios/seabios/src/memmap.c: what find_high_area finds.
use coremu.Common.{
  ℕ, ◌+◌, ◌*◌, ◌%◌, ◌^◌, ◌≤◌, ◌≡◌, subst, Bool, not, ◌||◌, some, some_inj, List, [], ◌∷◌, ltb,
  ltb→le, ◌==◌, if_taken, if_skipped, Bool-cases, inl, inr, arith,
}
use coremu.MemMap.{Area, e820_ram, end_of, scan_high, backwards, find_high_area}

-- An area of RAM of the size, that ends below 4 GB and far enough above 1 MB.
pub record IsHigh (size : ℕ) (e : Area) : Type 0 where
  pub ram : e.type ≡ e820_ram
  pub below_4g : end_of e ≤ 4294967295
  pub large : size ≤ e.size
  pub above_1m : (1024 * 1024 + size) % 2 ^ 32 ≤ end_of e

scan_high-IsHigh :
    (size : ℕ) (es : List Area) {e : Area} → scan_high size es ≡ some e → IsHigh size e
unfolding scan_high
scan_high-IsHigh size [] h = cc
scan_high-IsHigh size (a ∷ es) {e} h = elim (Bool-cases unfit) [
  | inl b ↦ scan_high-IsHigh size es (if_taken unfit _ _ b h)
  | inr b ↦ elim (Bool-cases (ltb (end_of a) ((1024 * 1024 + size) % 2 ^ 32))) [
    | inl c ↦
        cc (
          if_taken (ltb (end_of a) ((1024 * 1024 + size) % 2 ^ 32)) _ _ c
            (if_skipped unfit _ _ b h))
    | inr c ↦
        subst (IsHigh size)
          (some_inj (
            if_skipped (ltb (end_of a) ((1024 * 1024 + size) % 2 ^ 32)) _ _ c
              (if_skipped unfit _ _ b h)))
          (record {
            ram = ground (arith, b);
            below_4g = ground (arith, b);
            large = ground (arith, b);
            above_1m = ltb→le (end_of a) ((1024 * 1024 + size) % 2 ^ 32) c;
          })
  ]
]
  where
    unfit : Bool
    unfit = not (a.type == e820_ram) || ltb 4294967295 (end_of a) || ltb a.size size

-- find_high_area finds an area of RAM that is large enough, ends below 4 GB and ends at least its size
-- above 1 MB.
pub find_high_area-IsHigh :
    (size : ℕ) (list : List Area) {e : Area} → find_high_area size list ≡ some e → IsHigh size e
unfolding find_high_area
find_high_area-IsHigh size list h = scan_high-IsHigh size (backwards list []) h
