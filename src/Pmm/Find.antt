-- ===== src/Pmm/Find.antt =====
-- bios/seabios/src/pmm.c: the zone that holds a block, and the release of the last block of a zone.
use coremu.Common.{
  ℕ, suc, zero, ◌≤◌, ◌<◌, ◌≡◌, ◌⊎◌, refl, sym, ap, ◌∙◌, subst, fun_ext, Bool, true, false, not,
  ◌||◌, some, List, [], ◌∷◌, ◌==◌, ==_iff, if_true, if_false, Bool-cases, inl, inr, arith, some_inj,
  clash,
}
use coremu.Pmm.{
  Zone, ZoneName, zone_tmp_low, zone_low, zone_fseg, zone_tmp_high, zone_high, Pmm, position,
  set_zone, holds, find_in, zone_names, zone_find, free_in, zone_free,
}
use coremu.Pmm.Zones.{IsZone}

-- No address lies in two zones, and no zone with addresses in it starts at NULL.
pub record IsApart (s : Pmm) : Type 0 where
  pub each : (n : ZoneName) → IsZone (s.zones n)
  pub not_null : (n : ZoneName) → ((s.zones n).top ≡ 0) ⊎ (0 < (s.zones n).bottom)
  pub alone :
      (m n : ZoneName) (p : ℕ)
      → (s.zones m).bottom ≤ p
      → p < (s.zones m).top
      → (s.zones n).bottom ≤ p
      → p < (s.zones n).top
      → m ≡ n

at : ℕ → ZoneName
at zero = zone_tmp_low
at (suc zero) = zone_low
at (suc (suc zero)) = zone_fseg
at (suc (suc (suc zero))) = zone_tmp_high
at _ = zone_high

at-position : (n : ZoneName) → at (position n) ≡ n
unfolding at
at-position zone_tmp_low = refl
at-position zone_low = refl
at-position zone_fseg = refl
at-position zone_tmp_high = refl
at-position zone_high = refl

pub position_inj : (m n : ZoneName) → (position m == position n) ≡ true → m ≡ n
position_inj m n e =
    sym (at-position m) ∙ (ap at ((==_iff (position m) (position n)).0 e) ∙ at-position n)

same_position : (n : ZoneName) → (position n == position n) ≡ true
same_position n = (==_iff (position n) (position n)).1 refl

-- What a zone is after it was set, and that a zone set to what it was changes nothing.
pub zones-set_self : (n : ZoneName) (z : Zone) (s : Pmm) → (set_zone n z s).zones n ≡ z
zones-set_self n z s = if_true (position n == position n) _ _ (same_position n)

pub set_zone-back :
    (n : ZoneName) (z : Zone) (s : Pmm) → set_zone n (s.zones n) (set_zone n z s) ≡ s
set_zone-back n z s =
    ap (λ (f : ZoneName → Zone). record s { zones = f })
      (fun_ext λ m. elim (Bool-cases (position m == position n)) [
        | inl b ↦ if_true (position m == position n) _ _ b ∙ ap s.zones (sym (position_inj m n b))
        | inr b ↦
            if_false (position m == position n) _ _ b
            ∙ if_false (position m == position n) z (s.zones m) b
      ])

find_sound :
    (ns : List ZoneName) (p : ℕ) (s : Pmm) {m : ZoneName}
    → find_in ns p s ≡ some m
    → holds (s.zones m) p ≡ true
find_sound [] p s e = cc
find_sound (n ∷ ns) p s {m} e = elim (Bool-cases (holds (s.zones n) p)) [
  | inl b ↦
      subst (λ k. holds (s.zones k) p ≡ true)
        (some_inj (sym (if_true (holds (s.zones n) p) _ _ b) ∙ e)) b
  | inr b ↦ find_sound ns p s (sym (if_false (holds (s.zones n) p) _ _ b) ∙ e)
]

abbrev mem : ZoneName → List ZoneName → Bool
mem n [] = false
mem n (m ∷ ns) = position m == position n || mem n ns

find_complete :
    (ns : List ZoneName) (p : ℕ) (s : Pmm) (n : ZoneName)
    → mem n ns ≡ true
    → holds (s.zones n) p ≡ true
    → (m : ZoneName) × (find_in ns p s ≡ some m)
find_complete [] p s n i h = cc
find_complete (k ∷ ns) p s n i h = elim (Bool-cases (holds (s.zones k) p)) [
  | inl b ↦ (k, if_true (holds (s.zones k) p) _ _ b)
  | inr b ↦
      let (m, e) = find_complete ns p s n (later k ns i b) h in
      (m, if_false (holds (s.zones k) p) _ _ b ∙ e)
]
  where
    later :
        (k : ZoneName) (ns : List ZoneName)
        → mem n (k ∷ ns) ≡ true
        → holds (s.zones k) p ≡ false
        → mem n ns ≡ true
    later k ns i b = elim (Bool-cases (position k == position n)) [
      | inl c ↦
          clash (holds (s.zones n) p) h
            (subst (λ j. holds (s.zones j) p ≡ false) (position_inj k n c) b)
      | inr c ↦ subst (λ b. (b || mem n ns) ≡ true) c i
    ]

in_names : (n : ZoneName) → mem n zone_names ≡ true
in_names zone_tmp_low = refl
in_names zone_low = refl
in_names zone_fseg = refl
in_names zone_tmp_high = refl
in_names zone_high = refl

holds_iff : (z : Zone) (p : ℕ) → z.cur ≤ p → p < z.top → holds z p ≡ true
holds_iff z p l h = ground (arith, l, h)

held : (z : Zone) (p : ℕ) → holds z p ≡ true → (z.cur ≤ p) × (p < z.top)
held z p h = ground (arith, h)

-- `zone_find` finds the zone of a block.
zone_find_lem :
    (n : ZoneName) (p : ℕ) {s : Pmm}
    → IsApart s
    → (s.zones n).cur ≤ p
    → p < (s.zones n).top
    → zone_find p s ≡ some n
unfolding zone_find
zone_find_lem n p {s} v l h =
    let (m, e) = find_complete zone_names p s n (in_names n) (holds_iff (s.zones n) p l h) in
    let (low, high) = held (s.zones m) p (find_sound zone_names p s e) in
    e
    ∙ ap some (
        v.alone m n p (omega (arith, (v.each m).low, low)) high (omega (arith, (v.each n).low, l))
          h)

-- The zone `n` with another end of its free space.
abbrev pub cut : ZoneName → ℕ → Pmm → Pmm
cut n c s = set_zone n (record (s.zones n) { cur = c }) s

module _ (n : ZoneName) (c : ℕ) (s : Pmm) where
  pub cut_bounds :
      (m : ZoneName)
      → (((cut n c s).zones m).bottom ≡ (s.zones m).bottom)
        × (((cut n c s).zones m).top ≡ (s.zones m).top)
  cut_bounds m = elim (Bool-cases (position m == position n)) [
    | inl b ↦
        let e = if_true (position m == position n) _ _ b in
        let back = ap s.zones (sym (position_inj m n b)) in
        (
          ap (λ (z : Zone). z.bottom) e ∙ ap (λ (z : Zone). z.bottom) back,
          ap (λ (z : Zone). z.top) e ∙ ap (λ (z : Zone). z.top) back,
        )
    | inr b ↦
        let e = if_false (position m == position n) _ _ b in
        (ap (λ (z : Zone). z.bottom) e, ap (λ (z : Zone). z.top) e)
  ]

  pub cut_self : (cut n c s).zones n ≡ record (s.zones n) { cur = c }
  cut_self = zones-set_self n (record (s.zones n) { cur = c }) s

  module _ (v : IsApart s) (l : (s.zones n).bottom ≤ c) (h : c ≤ (s.zones n).top) where
    cut_each : (m : ZoneName) → IsZone ((cut n c s).zones m)
    cut_each m = elim (Bool-cases (position m == position n)) [
      | inl b ↦
          subst IsZone (sym (if_true (position m == position n) _ _ b))
            (record { low = l; high = h; word = (v.each n).word })
      | inr b ↦ subst IsZone (sym (if_false (position m == position n) _ _ b)) (v.each m)
    ]

    pub cut-IsApart : IsApart (cut n c s)
    cut-IsApart = record {
      each = cut_each;
      not_null = λ m. ground (arith, cut_bounds m, v.not_null m);
      alone = λ m k p a b d e.
          v.alone m k p (omega (arith, a, cut_bounds m)) (omega (arith, b, cut_bounds m))
            (omega (arith, d, cut_bounds k)) (omega (arith, e, cut_bounds k));
    }

  -- Freeing the last block of a zone.
  pub free_last :
      IsApart s
      → (s.zones n).bottom ≤ c
      → 0 < c
      → c < (s.zones n).top
      → zone_free c (s.zones n).cur (cut n c s) ≡ (true, s)
  unfolding zone_free
  free_last v l o h =
      ap (free_in c (s.zones n).cur (cut n c s)) (
        zone_find_lem n c (cut-IsApart v l (omega (arith, h))) (omega (arith, at_cur))
          (omega (arith, h, (cut_bounds n).1)))
      ∙ (if_false (c == 0 || not (((cut n c s).zones n).cur == c)) _ _ (ground (arith, o, at_cur))
          ∙ (ap (λ (z : Zone). (true, set_zone n (record z { cur = (s.zones n).cur }) (cut n c s)))
                cut_self
              ∙ ap (λ t. (true, t)) (set_zone-back n (record (s.zones n) { cur = c }) s)))
    where
      at_cur : ((cut n c s).zones n).cur ≡ c
      at_cur = ap (λ (z : Zone). z.cur) cut_self
