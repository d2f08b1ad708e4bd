-- ===== src/Pmm/Undo.antt =====
-- bios/seabios/src/pmm.c: pmm_free undoes pmm_malloc, and a pmm_malloc that fails undoes itself.
use coremu.Common.{
  ℕ, ◌+◌, ◌%◌, ◌^◌, ◌≤◌, ◌<◌, ◌≡◌, ◌≢◌, ◌⊎◌, refl, sym, ap, ◌∙◌, subst, fun_ext, Bool, true, List,
  ◌∷◌, ◌==◌, ==_iff, ==_ne, if_true, if_false, Bool-cases, inl, inr, arith,
}
use coremu.Pmm.{
  Zone, ZoneName, zone_tmp_low, zone_low, zone_fseg, zone_tmp_high, zone_high, Pmm, PmmAlloc,
  position, set_zone, zone_free, malloc_min_align, sizeof_pmmalloc,
}
use coremu.Pmm.Alloc.{
  malloc_in, new_info, expand, malloc_tracked, pmm_malloc, pmm_free_data, pmm_free, low_info,
  info_or_low, track, malloc_with, free_or_patch, free_unlinked,
}
use coremu.Pmm.Zones.{zone_malloc-fits}
use coremu.Pmm.Find.{IsApart, position_inj, cut, cut_bounds, cut-IsApart, free_last}

set_zone-same : (n : ZoneName) (s : Pmm) → set_zone n (s.zones n) s ≡ s
set_zone-same n s =
    ap (λ (f : ZoneName → Zone). record s { zones = f })
      (fun_ext λ m. elim (Bool-cases (position m == position n)) [
        | inl b ↦ if_true (position m == position n) _ _ b ∙ ap s.zones (sym (position_inj m n b))
        | inr b ↦ if_false (position m == position n) _ _ b
      ])

-- A block that a zone gave, at an address that is not NULL.
record Block (n : ZoneName) (size align p : ℕ) (s : Pmm) : Type 0 where
  aligned : p % align ≡ 0
  above : (s.zones n).bottom ≤ p
  below : p + size ≤ (s.zones n).cur
  positive : 0 < p

module _ (size align : ℕ) (hs : 0 < size) (small : size < 2 ^ 31) (ha : 0 < align)
    (hb : align ≤ 2 ^ 31) where
  malloc_in-cases :
      (n : ZoneName) (s : Pmm)
      → IsApart s
      → (malloc_in n size align s ≡ (0, s))
        ⊎ ((p : ℕ) × (malloc_in n size align s ≡ (p, cut n p s)) × Block n size align p s)
  malloc_in-cases n s v = elim (zone_malloc-fits size align (v.each n) small ha hb) [
    | inl (e, _) ↦
        inl
          (ap (λ (r : ℕ × Zone). (r.0, set_zone n r.1 s)) e ∙ ap (λ t. (0, t)) (set_zone-same n s))
    | inr (p, e, a, l, h, _) ↦ inr (
      p,
      ap (λ (r : ℕ × Zone). (r.0, set_zone n r.1 s)) e,
      record {
        aligned = a;
        above = l;
        below = h;
        positive = ground (arith, v.not_null n, l, h, hs, (v.each n).high);
      },
    )
  ]

-- The allocation of the record: it fails and changes nothing, or lies in a temporary zone.
InfoCases : Pmm → ℕ × ℕ × Pmm → Type 0
InfoCases s r =
    ((old : ℕ) × (r ≡ (0, old, s)))
    ⊎ ((n : ZoneName) × (i : ℕ) × (r ≡ (i, (s.zones n).cur, cut n i s))
        × Block n sizeof_pmmalloc malloc_min_align i s)

low_info-cases : (s : Pmm) → IsApart s → InfoCases s (low_info s)
unfolding InfoCases
low_info-cases s v =
    elim (malloc_in-cases 20 16 (omega arith) (omega arith) (omega arith) (omega arith) zone_tmp_low
      s v) [
        | inl e ↦ inl (
          (s.zones zone_tmp_low).cur,
          ap (λ (r : ℕ × Pmm). (r.0, (s.zones zone_tmp_low).cur, r.1)) e,
        )
        | inr (p, e, b) ↦
            inr (zone_tmp_low, p, ap (λ (r : ℕ × Pmm). (r.0, (s.zones zone_tmp_low).cur, r.1)) e, b)
      ]

new_info-cases : (s : Pmm) → IsApart s → InfoCases s (new_info s)
unfolding new_info InfoCases
new_info-cases s v =
    elim (malloc_in-cases 20 16 (omega arith) (omega arith) (omega arith) (omega arith)
      zone_tmp_high s v) [
        | inl e ↦
            subst (InfoCases s) (sym (ap (info_or_low (s.zones zone_tmp_high).cur) e))
              (low_info-cases s v)
        | inr (p, e, b) ↦ inr (
          zone_tmp_high,
          p,
          ap (info_or_low (s.zones zone_tmp_high).cur) e
              ∙ if_false (p == 0) _ _ (==_ne p 0 (λ z. absurd (omega (arith, z, b.positive)))),
          b,
        )
      ]

expand-other :
    (waits : List (Pmm → Pmm)) (n : ZoneName) (size align : ℕ) (s : Pmm)
    → n ≢ zone_low
    → expand waits n size align s ≡ s
expand-other waits zone_tmp_low size align s ne = refl
expand-other waits zone_low size align s ne = absurd (ne refl)
expand-other waits zone_fseg size align s ne = refl
expand-other waits zone_tmp_high size align s ne = refl
expand-other waits zone_high size align s ne = refl

-- What `pmm_malloc` of a zone may return, with the state afterwards: nothing, and nothing has changed;
-- or a block of the zone's free space that `pmm_free` gives back.
abbrev pub Outcome : ZoneName → ℕ → ℕ → Pmm → ℕ × Pmm → Type 0
Outcome zone size align s (p, s') =
    ((p ≡ 0) × (s' ≡ s))
    ⊎ ((0 < p)
        × (p % align ≡ 0)
        × ((s.zones zone).bottom ≤ p)
        × (p + size ≤ (s.zones zone).cur)
        × (pmm_free p s' ≡ (true, s))
        × IsApart s')

cur-cut :
    (n m : ZoneName) (c : ℕ) (s : Pmm)
    → c ≤ (s.zones n).cur
    → ((cut n c s).zones m).cur ≤ (s.zones m).cur
cur-cut n m c s l = elim (Bool-cases (position m == position n)) [
  | inl b ↦ omega (
    arith,
    l,
    ap (λ (z : Zone). z.cur) (if_true (position m == position n) _ _ b),
    ap (λ k. (s.zones k).cur) (position_inj m n b),
  )
  | inr b ↦ omega (arith, ap (λ (z : Zone). z.cur) (if_false (position m == position n) _ _ b))
]

module _ (n zone : ZoneName) (i handle size align : ℕ) (s : Pmm) (v : IsApart s)
    (info : Block n sizeof_pmmalloc malloc_min_align i s) (hs : 0 < size) (small : size < 2 ^ 31)
    (ha : 0 < align) (hb : align ≤ 2 ^ 31) where
  in_top : i < (s.zones n).top
  in_top = omega (arith, info.below, (v.each n).high)

  between : Pmm
  between = cut n i s

  between-IsApart : IsApart between
  unfolding between
  between-IsApart = cut-IsApart n i s v info.above (omega (arith, in_top))

  free_info : zone_free i (s.zones n).cur between ≡ (true, s)
  unfolding between
  free_info = free_last n i s v info.above info.positive in_top

  entry : ℕ → PmmAlloc
  entry p = record {
    address = i;
    data_ = p;
    olddata = (between.zones zone).cur;
    handle = handle;
    oldallocdata = (s.zones n).cur;
  }

  -- The block and then its record go back to where they were taken from.
  freed :
      (p : ℕ)
      → Block zone size align p between
      → pmm_free p (record (cut zone p between) { pmm_allocs = entry p ∷ between.pmm_allocs })
        ≡ (true, s)
  unfolding pmm_free pmm_free_data entry
  freed p b =
      ap (free_unlinked p _) (if_true (p == p) _ _ ((==_iff p p).1 refl))
      ∙ ap (λ t. (true, t))
          (ap
              (λ t.
                free_or_patch i (s.zones n).cur
                  (zone_free i (s.zones n).cur (free_or_patch p (between.zones zone).cur t)))
              (free_last zone p between between-IsApart b.above b.positive
                (omega (arith, b.below, hs, (between-IsApart.each zone).high)))
            ∙ ap (free_or_patch i (s.zones n).cur) free_info)

  low_lem : (p : ℕ) → Block zone size align p between → (s.zones zone).bottom ≤ p
  unfolding between
  low_lem p b = omega (arith, b.above, (cut_bounds n i s zone).0)

  high_lem : (p : ℕ) → Block zone size align p between → p + size ≤ (s.zones zone).cur
  unfolding between
  high_lem p b = omega (arith, b.below, cur-cut n zone i s (omega (arith, info.below)))

  kept :
      (p : ℕ)
      → Block zone size align p between
      → IsApart (record (cut zone p between) { pmm_allocs = entry p ∷ between.pmm_allocs })
  kept p b =
      let w =
        cut-IsApart zone p between between-IsApart b.above
          (omega (arith, b.below, (between-IsApart.each zone).high)) in
      record { each = w.each; not_null = w.not_null; alone = w.alone }

  tracked-Outcome :
      Outcome zone size align s (malloc_tracked i (s.zones n).cur zone handle size align between)
  unfolding malloc_tracked entry
  tracked-Outcome = elim (malloc_in-cases size align hs small ha hb zone between between-IsApart) [
    | inl e ↦
        subst (Outcome zone size align s)
          (sym (ap (track i (s.zones n).cur handle (between.zones zone).cur) e))
          (inl (refl, ap (λ (r : Bool × Pmm). r.1) free_info))
    | inr (p, e, b) ↦
        subst (Outcome zone size align s)
          (sym (
            ap (track i (s.zones n).cur handle (between.zones zone).cur) e
            ∙ if_false (p == 0) _ _ (==_ne p 0 (λ z. absurd (omega (arith, z, b.positive))))))
          (inr (b.positive, b.aligned, low_lem p b, high_lem p b, freed p b, kept p b))
  ]

-- For every zone but the one that can grow: a size and an alignment up to 2^31 get an aligned block of
-- the free space of the zone, which pmm_free takes back together with its tracking record, so that the
-- state is as before, and the zones are still well-formed and apart; or nothing, and the state is as
-- before at once.
pub pmm_malloc-Outcome :
    (waits : List (Pmm → Pmm)) (zone : ZoneName) (handle size align : ℕ) {s : Pmm}
    → IsApart s
    → zone ≢ zone_low
    → 0 < size
    → size < 2 ^ 31
    → 0 < align
    → align ≤ 2 ^ 31
    → Outcome zone size align s (pmm_malloc waits zone handle size align s)
unfolding pmm_malloc InfoCases between
pmm_malloc-Outcome waits zone handle size align {s} v ne hs small ha hb =
    elim (new_info-cases s v) [
      | inl (old, e) ↦
          subst (Outcome zone size align s) (sym (ap (malloc_with waits zone handle size align) e))
            (inl (refl, refl))
      | inr (n, i, e, info) ↦
          subst (Outcome zone size align s)
            (sym (
              ap (malloc_with waits zone handle size align) e
              ∙ (if_false (i == 0) _ _ (==_ne i 0 (λ z. absurd (omega (arith, z, info.positive))))
                  ∙ ap (malloc_tracked i (s.zones n).cur zone handle size align)
                      (expand-other waits zone size align (cut n i s) ne))))
            (tracked-Outcome n zone i handle size align s v info hs small ha hb)
    ]
