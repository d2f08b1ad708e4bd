-- ===== src/Drives/Order.antt =====
-- bios/seabios/src/block.c: the order of the drives in a map.
use coremu.Common.{
  ℕ, zero, suc, ◌+◌, ◌*◌, ◌^◌, ◌≤◌, ◌<◌, ◌≡◌, ◌⊎◌, refl, sym, ap, ◌∙◌, subst, true, false, Option,
  none, some, some_inj, List, [], ◌∷◌, length, get_elem?, ltb, leb, ltb→le, leb→le, if◌then◌else◌,
  if_true, if_false, Bool-cases, Option-cases, inl, inr, arith,
}
use coremu.Drives.{Drive, config_max_extdrive, precedes, find_pos, insert_at, add_ordered_drive}

-- The order is that of the type and then of the id.
abbrev pub key : Drive → ℕ
key d = d.type * 2 ^ 32 + d.cntl_id

abbrev pub IsDrive : Drive → Type 0
IsDrive d = d.cntl_id < 2 ^ 32

-- Drives in order, none before the key `b`.
abbrev pub IsOrdered : ℕ → List Drive → Type 0
IsOrdered b [] = Unit
IsOrdered b (d ∷ ds) = (b ≤ key d) × IsDrive d × IsOrdered (key d) ds

precedes_lem : (c d : Drive) → IsDrive c → IsDrive d → precedes c d ≡ ltb (key c) (key d)
precedes_lem c d hc hd = ground (arith, hc, hd)

ordered_at :
    (b : ℕ) (ds : List Drive) (i : ℕ) {d : Drive}
    → IsOrdered b ds
    → get_elem? ds i ≡ some d
    → (b ≤ key d) × IsDrive d
ordered_at b [] i h e = cc
ordered_at b (c ∷ ds) zero (l, w, h) e = subst (λ d. (b ≤ key d) × IsDrive d) (some_inj e) (l, w)
ordered_at b (c ∷ ds) (suc i) (l, w, h) e =
    let (m, u) = ordered_at (key c) ds i h e in (omega (arith, l, m), u)

element : (ds : List Drive) (i : ℕ) → i < length ds → (c : Drive) × (get_elem? ds i ≡ some c)
element [] i h = absurd (omega (arith, h))
element (c ∷ ds) zero h = (c, refl)
element (c ∷ ds) (suc i) h = element ds i (omega (arith, h))

less : (m n : ℕ) → ltb m n ≡ true → m ≤ n
less m n h = ground (arith, h)

-- Where a drive may be put: behind a drive that precedes it, and before one that does not.
record IsPlace (ds : List Drive) (d : Drive) (p : ℕ) : Type 0 where
  within : p ≤ length ds
  behind : (i : ℕ) (c : Drive) → suc i ≡ p → get_elem? ds i ≡ some c → key c ≤ key d
  ahead : (c : Drive) → get_elem? ds p ≡ some c → key d ≤ key c

find_pos-IsPlace :
    (b : ℕ) (ds : List Drive) (d : Drive) (p : ℕ)
    → IsOrdered b ds
    → IsDrive d
    → p ≤ length ds
    → ((c : Drive) → get_elem? ds p ≡ some c → key d ≤ key c)
    → IsPlace ds d (find_pos ds d p)
unfolding find_pos
find_pos-IsPlace b ds d zero h w n ah = record {
  within = n;
  behind = λ i c e. absurd (omega (arith, e));
  ahead = ah;
}
find_pos-IsPlace b ds d (suc p) h w n ah = elim (Option-cases (get_elem? ds p)) [
  | inl e ↦
      subst (IsPlace ds d) (sym (ap look e))
        (find_pos-IsPlace b ds d p h w (omega (arith, n)) (λ c f. missing e f))
  | inr (c, e) ↦ elim (Bool-cases (precedes c d)) [
    | inl t ↦
        subst (IsPlace ds d) (sym (ap look e ∙ if_true (precedes c d) _ _ t))
          (record { within = n; behind = λ i c' f g. below c e t i c' f g; ahead = ah })
    | inr t ↦
        subst (IsPlace ds d) (sym (ap look e ∙ if_false (precedes c d) _ _ t))
          (find_pos-IsPlace b ds d p h w (omega (arith, n)) (λ c' f. above c e t c' f))
  ]
]
  where
    look : Option Drive → ℕ
    look o = elim o [
      | none ↦ find_pos ds d p
      | some c ↦ if precedes c d then suc p else find_pos ds d p
    ]

    missing : {c : Drive} → get_elem? ds p ≡ none → get_elem? ds p ≡ some c → key d ≤ key c
    missing e f = cc

    below :
        (c : Drive)
        → get_elem? ds p ≡ some c
        → precedes c d ≡ true
        → (i : ℕ) (c' : Drive) → suc i ≡ suc p
        → get_elem? ds i ≡ some c'
        → key c' ≤ key d
    below c e t i c' f g =
        let same : i ≡ p = omega (arith, f) in
        let g' : get_elem? ds p ≡ some c' = subst (λ j. get_elem? ds j ≡ some c') same g in
        subst (λ (z : Drive). key z ≤ key d) (some_inj (sym e ∙ g'))
          (less (key c) (key d) (sym (precedes_lem c d (ordered_at b ds p h e).1 w) ∙ t))

    above :
        (c : Drive)
        → get_elem? ds p ≡ some c
        → precedes c d ≡ false
        → (c' : Drive) → get_elem? ds p ≡ some c'
        → key d ≤ key c'
    above c e t c' f =
        subst (λ (z : Drive). key d ≤ key z) (some_inj (sym e ∙ f))
          (ltb→le (key c) (key d) (sym (precedes_lem c d (ordered_at b ds p h e).1 w) ∙ t))

insert_at-IsOrdered :
    (b : ℕ) (ds : List Drive) (d : Drive) (p : ℕ)
    → IsOrdered b ds
    → b ≤ key d
    → IsDrive d
    → IsPlace ds d p
    → IsOrdered b (insert_at p d ds)
insert_at-IsOrdered b [] d zero h l w pl = (l, w, tt)
insert_at-IsOrdered b [] d (suc p) h l w pl = (l, w, tt)
insert_at-IsOrdered b (c ∷ ds) d zero (m, u, h) l w pl = (l, w, (pl.ahead c refl, u, h))
insert_at-IsOrdered b (c ∷ ds) d (suc p) (m, u, h) l w pl = (
  m,
  u,
  insert_at-IsOrdered (key c) ds d p h (first (element (c ∷ ds) p pl.within)) w (record {
    within = omega (arith, pl.within);
    behind = λ i e f g. pl.behind (suc i) e (ap suc f) g;
    ahead = pl.ahead;
  }),
)
  where
    first : (e : Drive) × (get_elem? (c ∷ ds) p ≡ some e) → key c ≤ key d
    first (e, at) =
        omega
          (arith, pl.behind p e refl at, (ordered_at (key c) (c ∷ ds) p (omega arith, u, h) at).0)

-- A map of sixteen drives stays as it is. In any other that is ordered by type and id, a drive is
-- put at a place between the others, which keep their order, and the map is ordered again.
pub add_ordered_drive-IsOrdered :
    (ds : List Drive) (d : Drive)
    → IsOrdered 0 ds
    → IsDrive d
    → ((config_max_extdrive ≤ length ds) × (add_ordered_drive ds d ≡ ds))
      ⊎ ((length ds < config_max_extdrive)
          × (p : ℕ) × (p ≤ length ds)
          × (add_ordered_drive ds d ≡ insert_at p d ds)
          × IsOrdered 0 (insert_at p d ds))
unfolding add_ordered_drive
add_ordered_drive-IsOrdered ds d h w = elim (Bool-cases (leb config_max_extdrive (length ds))) [
  | inl b ↦ inl (
    leb→le config_max_extdrive (length ds) b,
    if_true (leb config_max_extdrive (length ds)) _ _ b,
  )
  | inr b ↦
      let place = find_pos-IsPlace 0 ds d (length ds) h w (omega arith) (λ c e. none_behind ds e) in
      inr (
        ground (arith, b),
        find_pos ds d (length ds),
        place.within,
        if_false (leb config_max_extdrive (length ds)) _ _ b,
        insert_at-IsOrdered 0 ds d (find_pos ds d (length ds)) h (omega arith) w place,
      )
]
  where
    none_behind : (ds : List Drive) {c : Drive} → get_elem? ds (length ds) ≡ some c → key d ≤ key c
    none_behind [] e = cc
    none_behind (c ∷ ds) e = none_behind ds e
