-- ===== src/MemMap/Types.antt =====
-- bios/seabios/src/memmap.c: the type of every address, before and after `add_e820`.
use coremu.Common.{
  ℕ, ◌+◌, ◌-◌, ◌%◌, ◌^◌, ◌≤◌, ◌<◌, ◌≡◌, refl, sym, ap, ◌∙◌, Bool, false, ◌&&◌, List, [], ◌∷◌, leb,
  ltb, ltb→lt, ltb→le, leb→le, subst, ==_iff, ◌==◌, length, if◌then◌else◌, arith, if_true, if_false,
  Bool-cases, inl, inr,
}
use coremu.MemMap.{Area, area, e820_hole, end_of, insert_e820, insert_new, overlap}

abbrev pub is_in : ℕ → Area → Bool
is_in x a = leb a.start x && ltb x (a.start + a.size)

-- The type of the area that an address lies in; outside of all areas is a hole.
abbrev pub type_at : List Area → ℕ → ℕ
type_at [] x = e820_hole
type_at (a ∷ bs) x = if is_in x a then a.type else type_at bs x

-- Disjoint areas in order, from `b` on, that end below 2^64.
abbrev pub IsSorted : ℕ → List Area → Type 0
IsSorted b [] = Unit
IsSorted b (a ∷ bs) = (b ≤ a.start) × (a.start + a.size < 2 ^ 64) × IsSorted (a.start + a.size) bs

type_at-below : (b x : ℕ) (bs : List Area) → IsSorted b bs → x < b → type_at bs x ≡ e820_hole
type_at-below b x [] s l = refl
type_at-below b x (a ∷ bs) (le, small, s) l =
    ground (arith, le, small, l, type_at-below (a.start + a.size) x bs s (omega (arith, le, l)))

-- The new area is put in front of areas that start behind its end.
insert_new-type_at :
    (k x : ℕ) (a : Area) (bs : List Area)
    → IsSorted (a.start + a.size) bs
    → k + length bs < 32
    → type_at (insert_new k a bs) x ≡ (if is_in x a then a.type else type_at bs x)
unfolding insert_new insert_e820
insert_new-type_at k x a bs s l = ground (arith, l, type_at-below (a.start + a.size) x bs s)

pub IsSorted-weaken : (b c : ℕ) (bs : List Area) → b ≤ c → IsSorted c bs → IsSorted b bs
IsSorted-weaken b c [] le s = tt
IsSorted-weaken b c (a ∷ bs) le (l, small, s) = (omega (arith, le, l), small, s)

pub end_of-eq : (e : Area) → e.start + e.size < 2 ^ 64 → end_of e ≡ e.start + e.size
end_of-eq e small = omega (arith, small)

-- An area that the new one covers does not show.
covered :
    (x : ℕ) (a e : Area) (t : ℕ)
    → a.start ≤ e.start
    → e.start + e.size ≤ a.start + a.size
    → (if is_in x a then a.type else t)
      ≡ (if is_in x a then a.type else if is_in x e then e.type else t)
covered x a e t l r = ground (arith, l, r)

-- An area that the new one reaches into, of the same type or of another.
joined :
    (x n : ℕ) (a e : Area) (t : ℕ)
    → a.start ≤ e.start
    → e.start ≤ a.start + a.size
    → a.start + n ≡ e.start + e.size
    → a.start + a.size ≤ e.start + e.size
    → a.type ≡ e.type
    → (if is_in x (area a.start n a.type) then a.type else t)
      ≡ (if is_in x a then a.type else if is_in x e then e.type else t)
joined x n a e t l m sum r same = ground (arith, l, m, sum, r, same)

trimmed :
    (x end : ℕ) (a e : Area) (t : ℕ)
    → a.start ≤ e.start
    → e.start ≤ end
    → a.start + a.size ≡ end
    → end ≤ e.start + e.size
    → (if is_in x a
        then a.type
        else if is_in x (area end (e.start + e.size - end) e.type)
        then e.type
        else t)
      ≡ (if is_in x a then a.type else if is_in x e then e.type else t)
trimmed x end a e t l m sum r = ground (arith, l, m, sum, r)

not_leb : (m n : ℕ) → leb m n ≡ false → n < m
not_leb m n h = ground arith

-- The new area ends inside an area that it reaches.
reaches :
    (k x end : ℕ) (a e : Area) (es : List Area)
    → a.start + a.size ≡ end
    → a.start ≤ e.start
    → e.start + e.size < 2 ^ 64
    → IsSorted (e.start + e.size) es
    → k + length (e ∷ es) < 32
    → e.start ≤ end
    → end < end_of e
    → type_at
        (if a.type == e.type
          then insert_new k (area a.start ((a.size + (end_of e - end)) % 2 ^ 64) a.type) es
          else insert_new k a (area end (end_of e - end) e.type ∷ es))
        x
      ≡ (if is_in x a then a.type else type_at (e ∷ es) x)
reaches k x end a e es sum le small s room m lt = elim (Bool-cases (a.type == e.type)) [
  | inl t ↦
      ap (λ l. type_at l x) (if_true (a.type == e.type) _ _ t)
      ∙ (insert_new-type_at k x (area a.start n a.type) es
            (subst (λ b. IsSorted b es) (sym to_end) s) (omega (arith, room))
          ∙ joined x n a e (type_at es x) le (omega (arith, m, sum)) to_end
              (omega (arith, sum, lt, end_of-eq e small)) ((==_iff a.type e.type).0 t))
  | inr t ↦
      ap (λ l. type_at l x) (if_false (a.type == e.type) _ _ t)
      ∙ (insert_new-type_at k x a (area end (end_of e - end) e.type ∷ es)
            (
              omega (arith, sum),
              omega (arith, lt, end_of-eq e small, small),
              subst (λ b. IsSorted b es) (omega (arith, lt, end_of-eq e small)) s,
            )
            room
          ∙ (ap
                (λ z.
                  if is_in x a
                  then a.type
                  else if is_in x (area end (z - end) e.type)
                  then e.type
                  else type_at es x)
                (end_of-eq e small)
              ∙ trimmed x end a e (type_at es x) le m sum (omega (arith, lt, end_of-eq e small))))
]
  where
    n : ℕ
    n = (a.size + (end_of e - end)) % 2 ^ 64

    to_end : a.start + n ≡ e.start + e.size
    to_end = omega (arith, sum, lt, end_of-eq e small, small)

pub overlap-type_at :
    (k x end : ℕ) (a : Area) (es : List Area)
    → a.start + a.size ≡ end
    → end < 2 ^ 64
    → IsSorted a.start es
    → k + length es < 32
    → type_at (overlap k a end es) x ≡ (if is_in x a then a.type else type_at es x)
unfolding overlap
overlap-type_at k x end a [] sum top s room = insert_new-type_at k x a [] tt room
overlap-type_at k x end a (e ∷ es) sum top (le, small, s) room =
    elim (Bool-cases (ltb end e.start)) [
      | inl b ↦
          ap (λ l. type_at l x) (if_true (ltb end e.start) _ _ b)
          ∙ insert_new-type_at k x a (e ∷ es) (omega (arith, sum, ltb→lt end e.start b), small, s)
              room
      | inr b ↦
          ap (λ l. type_at l x) (if_false (ltb end e.start) _ _ b)
          ∙ elim (Bool-cases (leb (end_of e) end)) [
            | inl c ↦
                ap (λ l. type_at l x) (if_true (leb (end_of e) end) _ _ c)
                ∙ (overlap-type_at k x end a es sum top
                      (IsSorted-weaken a.start (e.start + e.size) es (omega (arith, le)) s)
                      (omega (arith, room))
                    ∙ covered x a e (type_at es x) le
                        (omega (arith, sum, end_of-eq e small, leb→le (end_of e) end c)))
            | inr c ↦
                ap (λ l. type_at l x) (if_false (leb (end_of e) end) _ _ c)
                ∙ reaches k x end a e es sum le small s room (ltb→le end e.start b)
                    (not_leb (end_of e) end c)
          ]
    ]
