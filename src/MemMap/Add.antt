-- ===== src/MemMap/Add.antt =====
-- bios/seabios/src/memmap.c: the type of every address after `add_e820`.
use coremu.Common.{
  ℕ, suc, ◌+◌, ◌-◌, ◌%◌, ◌^◌, ◌≤◌, ◌<◌, ◌≡◌, sym, ap, ◌∙◌, subst, true, false, List, [], ◌∷◌, leb,
  ltb, ltb→lt, ltb→le, ◌==◌, ==_iff, length, if◌then◌else◌, arith, if_true, if_false, Bool-cases,
  inl, inr,
}
use coremu.MemMap.{Area, area, end_of, insert_e820, overlap, find, add_e820}
use coremu.MemMap.Types.{is_in, type_at, IsSorted, IsSorted-weaken, end_of-eq, overlap-type_at}

before :
    (x : ℕ) (a e : Area) (t : ℕ)
    → e.start + e.size < a.start
    → (if is_in x e then e.type else if is_in x a then a.type else t)
      ≡ (if is_in x a then a.type else if is_in x e then e.type else t)
before x a e t l = ground (arith, l)

merged :
    (x n : ℕ) (a e : Area) (t : ℕ)
    → e.start < a.start
    → a.start ≤ e.start + e.size
    → e.start + n ≡ a.start + a.size
    → a.type ≡ e.type
    → (if is_in x (area e.start n a.type) then a.type else if is_in x e then e.type else t)
      ≡ (if is_in x a then a.type else if is_in x e then e.type else t)
merged x n a e t l m sum same = ground (arith, l, m, sum, same)

split :
    (x end : ℕ) (a e : Area) (t : ℕ)
    → e.start < a.start
    → a.start + a.size ≡ end
    → end < e.start + e.size
    → (if is_in x (area e.start (a.start - e.start) e.type)
        then e.type
        else if is_in x a
        then a.type
        else if is_in x (area end (e.start + e.size - end) e.type)
        then e.type
        else t)
      ≡ (if is_in x a then a.type else if is_in x e then e.type else t)
split x end a e t l sum r = ground (arith, l, sum, r)

shortened :
    (x : ℕ) (a e : Area) (t : ℕ)
    → e.start < a.start
    → a.start ≤ e.start + e.size
    → e.start + e.size ≤ a.start + a.size
    → (if is_in x (area e.start (a.start - e.start) e.type)
        then e.type
        else if is_in x a
        then a.type
        else t)
      ≡ (if is_in x a then a.type else if is_in x e then e.type else t)
shortened x a e t l m r = ground (arith, l, m, r)

-- The new area starts inside an area of another type.
inside :
    (k x end : ℕ) (a e : Area) (es : List Area)
    → a.start + a.size ≡ end
    → end < 2 ^ 64
    → e.start + e.size < 2 ^ 64
    → IsSorted (e.start + e.size) es
    → k + length (e ∷ es) < 31
    → e.start < a.start
    → a.start ≤ e.start + e.size
    → type_at
        (area e.start (a.start - e.start) e.type
          ∷ (if ltb end (end_of e)
              then overlap (suc k) a end (insert_e820 (suc k) (area end (end_of e - end) e.type) es)
              else overlap (suc k) a end es))
        x
      ≡ (if is_in x a then a.type else type_at (e ∷ es) x)
unfolding insert_e820
inside k x end a e es sum top small s room l m = elim (Bool-cases (ltb end (end_of e))) [
  | inl b ↦
      ap (λ r. type_at (head ∷ r) x) (if_true (ltb end (end_of e)) _ _ b)
      ∙ (ap (λ r. type_at (head ∷ overlap (suc k) a end r) x)
            (if_false (leb 32 (suc k + length es)) _ _ few)
          ∙ (ap (λ y. type_at (head ∷ overlap (suc k) a end (area end (y - end) e.type ∷ es)) x)
                (end_of-eq e small)
              ∙ (ap (λ t. if is_in x head then e.type else t)
                    (overlap-type_at (suc k) x end a (area end (e.start + e.size - end) e.type ∷ es)
                      sum top
                      (
                        omega (arith, sum),
                        omega (arith, over b, small),
                        subst (λ c. IsSorted c es) (omega (arith, over b)) s,
                      )
                      (omega (arith, room)))
                  ∙ split x end a e (type_at es x) l sum (over b))))
  | inr b ↦
      ap (λ r. type_at (head ∷ r) x) (if_false (ltb end (end_of e)) _ _ b)
      ∙ (ap (λ t. if is_in x head then e.type else t)
            (overlap-type_at (suc k) x end a es sum top
              (IsSorted-weaken a.start (e.start + e.size) es m s) (omega (arith, room)))
          ∙ shortened x a e (type_at es x) l m
              (omega (arith, sum, end_of-eq e small, ltb→le end (end_of e) b)))
]
  where
    head : Area
    head = area e.start (a.start - e.start) e.type

    few : leb 32 (suc k + length es) ≡ false
    few = ground (arith, room)

    over : ltb end (end_of e) ≡ true → end < e.start + e.size
    over b = omega (arith, end_of-eq e small, ltb→lt end (end_of e) b)

find-type_at :
    (k x end b : ℕ) (a : Area) (es : List Area)
    → a.start + a.size ≡ end
    → end < 2 ^ 64
    → IsSorted b es
    → k + length es < 31
    → type_at (find k a end es) x ≡ (if is_in x a then a.type else type_at es x)
unfolding find
find-type_at k x end b a [] sum top s room =
    overlap-type_at k x end a [] sum top tt (omega (arith, room))
find-type_at k x end b a (e ∷ es) sum top (le, small, s) room =
    elim (Bool-cases (ltb (end_of e) a.start)) [
      | inl c ↦
          ap (λ l. type_at l x) (if_true (ltb (end_of e) a.start) _ _ c)
          ∙ (ap (λ t. if is_in x e then e.type else t)
                (find-type_at (suc k) x end (e.start + e.size) a es sum top s (omega (arith, room)))
              ∙ before x a e (type_at es x)
                  (omega (arith, end_of-eq e small, ltb→lt (end_of e) a.start c)))
      | inr c ↦
          let m : a.start ≤ e.start + e.size =
            omega (arith, end_of-eq e small, ltb→le (end_of e) a.start c) in
          ap (λ l. type_at l x) (if_false (ltb (end_of e) a.start) _ _ c)
          ∙ elim (Bool-cases (ltb e.start a.start)) [
            | inl d ↦
                let l : e.start < a.start = ltb→lt e.start a.start d in
                ap (λ r. type_at r x) (if_true (ltb e.start a.start) _ _ d)
                ∙ elim (Bool-cases (a.type == e.type)) [
                  | inl t ↦
                      ap (λ r. type_at r x) (if_true (a.type == e.type) _ _ t)
                      ∙ (overlap-type_at k x end
                            (area e.start ((a.size + (a.start - e.start)) % 2 ^ 64) a.type) (e ∷ es)
                            (omega (arith, l, sum, top)) top (omega arith, small, s)
                            (omega (arith, room))
                          ∙ merged x ((a.size + (a.start - e.start)) % 2 ^ 64) a e (type_at es x) l
                              m (omega (arith, l, sum, top)) ((==_iff a.type e.type).0 t))
                  | inr t ↦
                      ap (λ r. type_at r x) (if_false (a.type == e.type) _ _ t)
                      ∙ inside k x end a e es sum top small s room l m
                ]
            | inr d ↦
                ap (λ r. type_at r x) (if_false (ltb e.start a.start) _ _ d)
                ∙ overlap-type_at k x end a (e ∷ es) sum top (ltb→le e.start a.start d, small, s)
                    (omega (arith, room))
          ]
    ]

-- On a sorted map of disjoint areas with room for two more, `add_e820` of an area that ends below 2^64
-- gives every address of the area the new type and leaves the type of every other address alone.
pub add_e820-type_at :
    (start size type b x : ℕ) (list : List Area)
    → IsSorted b list
    → length list < 31
    → start + size < 2 ^ 64
    → type_at (add_e820 start size type list) x
      ≡ (if is_in x (area start size type) then type else type_at list x)
unfolding add_e820
add_e820-type_at start size type b x list s room top = elim (Bool-cases (size == 0)) [
  | inl z ↦
      ap (λ l. type_at l x) (if_true (size == 0) _ _ z)
      ∙ sym (if_false (is_in x (area start size type)) type (type_at list x) (ground (arith, z)))
  | inr z ↦
      ap (λ l. type_at l x) (if_false (size == 0) _ _ z)
      ∙ find-type_at 0 x ((start + size) % 2 ^ 64) b (area start size type) list
          (omega (arith, top)) (omega (arith, top)) s (omega (arith, room))
]
