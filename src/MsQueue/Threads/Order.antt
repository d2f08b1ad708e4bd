-- ===== src/MsQueue/Threads/Order.antt =====
-- main/ms-queue.c run by many threads: the order of the nodes that were ever linked.
use coremu.Common.{
  ℕ, ◌≡◌, ◌≢◌, refl, sym, subst, ◌∙◌, true, false, [], ◌∷◌, ◌++◌, ◌==◌, ==_iff, if◌then◌else◌,
  if_true, if_false, Bool-cases, inl, inr, arith,
}
use coremu.Memory.{Ptr, null}
use coremu.Chain.{Cells, first, has, has-append}

module _ {A : Type 0} where
  pub first-append : (xs ys : Cells A) → first xs ≢ null → first (xs ++ ys) ≡ first xs
  first-append [] ys ne = absurd (ne refl)
  first-append (x ∷ xs) ys ne = refl

  pub has-first : (xs : Cells A) → first xs ≢ null → has (first xs) xs ≡ true
  has-first [] ne = absurd (ne refl)
  has-first ((p, v) ∷ xs) ne = ground arith

-- The node behind a node, NULL behind the last.
abbrev pub next_of : Cells ℕ → Ptr → Ptr
next_of [] a = null
next_of ((p, v) ∷ xs) a = if a == p then first xs else next_of xs a

abbrev pub value_of : Cells ℕ → Ptr → ℕ
value_of [] a = 0
value_of ((p, v) ∷ xs) a = if a == p then v else value_of xs a

-- The nodes are at different addresses.
abbrev pub Apart : Cells ℕ → Type 0
Apart [] = Unit
Apart ((p, v) ∷ xs) = (p ≢ null) × (has p xs ≡ false) × Apart xs

pub Apart-behind : (xs ys : Cells ℕ) → Apart (xs ++ ys) → Apart ys
Apart-behind [] ys ap' = ap'
Apart-behind ((p, v) ∷ xs) ys ap' = Apart-behind xs ys ap'.2

-- A node is not in two parts.
pub Apart-has : (a : Ptr) (xs ys : Cells ℕ) → Apart (xs ++ ys) → has a ys ≡ true → has a xs ≡ false
Apart-has a [] ys ap' into = refl
Apart-has a ((p, v) ∷ xs) ys ap' into =
    let rest = Apart-has a xs ys ap'.2 into in
    elim (Bool-cases (a == p)) [
      | inl e ↦ absurd (
          ground (
            arith,
            has-append p xs ys,
            ap'.1,
            subst (λ c. has c ys ≡ true) ((==_iff a p).0 e) into,
          ))
      | inr ne ↦ ground (arith, ne, rest)
    ]

pub next_of-behind :
    (a : Ptr) (xs ys : Cells ℕ) → has a xs ≡ false → next_of (xs ++ ys) a ≡ next_of ys a
next_of-behind a [] ys out = refl
next_of-behind a ((p, v) ∷ xs) ys out =
    if_false (a == p) _ _ (ground (arith, out)) ∙ next_of-behind a xs ys (ground (arith, out))

first-last :
    (p : Ptr) (v : ℕ) (xs : Cells ℕ) → Apart xs → first xs ≡ null → first (xs ++ (p, v) ∷ []) ≡ p
first-last p v [] ap' e = refl
first-last p v ((q, w) ∷ xs) ap' e = absurd (ap'.0 e)

none_in : (b : Ptr) (xs : Cells ℕ) → Apart xs → first xs ≡ null → has b xs ≡ false
none_in b [] ap' e = refl
none_in b ((q, w) ∷ xs) ap' e = absurd (ap'.0 e)

-- What is behind a node stays behind it.
pub next_of-append :
    (a : Ptr) (xs ys : Cells ℕ) → next_of xs a ≢ null → next_of (xs ++ ys) a ≡ next_of xs a
next_of-append a [] ys ne = absurd (ne refl)
next_of-append a ((p, v) ∷ xs) ys ne = elim (Bool-cases (a == p)) [
  | inl b ↦
      if_true (a == p) _ _ b
      ∙ (first-append xs ys (λ z. ne (if_true (a == p) _ _ b ∙ z)) ∙ sym (if_true (a == p) _ _ b))
  | inr b ↦
      if_false (a == p) _ _ b
      ∙ (next_of-append a xs ys (λ z. ne (if_false (a == p) _ _ b ∙ z))
          ∙ sym (if_false (a == p) _ _ b))
]

-- The new node comes behind the last.
pub next_of-last :
    (a p : Ptr) (v : ℕ) (xs : Cells ℕ)
    → Apart xs
    → has a xs ≡ true
    → next_of xs a ≡ null
    → next_of (xs ++ (p, v) ∷ []) a ≡ p
next_of-last a p v [] ap' into e = cc
next_of-last a p v ((q, w) ∷ xs) ap' into e = elim (Bool-cases (a == q)) [
  | inl b ↦ if_true (a == q) _ _ b ∙ first-last p v xs ap'.2 (sym (if_true (a == q) _ _ b) ∙ e)
  | inr b ↦
      if_false (a == q) _ _ b
      ∙ next_of-last a p v xs ap'.2 (ground (arith, into, b)) (sym (if_false (a == q) _ _ b) ∙ e)
]

pub next_of-new :
    (p : Ptr) (v : ℕ) (xs : Cells ℕ) → has p xs ≡ false → next_of (xs ++ (p, v) ∷ []) p ≡ null
next_of-new p v xs out = next_of-behind p xs ((p, v) ∷ []) out ∙ if_true (p == p) _ _ (ground arith)

-- Only one node is the last.
pub last_unique :
    (a b : Ptr) (xs : Cells ℕ)
    → Apart xs
    → has a xs ≡ true
    → has b xs ≡ true
    → next_of xs a ≡ null
    → next_of xs b ≡ null
    → a ≡ b
last_unique a b [] ap' ha hb ea eb = cc
last_unique a b ((q, w) ∷ xs) ap' ha hb ea eb = elim (Bool-cases (a == q)) [
  | inl x ↦ elim (Bool-cases (b == q)) [
    | inl y ↦ ground (arith, x, y)
    | inr y ↦ absurd (ground (arith, hb, y, none_in b xs ap'.2 (sym (if_true (a == q) _ _ x) ∙ ea)))
  ]
  | inr x ↦ elim (Bool-cases (b == q)) [
    | inl y ↦ absurd (ground (arith, ha, x, none_in a xs ap'.2 (sym (if_true (b == q) _ _ y) ∙ eb)))
    | inr y ↦
        last_unique a b xs ap'.2 (ground (arith, ha, x)) (ground (arith, hb, y))
          (sym (if_false (a == q) _ _ x) ∙ ea) (sym (if_false (b == q) _ _ y) ∙ eb)
  ]
]

-- The node behind one of a part that begins with `d` is behind `d`.
pub has-next :
    (a d : Ptr) (v : ℕ) (xs : Cells ℕ)
    → has a ((d, v) ∷ xs) ≡ true
    → next_of ((d, v) ∷ xs) a ≢ null
    → has (next_of ((d, v) ∷ xs) a) xs ≡ true
has-next a d v [] into ne = absurd (ne (ground arith))
has-next a d v ((q, w) ∷ xs) into ne = elim (Bool-cases (a == d)) [
  | inl b ↦ ground (arith, b)
  | inr b ↦
      let e = if_false (a == d) q (next_of ((q, w) ∷ xs) a) b in
      let rest = has-next a q w xs (ground (arith, into, b)) (λ z. ne (e ∙ z)) in
      subst (λ c. has c ((q, w) ∷ xs) ≡ true) (sym e) (ground (arith, rest))
]

pub value_of-append :
    (a : Ptr) (xs ys : Cells ℕ) → has a xs ≡ true → value_of (xs ++ ys) a ≡ value_of xs a
value_of-append a [] ys into = cc
value_of-append a ((p, v) ∷ xs) ys into = elim (Bool-cases (a == p)) [
  | inl b ↦ ground (arith, b)
  | inr b ↦ ground (arith, b, value_of-append a xs ys (ground (arith, into, b)))
]

pub value_of-behind :
    (a : Ptr) (xs ys : Cells ℕ) → has a xs ≡ false → value_of (xs ++ ys) a ≡ value_of ys a
value_of-behind a [] ys out = refl
value_of-behind a ((p, v) ∷ xs) ys out =
    if_false (a == p) _ _ (ground (arith, out)) ∙ value_of-behind a xs ys (ground (arith, out))

pub Apart-add :
    (p : Ptr) (v : ℕ) (xs : Cells ℕ)
    → Apart xs
    → p ≢ null
    → has p xs ≡ false
    → Apart (xs ++ (p, v) ∷ [])
Apart-add p v [] ap' ne out = (ne, refl, tt)
Apart-add p v ((q, w) ∷ xs) ap' ne out = (
  ap'.0,
  has-append q xs ((p, v) ∷ []) ∙ ground (arith, ap'.1, out),
  Apart-add p v xs ap'.2 ne (ground (arith, out)),
)
