-- ===== src/Chain.antt =====
-- The linked nodes of main/lock-queue.c and main/ms-queue.c in memory, and what linking and freeing
-- do to them. A cell is a node's address and the rest of its contents, and `mk` is the node with a
-- successor and those contents.
use coremu.Common.{
  ◌≡◌, ◌≢◌, refl, sym, subst, Bool-cases, inl, inr, ==_iff, Bool, true, false, ◌||◌, List, [], ◌∷◌,
  ◌++◌, Option, none, some, arith, ◌==◌,
}
use coremu.Memory.{Ptr, null, Mem, write, Points}

-- Address and contents of each node in order.
abbrev pub Cells : Type 0 → Type 0
Cells A = List (Ptr × A)

module _ {A : Type 0} where
  abbrev pub first : Cells A → Ptr
  first [] = null
  first ((p, _) ∷ _) = p

  -- The last of a cell and those after it.
  abbrev pub last : Ptr × A → Cells A → Ptr × A
  last c [] = c
  last _ (c ∷ xs) = last c xs

  abbrev pub has : Ptr → Cells A → Bool
  has a [] = false
  has a ((p, _) ∷ xs) = (a == p) || has a xs

  pub has-last : (p : Ptr) (v : A) (xs : Cells A) → has (last (p, v) xs).0 ((p, v) ∷ xs) ≡ true
  has-last p v [] = ground arith
  has-last p v ((q, w) ∷ xs) = ground (arith, has-last q w xs)

  pub has-append : (a : Ptr) (xs ys : Cells A) → has a (xs ++ ys) ≡ (has a xs || has a ys)
  has-append a [] ys = refl
  has-append a ((p, v) ∷ xs) ys = ground (arith, has-append a xs ys)

  pub ne_of_has : (a b : Ptr) (xs : Cells A) → has a xs ≡ false → has b xs ≡ true → (a == b) ≡ false
  ne_of_has a b xs out into = elim (Bool-cases (a == b)) [
    | inl e ↦ cc (sym out, subst (λ c. has c xs ≡ true) (sym ((==_iff a b).0 e)) into)
    | inr ne ↦ ne
  ]

  pub last-append : (c : Ptr × A) (xs : Cells A) (e : Ptr × A) → last c (xs ++ e ∷ []) ≡ e
  last-append c [] e = refl
  last-append c (x ∷ xs) e = last-append x xs e

module _ {A C : Type 0} (mk : Ptr → A → C) where
  -- The cells stand in memory, each with the address of the one behind it, at distinct addresses.
  abbrev pub Chain : Mem C → Cells A → Type 0
  Chain m [] = Unit
  Chain m ((p, v) ∷ xs) =
      (p ≢ null) × (m p ≡ some (mk (first xs) v)) × (has p xs ≡ false) × Chain m xs

  -- A write elsewhere changes nothing.
  pub Chain-write :
      (m : Mem C) (a : Ptr) (c : Option C) (xs : Cells A)
      → has a xs ≡ false
      → Chain m xs
      → Chain (write m a c) xs
  Chain-write m a c [] out ch = tt
  Chain-write m a c ((p, v) ∷ xs) out (ne, at, apart, ch) =
      (ne, ground arith, apart, Chain-write m a c xs (ground arith) ch)

  -- The last cell has no successor.
  pub Points-last :
      (m : Mem C) (p : Ptr) (v : A) (xs : Cells A)
      → Chain m ((p, v) ∷ xs)
      → Points m (last (p, v) xs).0 (mk null (last (p, v) xs).1)
  Points-last m p v [] (ne, at, apart, ch) = record { ne_null = ne; holds = at }
  Points-last m p v ((q, w) ∷ xs) (ne, at, apart, ch) = Points-last m q w xs ch

  -- Linking the mk `n` behind the last one.
  pub Chain-link :
      (m : Mem C) (p : Ptr) (v : A) (xs : Cells A) (n : Ptr) (w : A)
      → Chain m ((p, v) ∷ xs)
      → Points m n (mk null w)
      → has n ((p, v) ∷ xs) ≡ false
      → Chain
          (write m (last (p, v) xs).0 (some (mk n (last (p, v) xs).1)))
          ((p, v) ∷ (xs ++ (n, w) ∷ []))
  Chain-link m p v [] n w (ne, at, apart, ch) new out =
      (ne, ground arith, ground arith, (new.ne_null, ground (arith, new.holds), refl, tt))
  Chain-link m p v ((q, u) ∷ xs) n w (ne, at, apart, ch) new out = (
    ne,
    rw (ne_of_has p _ ((q, u) ∷ xs) apart (has-last q u xs)) at,
    ground (arith, has-append p ((q, u) ∷ xs) ((n, w) ∷ [])),
    Chain-link m q u xs n w ch new (ground arith),
  )

  pub not-has_of_none :
      (m : Mem C) (a : Ptr) (xs : Cells A) → Chain m xs → m a ≡ none → has a xs ≡ false
  not-has_of_none m a [] ch e = refl
  not-has_of_none m a ((p, v) ∷ xs) (ne, at, apart, ch) e =
      ground (arith, not-has_of_none m a xs ch e)
