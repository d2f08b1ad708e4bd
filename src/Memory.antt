-- ===== src/Memory.antt =====
-- Memory as the C code sees it: cells at addresses, the globals beside them, and commands that read
-- and write both. What malloc returns is an argument of the command that calls it.
use coremu.Common.{ℕ, false, ◌≡◌, ◌≢◌, Option, none, some, arith, fun_ext, ◌==◌, if◌then◌else◌}

abbrev pub Ptr : Type 0
Ptr = ℕ

abbrev pub null : Ptr
null = 0

-- The cell at each address that is allocated.
abbrev pub Mem : Type 0 → Type 0
Mem C = Ptr → Option C

abbrev pub write : {C : Type 0} → Mem C → Ptr → Option C → Mem C
write m p c a = if a == p then c else m a

pub record Store (C R : Type 0) : Type 0 where
  pub mem : Mem C
  pub glob : R

pub data Run (C R A : Type 0) : Type 0 where
  ok : A → Store C R → Run C R A
  aborted : Run C R A  -- abort() or a failed assert
  fault : Run C R A  -- an access through NULL or to memory that is not allocated
  spinning : Run C R A  -- the fuel of a loop is used up

abbrev pub Cmd : Type 0 → Type 0 → Type 0 → Type 0
Cmd C R A = Store C R → Run C R A

module _ {C R : Type 0} where
  abbrev pub pure : {A : Type 0} → A → Cmd C R A
  pure a s = ok a s

  abbrev pub and_then : {A B : Type 0} → Run C R A → (A → Cmd C R B) → Run C R B
  and_then (ok a s) k = k a s
  and_then aborted k = aborted
  and_then fault k = fault
  and_then spinning k = spinning

  infixl 5 ◌>>=◌ ◌>>◌
  abbrev pub ◌>>=◌ : {A B : Type 0} → Cmd C R A → (A → Cmd C R B) → Cmd C R B
  (m >>= k) s = and_then (m s) k

  abbrev pub ◌>>◌ : {B : Type 0} → Cmd C R (Unit {0}) → Cmd C R B → Cmd C R B
  m >> k = m >>= λ _. k

  -- `*p`.
  unfoldable pub load : Ptr → Cmd C R C
  load p s = if p == null then fault else elim (s.mem p) [ none ↦ fault | some c ↦ ok c s ]

  -- `*p = c`, at an address that is allocated.
  unfoldable pub store : Ptr → C → Cmd C R (Unit {0})
  unfolding load
  store p c = load p >>= λ _ s. ok tt (record s { mem = write s.mem p (some c) })

  unfoldable pub free : Ptr → Cmd C R (Unit {0})
  unfolding load
  free p = load p >>= λ _ s. ok tt (record s { mem = write s.mem p none })

  -- The cell that an allocator puts at a new address.
  abbrev pub place : Ptr → C → Cmd C R (Unit {0})
  place p c s = ok tt (record s { mem = write s.mem p (some c) })

  abbrev pub get : Cmd C R R
  get s = ok s.glob s

  abbrev pub modify : (R → R) → Cmd C R (Unit {0})
  modify f s = ok tt (record s { glob = f s.glob })

-- `p` holds the cell `c`.
pub record Points {C : Type 0} (m : Mem C) (p : Ptr) (c : C) : Type 0 where
  pub ne_null : p ≢ null
  pub holds : m p ≡ some c

pub not_null : {C : Type 0} {m : Mem C} {p : Ptr} {c : C} → Points m p c → (p == null) ≡ false
not_null e = ground (arith, e.ne_null)

module _ {C R : Type 0} (s : Store C R) {p : Ptr} {c : C} (e : Points s.mem p c) where
  pub load-ok : load p s ≡ ok c s
  unfolding load
  load-ok = rw (not_null e, e.holds)

  pub store-ok : (d : C) → store p d s ≡ ok tt (record s { mem = write s.mem p (some d) })
  unfolding store
  store-ok d = rw load-ok

  pub free-ok : free p s ≡ ok tt (record s { mem = write s.mem p none })
  unfolding free
  free-ok = rw load-ok

-- The second of two writes to an address counts.
pub write-write :
    {C : Type 0} (m : Mem C) (p : Ptr) (c d : Option C) → write (write m p c) p d ≡ write m p d
write-write m p c d = fun_ext λ a. ground arith

pub Points-write :
    {C : Type 0} (m : Mem C) (p : Ptr) (c : C) → p ≢ null → Points (write m p (some c)) p c
Points-write m p c ne = record { ne_null = ne; holds = ground arith }
