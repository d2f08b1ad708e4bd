-- ===== src/Malloc/Race.antt =====
-- main/malloc-helper.c: who wins when several callers allocate for the same pointer.
use coremu.Common.{
  ◌≡◌, ◌≢◌, refl, fun_ext, Bool, true, false, List, [], ◌∷◌, none, some, map, arith, ◌==◌,
}
use coremu.Memory.{
  Ptr, null, Store, Cmd, ok, aborted, pure, ◌>>=◌, write, Points, not_null, free-ok,
}
use coremu.Malloc.{
  mallocz-ok, oom_check, coremu_malloc, coremu_mallocz, coremu_free, coremu_atomic_mallocz,
}

module _ {C : Type 0} (junk zero : C) where
  -- `p` is an address that malloc may return: neither NULL nor in use.
  pub record IsNew (s : Store C Ptr) (p : Ptr) : Type 0 where
    pub ne_null : p ≢ null
    pub unused : s.mem p ≡ none

  -- The store after the call that finds `*pp` NULL.
  abbrev pub won : Ptr → Store C Ptr → Store C Ptr
  won p s = record { mem = write s.mem p (some zero); glob = p }

  atomic_mallocz-won :
      (s : Store C Ptr) (p : Ptr)
      → p ≢ null
      → s.glob ≡ null
      → coremu_atomic_mallocz p junk zero s ≡ ok true (won p s)
  unfolding coremu_atomic_mallocz
  atomic_mallocz-won s p ne e = rw (mallocz-ok s p ne junk zero, e)

  coremu_free_new :
      (s : Store C Ptr) (p : Ptr)
      → IsNew s p
      → coremu_free p (record s { mem = write s.mem p (some zero) }) ≡ ok tt s
  unfolding coremu_free
  coremu_free_new s p new =
      let placed : Store C Ptr = record s { mem = write s.mem p (some zero) } in
      let points : Points placed.mem p zero = record {
        ne_null = new.ne_null;
        holds = ground arith;
      } in
      let back : write placed.mem p none ≡ s.mem = fun_ext λ a. ground (arith, new.unused) in
      rw (not_null points, free-ok placed points, back) refl

  atomic_mallocz-lost :
      (s : Store C Ptr) (p : Ptr)
      → IsNew s p
      → s.glob ≢ null
      → coremu_atomic_mallocz p junk zero s ≡ ok false s
  unfolding coremu_atomic_mallocz
  atomic_mallocz-lost s p new ne =
      let taken : (s.glob == null) ≡ false = ground arith in
      rw (mallocz-ok s p new.ne_null junk zero, taken, coremu_free_new s p new) refl

  -- Calls for the same pointer, in the order of their compare-exchanges.
  unfoldable pub race : List Ptr → Cmd C Ptr (List Bool)
  race [] = pure []
  race (p ∷ ps) = do b ← coremu_atomic_mallocz p junk zero; bs ← race ps; pure (b ∷ bs)

  abbrev pub AllNew : Store C Ptr → List Ptr → Type 0
  AllNew s [] = Unit
  AllNew s (p ∷ ps) = IsNew s p × AllNew s ps

  race-lost :
      (s : Store C Ptr) (ps : List Ptr)
      → s.glob ≢ null
      → AllNew s ps
      → race ps s ≡ ok (map (λ _. false) ps) s
  unfolding race
  race-lost s [] ne new = refl
  race-lost s (p ∷ ps) ne new = rw (atomic_mallocz-lost s p new.0 ne, race-lost s ps ne new.1) refl

  -- Of the callers that find `*pp` NULL and get new blocks, exactly the first installs its block,
  -- zeroed, and returns 1; every other returns 0 and has freed its block again: memory and `*pp`
  -- are as the first left them.
  race-first :
      (s : Store C Ptr) (p : Ptr) (ps : List Ptr)
      → s.glob ≡ null
      → p ≢ null
      → AllNew (won p s) ps
      → race (p ∷ ps) s ≡ ok (true ∷ map (λ _. false) ps) (won p s)
  unfolding race
  race-first s p ps e ne new = rw (atomic_mallocz-won s p ne e, race-lost (won p s) ps ne new) refl

  -- When memory is exhausted the call aborts, whatever `*pp` is.
  pub atomic_mallocz-exhausted :
      (s : Store C Ptr) → coremu_atomic_mallocz null junk zero s ≡ aborted
  unfolding coremu_atomic_mallocz coremu_mallocz coremu_malloc oom_check
  atomic_mallocz-exhausted s = refl
