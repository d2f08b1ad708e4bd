-- ===== src/Malloc.antt =====
-- main/malloc-helper.c: allocation that aborts when memory is exhausted.
pub mod Race
mod Tests
use coremu.Common.{ℕ, ◌≡◌, ◌≢◌, refl, fun_ext, Bool, false, some, arith, ◌==◌, if◌then◌else◌}
use coremu.Memory.{
  load, Store, ok, write, Points, store-ok, Ptr, null, Cmd, aborted, pure, ◌>>=◌, ◌>>◌, place,
  store, free, get, modify,
}

module _ {C R : Type 0} where
  -- malloc(): `p` is the address that it returns, `junk` what the new block holds.
  abbrev pub malloc : Ptr → C → Cmd C R Ptr
  malloc p junk = if p == null then pure null else (place p junk >> pure p)

  unfoldable pub oom_check : Ptr → Cmd C R Ptr
  oom_check ptr s = if ptr == null then aborted else pure ptr s

  unfoldable pub coremu_malloc : Ptr → C → Cmd C R Ptr
  unfolding oom_check
  coremu_malloc p junk = malloc p junk >>= oom_check

  -- `zero` is the block with every byte 0.
  unfoldable pub coremu_mallocz : Ptr → C → C → Cmd C R Ptr
  unfolding coremu_malloc
  coremu_mallocz p junk zero = do q ← coremu_malloc p junk; store q zero; pure q

  unfoldable pub coremu_free : Ptr → Cmd C R (Unit {0})
  coremu_free p = if p == null then pure tt else free p

  -- realloc(): the contents move to the address `p` that it returns, or stay when that is NULL.
  abbrev pub realloc : Ptr → Ptr → C → Cmd C R Ptr
  realloc ptr p junk =
      if p == null
      then pure null
      else if ptr == null
      then (place p junk >> pure p)
      else (do c ← load ptr; free ptr; place p c; pure p)

  unfoldable pub coremu_realloc : Ptr → Ptr → C → Cmd C R Ptr
  unfolding oom_check
  coremu_realloc ptr p junk = realloc ptr p junk >>= oom_check

-- `coremu_atomic_mallocz(pp, size)`; the global is `*pp`, and the result is the C function's.
unfoldable pub coremu_atomic_mallocz : {C : Type 0} → Ptr → C → C → Cmd C Ptr Bool
coremu_atomic_mallocz p junk zero = do
  q ← coremu_mallocz p junk zero
  res ← get
  modify (λ old. if old == null then q else old)
  (if res == null then pure tt else coremu_free q)
  pure (res == null)

-- A call with a new address gives a cleared block.
pub mallocz-ok :
    {C R : Type 0} (s : Store C R) (p : Ptr)
    → p ≢ null
    → (junk zero : C)
    → coremu_mallocz p junk zero s ≡ ok p (record s { mem = write s.mem p (some zero) })
unfolding coremu_mallocz
mallocz-ok {C} {R} s p ne junk zero =
    let same : write (write s.mem p (some junk)) p (some zero) ≡ write s.mem p (some zero) =
      fun_ext λ a. ground arith in
    let live : (p == null) ≡ false = ground arith in
    let placed : Store C R = record s { mem = write s.mem p (some junk) } in
    let points : Points placed.mem p junk = record { ne_null = ne; holds = ground arith } in
    rw (live, live, store-ok placed points zero, same) refl
