-- ===== src/Lifecycle/Boot.antt =====
-- main/core.c: what the cores look like once they have been started.
use coremu.Common.{
  ℕ, zero, suc, ◌+◌, ◌<◌, ◌≡◌, ◌≢◌, refl, ap, ◌∙◌, subst, true, Option, none, some, ◌==◌, arith,
  replicate, length, get_elem?, if_false, ==_ne,
}
use coremu.Queue.{QueueImpl}
use coremu.System.{
  ◌>>=◌, Thread, Cpu, System, coremu_get_core, coremu_get_core_self, coremu_init_hw,
  register_hw_thr, coremu_assert_core_thr,
}
use coremu.Lifecycle.{cleared, coremu_init, coremu_run_all_cores, coremu_init_done_p}
use coremu.Lifecycle.Threads.{create_all-runs, threaded, get_elem?-threaded, find_thread-threaded}
use coremu.Lifecycle.Setup.{init_cores, init_cores-runs, IsReady}

module _ (impl : QueueImpl) (W : Type 0) where
  zero_plus : (i : ℕ) → 0 + i ≡ i
  zero_plus i = omega arith

  length-replicate : (n : ℕ) (a : Cpu impl W) → length (replicate n a) ≡ n
  length-replicate zero a = refl
  length-replicate (suc n) a = ap suc (length-replicate n a)

  init-Cleared :
      (null_queue : impl.Queue) (host block n : ℕ) (th : Thread) (s : System impl W)
      → block ≢ 0
      → (s' : System impl W) × (coremu_init impl W null_queue host block n th s ≡ some s')
        × (length s'.cm_cores ≡ n)
        × (s'.hw_thrid ≡ th.self)
  unfolding coremu_init coremu_init_hw register_hw_thr
  init-Cleared null_queue host block n th s ne = (
    _,
    if_false (block == 0) _ _ (==_ne block 0 ne),
    length-replicate n (cleared impl W null_queue),
    refl,
  )

  -- COREMU's start as an emulator calls it: set up, set up every core, run them.
  unfoldable pub boot :
      impl.Queue
      → ℕ
      → ℕ
      → ℕ
      → Thread
      → (ℕ → ℕ)
      → (ℕ → ℕ)
      → (ℕ → Option ℕ)
      → System impl W
      → Option (System impl W)
  boot null_queue host block n th fresh opaque created s = do
    s1 ← coremu_init impl W null_queue host block n th s
    s2 ← init_cores impl W fresh opaque n s1
    coremu_run_all_cores impl W created s2

  -- A core whose thread `t` runs and finds its own core.
  pub record IsStarted (i opaque t : ℕ) (s : System impl W) : Type 0 where
    pub core : Cpu impl W
    pub at : coremu_get_core impl W i s ≡ some core
    pub ready : IsReady impl W i opaque core
    pub thread : core.thread ≡ t
    pub finds :
        coremu_get_core_self impl W (record { self = t; cm_core_self = none }) s
        ≡ some (i, record { self = t; cm_core_self = some i })

  run_all_cores-IsStarted :
      (opaque : ℕ → ℕ) (created : ℕ → Option ℕ) (t : ℕ → ℕ) (n : ℕ) (s : System impl W)
      → length s.cm_cores ≡ n
      → ((j : ℕ) → j < n → created j ≡ some (t j))
      → ((a b : ℕ) → a < n → b < n → t a ≡ t b → a ≡ b)
      → ((j : ℕ) → j < n → t j ≢ s.hw_thrid)
      → ((j : ℕ)
          → j < n
          → (core : Cpu impl W) × (coremu_get_core impl W j s ≡ some core)
            × IsReady impl W j (opaque j) core)
      → (s' : System impl W) × (coremu_run_all_cores impl W created s ≡ some s')
        × (coremu_init_done_p impl W s' ≡ true)
        × ((i : ℕ) → i < n → IsStarted i (opaque i) (t i) s')
  unfolding coremu_run_all_cores coremu_init_done_p coremu_get_core_self coremu_assert_core_thr
  run_all_cores-IsStarted opaque created t n s len ok inj apart ready =
      let (es, runs) =
        create_all-runs impl W created t 0 s.cm_cores s.effects
          (λ j le lt. ok j (omega (arith, len, lt))) in
      (
        record s { cm_cores = threaded impl W t 0 s.cm_cores; effects = es; init_done = true },
        rw runs refl,
        refl,
        λ i lt.
            let (core, at, is) = ready i lt in
            record {
              core = record core { thread = t i };
              at =
                  subst
                    (λ k.
                      get_elem? (threaded impl W t 0 s.cm_cores) i
                      ≡ some (record core { thread = t k }))
                    (zero_plus i) (get_elem?-threaded impl W t 0 i s.cm_cores at);
              ready = record {
                serial = is.serial;
                empty = is.empty;
                given = is.given;
                running = is.running;
              };
              thread = refl;
              finds =
                  rw
                    (
                      ==_ne (t i) s.hw_thrid (apart i lt),
                      find_thread-threaded impl W t 0 i s.cm_cores
                          (λ a b la lb. inj a b (omega (arith, len, la)) (omega (arith, len, lb)))
                          (omega arith) (omega (arith, len, lt)),
                    )
                    refl;
            },
      )

  -- When no allocation fails and every thread can be created, and the threads are different from each
  -- other and from the hardware thread that makes the calls, COREMU starts: afterwards initialisation
  -- is done, and every core has its number, its CPU state, an empty interrupt queue and the state
  -- CM_STATE_RUN, and its own thread, at first without a cached core, finds it.
  pub boot-IsStarted :
      (null_queue : impl.Queue) (host block n : ℕ) (th : Thread) (fresh opaque : ℕ → ℕ)
      (created : ℕ → Option ℕ) (t : ℕ → ℕ) (s : System impl W)
      → block ≢ 0
      → ((j : ℕ) → j < n → impl.IsNew (fresh j))
      → ((j : ℕ) → j < n → created j ≡ some (t j))
      → ((a b : ℕ) → a < n → b < n → t a ≡ t b → a ≡ b)
      → ((j : ℕ) → j < n → t j ≢ th.self)
      → (s' : System impl W) × (boot null_queue host block n th fresh opaque created s ≡ some s')
        × (coremu_init_done_p impl W s' ≡ true)
        × ((i : ℕ) → i < n → IsStarted i (opaque i) (t i) s')
  unfolding boot
  boot-IsStarted null_queue host block n th fresh opaque created t s ne news ok inj apart =
      let (s1, first, len, hw) = init-Cleared null_queue host block n th s ne in
      let (s2, second, is) = init_cores-runs impl W fresh opaque n s1 news (omega (arith, len)) in
      let (s3, third, done, started) =
        run_all_cores-IsStarted opaque created t n s2 (is.len ∙ len) ok inj
          (λ j lt e. apart j lt (e ∙ (is.hw ∙ hw))) is.ready in
      (s3, rw (first, second, third) refl, done, started)
