-- ===== src/Intr/Drain.antt =====
-- main/intr.c: what a core handles when it receives.
use coremu.Common.{
  ℕ, zero, suc, ◌+◌, ◌^◌, ◌<◌, ◌≡◌, refl, false, some, List, [], ◌∷◌, arith, ◌==◌, length, All,
  lt→ltb, set,
}
use coremu.Queue.{QueueImpl}
use coremu.System.{Thread, Cpu, System, coremu_get_core, set_core, coremu_get_core_self}
use coremu.Intr.{coremu_intr_p, coremu_get_intr, receive_loop, coremu_receive_intr}

-- The handler on each interrupt in turn.
unfoldable pub handle_all : {W : Type 0} → (ℕ → W → W) → List ℕ → W → W
handle_all handler [] w = w
handle_all handler (e ∷ es) w = handle_all handler es (handler e w)

-- An interrupt is no NULL pointer.
abbrev pub AreIntrs : List ℕ → Type 0
AreIntrs es = All (λ e. (e == 0) ≡ false) es

module _ (impl : QueueImpl) (W : Type 0) where
  get_intr-empty :
      (core : Cpu impl W)
      → impl.Holds core.intr_queue []
      → coremu_get_intr impl W core ≡ some (0, core)
  unfolding coremu_get_intr coremu_intr_p
  get_intr-empty core h = rw (impl.size-Holds core.intr_queue [] h (omega arith)) refl

  get_intr-oldest :
      (core : Cpu impl W) (e : ℕ) (es : List ℕ)
      → impl.Holds core.intr_queue (e ∷ es)
      → length es + 1 < 2 ^ 63
      → (q : impl.Queue) × (coremu_get_intr impl W core ≡ some (e, record core { intr_queue = q }))
        × impl.Holds q es
  unfolding coremu_get_intr coremu_intr_p
  get_intr-oldest core e es h small =
      let (q, took, rest) = impl.dequeue-Holds core.intr_queue e es h small in
      let some_size = impl.size-Holds core.intr_queue (e ∷ es) h (omega arith) in
      (q, rw (some_size, took, lt→ltb 0 (suc (length es) + 0) (omega arith)) refl, rest)

  receive_loop-drains :
      (fuel : ℕ) (handler : ℕ → W → W) (core : Cpu impl W) (w : W) (es : List ℕ)
      → impl.Holds core.intr_queue es
      → AreIntrs es
      → length es < 2 ^ 63
      → length es < fuel
      → (q : impl.Queue) × (receive_loop impl W fuel handler core w
          ≡ some (record core { intr_queue = q }, handle_all handler es w))
        × impl.Holds q []
  unfolding receive_loop handle_all
  receive_loop-drains zero handler core w es h real small enough = absurd (omega arith)
  receive_loop-drains (suc fuel) handler core w [] h real small enough =
      (core.intr_queue, rw (get_intr-empty core h) refl, h)
  receive_loop-drains (suc fuel) handler core w (e ∷ es) h real small enough =
      let (q, got, holds) = get_intr-oldest core e es h (omega arith) in
      let (q', ran, empty) =
        receive_loop-drains fuel handler (record core { intr_queue = q }) (handler e w) es holds
          real.1 (omega arith) (omega arith) in
      (q', rw (got, real.0, ran) refl, empty)

  -- With a registered handler and more rounds than the queue is long, `coremu_receive_intr` on the
  -- thread's own core returns: the handler has had every pending interrupt once, in the order of
  -- their arrival, the queue is empty, and no other field of the core or of another core has
  -- changed.
  pub receive_intr-drains :
      (fuel : ℕ) (th th' : Thread) (s : System impl W) (i : ℕ) (core : Cpu impl W)
      (handler : ℕ → W → W) (es : List ℕ)
      → coremu_get_core_self impl W th s ≡ some (i, th')
      → coremu_get_core impl W i s ≡ some core
      → s.event_handler ≡ some handler
      → impl.Holds core.intr_queue es
      → AreIntrs es
      → length es < 2 ^ 63
      → length es < fuel
      → (q : impl.Queue) × (coremu_receive_intr impl W fuel th s
          ≡ some (
            th',
            record (set_core impl W i (record core { intr_queue = q }) s) {
              guest = handle_all handler es s.guest;
            },
          ))
        × impl.Holds q []
  unfolding coremu_receive_intr
  receive_intr-drains fuel th th' s i core handler es self at set h real small enough =
      let (q, ran, empty) = receive_loop-drains fuel handler core s.guest es h real small enough in
      (q, rw self (simp (set, at, ran)), empty)
