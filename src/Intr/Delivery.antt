-- ===== src/Intr/Delivery.antt =====
-- main/intr.c: a sent interrupt reaches its core's queue, and when a signal goes with it.
use coremu.Common.{
  ℕ, zero, suc, ◌+◌, ◌^◌, ◌<◌, ◌≡◌, ◌≢◌, refl, sym, ap, ◌∙◌, true, false, some, List, [], ◌∷◌, ◌++◌,
  arith, ◌==◌, length, get_elem?, set, get_elem?-set_self, get_elem?-set_ne, if_true, Bool-cases,
  inl, inr, some_inj,
}
use coremu.Common.Int.{ℤ}
use coremu.Types.{Core}
use coremu.Queue.{QueueImpl}
use coremu.System.{
  Thread, Cpu, System, coremu_get_core, set_core, coremu_get_core_self, find_thread,
  coremu_hw_thr_p,
}
use coremu.Intr.{
  raise, coremu_intr_get_size, coremu_put_intr, signalled, coremu_send_signal, wake,
  coremu_send_intr,
}

pub raise-queue :
    {Q : Type 0} (n : ℤ) (core : Core Q) → (raise n core).0.intr_queue ≡ core.intr_queue
unfolding raise
raise-queue n core = ground arith

pub raise-thread : {Q : Type 0} (n : ℤ) (core : Core Q) → (raise n core).0.thread ≡ core.thread
unfolding raise
raise-thread n core = ground arith

get_elem?-lt {ℓ} :
    {A : Type ℓ} (xs : List A) (i : ℕ) {v : A} → get_elem? xs i ≡ some v → i < length xs
get_elem?-lt [] i e = cc
get_elem?-lt (x ∷ xs) zero e = omega arith
get_elem?-lt (x ∷ xs) (suc i) e = omega (arith, get_elem?-lt xs i e)

module _ (impl : QueueImpl) (W : Type 0) where
  find_thread-set :
      (t n : ℕ) (cores : List (Cpu impl W)) (i : ℕ) {core : Cpu impl W} (core' : Cpu impl W)
      → get_elem? cores i ≡ some core
      → core'.thread ≡ core.thread
      → find_thread impl W t n (set cores i core') ≡ find_thread impl W t n cores
  unfolding find_thread
  find_thread-set t n [] i core' at same = refl
  find_thread-set t n (c ∷ cores) zero core' at same =
      rw (same ∙ ap (λ (d : Cpu impl W). d.thread) (sym (some_inj at))) refl
  find_thread-set t n (c ∷ cores) (suc i) core' at same =
      rw (find_thread-set t (suc n) cores i core' at same) refl

  -- The queue of a core, and the other cores, after a call.
  pub record Puts (i : ℕ) (es : List ℕ) (s s' : System impl W) : Type 0 where
    pub core : Cpu impl W
    pub at : coremu_get_core impl W i s' ≡ some core
    pub holds : impl.Holds core.intr_queue es
    pub others : (j : ℕ) → i ≢ j → coremu_get_core impl W j s' ≡ coremu_get_core impl W j s

  -- The thread may wake a core: it is the hardware thread, or it has a core and, if that is the one
  -- to wake, a notifier is registered.
  pub data MayWake (i : ℕ) (th : Thread) (s : System impl W) : Type 0 where
    hardware : coremu_hw_thr_p impl W th s ≡ true → MayWake i th s
    other :
        (self : ℕ) (th' : Thread)
        → coremu_hw_thr_p impl W th s ≡ false
        → coremu_get_core_self impl W th s ≡ some (self, th')
        → (i == self) ≡ false
        → MayWake i th s
    own :
        (self : ℕ) (th' : Thread) (notify : W → W)
        → coremu_hw_thr_p impl W th s ≡ false
        → coremu_get_core_self impl W th s ≡ some (self, th')
        → (i == self) ≡ true
        → s.event_notifier ≡ some notify
        → MayWake i th s

  send_signal-Puts :
      (i : ℕ) (s : System impl W) (core : Cpu impl W) (es : List ℕ)
      → coremu_get_core impl W i s ≡ some core
      → impl.Holds core.intr_queue es
      → (s' : System impl W) × (coremu_send_signal impl W i s ≡ some s') × Puts i es s s'
  unfolding coremu_send_signal
  send_signal-Puts i s core es at holds = (
    signalled impl W i core s,
    rw at refl,
    record {
      core = (raise (coremu_intr_get_size impl W core) core).0;
      at = get_elem?-set_self s.cm_cores i _ (get_elem?-lt s.cm_cores i at);
      holds = rw (raise-queue (coremu_intr_get_size impl W core) core) holds;
      others = λ j ne. get_elem?-set_ne s.cm_cores i j _ ne;
    },
  )

  wake-Puts :
      (i : ℕ) (th : Thread) (s : System impl W) (core : Cpu impl W) (es : List ℕ)
      → MayWake i th s
      → coremu_get_core impl W i s ≡ some core
      → impl.Holds core.intr_queue es
      → (th' : Thread) × (s' : System impl W) × (wake impl W i th s ≡ some (th', s'))
        × Puts i es s s'
  unfolding wake
  wake-Puts i th s core es (hardware hw) at holds =
      let (s', sent, puts) = send_signal-Puts i s core es at holds in
      (th, s', rw (hw, sent) refl, puts)
  wake-Puts i th s core es (other self th' hw found ne) at holds =
      let (s', sent, puts) = send_signal-Puts i s core es at holds in
      (th', s', rw (hw, found, ne, sent) refl, puts)
  wake-Puts i th s core es (own self th' notify hw found eq registered) at holds = (
    th',
    record s { guest = notify s.guest },
    rw (hw, found, eq) (simp registered),
    record { core = core; at = at; holds = holds; others = λ j ne. refl },
  )

  get_core_self-set :
      (th : Thread) (s : System impl W) (i : ℕ) {core : Cpu impl W} (q : impl.Queue)
      → coremu_get_core impl W i s ≡ some core
      → coremu_get_core_self impl W th (set_core impl W i (record core { intr_queue = q }) s)
        ≡ coremu_get_core_self impl W th s
  unfolding coremu_get_core_self
  get_core_self-set th s i {core} q at = elim (Bool-cases (th.self == s.hw_thrid)) [
    | inl hw ↦ rw hw
    | inr hw ↦
        rw (hw, find_thread-set th.self 0 s.cm_cores i (record core { intr_queue = q }) at refl)
  ]

  -- The queue of the target changes, and nothing that a thread needs to wake it.
  MayWake-set :
      (i : ℕ) (th : Thread) (s : System impl W) {core : Cpu impl W} (q : impl.Queue)
      → coremu_get_core impl W i s ≡ some core
      → MayWake i th s
      → MayWake i th (set_core impl W i (record core { intr_queue = q }) s)
  unfolding coremu_hw_thr_p
  MayWake-set i th s q at (hardware hw) = hardware hw
  MayWake-set i th s {core} q at (other self th' hw found ne) =
      other self th' hw (get_core_self-set th s i q at ∙ found) ne
  MayWake-set i th s {core} q at (own self th' notify hw found eq registered) =
      own self th' notify hw (get_core_self-set th s i q at ∙ found) eq registered

  pub send_intr-Puts :
      (fresh e i : ℕ) (th : Thread) (s : System impl W) (core : Cpu impl W) (es : List ℕ)
      → e ≢ 0
      → s.init_done ≡ true
      → coremu_get_core impl W i s ≡ some core
      → impl.Holds core.intr_queue es
      → impl.IsRoom fresh core.intr_queue
      → length es + 1 < 2 ^ 63
      → MayWake i th s
      → (th' : Thread) × (s' : System impl W) × (coremu_send_intr impl W fresh e i th s
          ≡ some (th', s'))
        × Puts i (es ++ e ∷ []) s s'
  unfolding coremu_send_intr coremu_put_intr
  send_intr-Puts fresh e i th s core es ne done at holds room small may =
      let (q, put, held) = impl.enqueue-Holds core.intr_queue es fresh e holds room small in
      let queued : Cpu impl W = record core { intr_queue = q } in
      let at' = get_elem?-set_self s.cm_cores i queued (get_elem?-lt s.cm_cores i at) in
      let (th', s', woke, puts) =
        wake-Puts i th (set_core impl W i queued s) queued (es ++ e ∷ [])
          (MayWake-set i th s q at may) at' held in
      let nonzero : (e == 0) ≡ false = ground arith in
      (
        th',
        s',
        rw (nonzero, if_true s.init_done _ _ done, at, put, woke) refl,
        record {
          core = puts.core;
          at = puts.at;
          holds = puts.holds;
          others = λ j apart. puts.others j apart ∙ get_elem?-set_ne s.cm_cores i j queued apart;
        },
      )
