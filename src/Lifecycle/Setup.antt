-- ===== src/Lifecycle/Setup.antt =====
-- main/core.c: what `coremu_core_init` sets up.
use coremu.Common.{
  ℕ, zero, suc, ◌<◌, ◌≤◌, ◌≡◌, ◌≢◌, refl, ◌∙◌, subst, Option, some, List, [], ◌∷◌, arith, length,
  get_elem?, get_elem?-set_self, get_elem?-set_ne, length-set, ℕ_discrete,
}
use coremu.Types.{CoreState}
use coremu.Queue.{QueueImpl}
use coremu.System.{◌>>=◌, Cpu, System, coremu_get_core, set_core}
use coremu.Lifecycle.{coremu_core_init}

module _ (impl : QueueImpl) (W : Type 0) where
  -- `coremu_core_init` for the cores before `k`, as an emulator calls it.
  unfoldable pub init_cores : (ℕ → ℕ) → (ℕ → ℕ) → ℕ → System impl W → Option (System impl W)
  init_cores fresh opaque zero s = some s
  init_cores fresh opaque (suc k) s = do
    s' ← init_cores fresh opaque k s
    coremu_core_init impl W (fresh k) k (opaque k) s'

  -- A core that has been set up: nothing is pending.
  pub record IsReady (i : ℕ) (opaque : ℕ) (core : Cpu impl W) : Type 0 where
    pub serial : core.serial ≡ i
    pub empty : impl.Holds core.intr_queue []
    pub given : core.opaque ≡ opaque
    pub running : core.state ≡ CoreState.run

  -- What `coremu_core_init` leaves of the system.
  pub record Inits (id opaque : ℕ) (s s' : System impl W) : Type 0 where
    pub core : Cpu impl W
    pub at : coremu_get_core impl W id s' ≡ some core
    pub ready : IsReady id opaque core
    pub others : (j : ℕ) → id ≢ j → coremu_get_core impl W j s' ≡ coremu_get_core impl W j s
    pub len : length s'.cm_cores ≡ length s.cm_cores
    pub hw : s'.hw_thrid ≡ s.hw_thrid

  get_elem?-below :
      (xs : List (Cpu impl W)) (i : ℕ)
      → i < length xs
      → (c : Cpu impl W) × (get_elem? xs i ≡ some c)
  get_elem?-below [] i l = absurd (omega (arith, l))
  get_elem?-below (x ∷ xs) zero l = (x, refl)
  get_elem?-below (x ∷ xs) (suc i) l = get_elem?-below xs i (omega (arith, l))

  -- `coremu_core_init` of a core in the array, with an address from malloc, sets that core up with an
  -- empty queue and leaves the others alone.
  pub core_init-Inits :
      (fresh id opaque : ℕ) (s : System impl W)
      → id < length s.cm_cores
      → impl.IsNew fresh
      → (s' : System impl W) × (coremu_core_init impl W fresh id opaque s ≡ some s')
        × Inits id opaque s s'
  unfolding coremu_core_init
  core_init-Inits fresh id opaque s l ne =
      let (core, at) = get_elem?-below s.cm_cores id l in
      let (q, made, holds) = impl.new-Holds fresh ne in
      let core' : Cpu impl W = record core {
        serial = id;
        intr_queue = q;
        opaque = opaque;
        state = CoreState.run;
      } in
      (
        set_core impl W id core' s,
        rw (at, made) refl,
        record {
          core = core';
          at = get_elem?-set_self s.cm_cores id core' l;
          ready = record { serial = refl; empty = holds; given = refl; running = refl };
          others = λ j other. get_elem?-set_ne s.cm_cores id j core' other;
          len = length-set s.cm_cores id core';
          hw = refl;
        },
      )

  -- The cores before `k` have been set up.
  pub record Inited (opaque : ℕ → ℕ) (k : ℕ) (s s' : System impl W) : Type 0 where
    pub len : length s'.cm_cores ≡ length s.cm_cores
    pub hw : s'.hw_thrid ≡ s.hw_thrid
    pub ready :
        (j : ℕ)
        → j < k
        → (core : Cpu impl W) × (coremu_get_core impl W j s' ≡ some core)
          × IsReady j (opaque j) core

  Inited-suc :
      (opaque : ℕ → ℕ) (k : ℕ) (s s' s'' : System impl W)
      → Inited opaque k s s'
      → Inits k (opaque k) s' s''
      → Inited opaque (suc k) s s''
  Inited-suc opaque k s s' s'' is new = record {
    len = new.len ∙ is.len;
    hw = new.hw ∙ is.hw;
    ready = λ j lt. elim (ℕ_discrete k j) [
      | yes e ↦
          subst
            (λ i.
              (core : Cpu impl W) × (coremu_get_core impl W i s'' ≡ some core)
              × IsReady i (opaque i) core)
            e (new.core, new.at, new.ready)
      | no ne ↦
          let (core, at, ready) = is.ready j (omega (arith, lt, ne)) in
          (core, new.others j ne ∙ at, ready)
    ];
  }

  pub init_cores-runs :
      (fresh opaque : ℕ → ℕ) (k : ℕ) (s : System impl W)
      → ((j : ℕ) → j < k → impl.IsNew (fresh j))
      → k ≤ length s.cm_cores
      → (s' : System impl W) × (init_cores fresh opaque k s ≡ some s') × Inited opaque k s s'
  unfolding init_cores
  init_cores-runs fresh opaque zero s ok l =
      (s, refl, record { len = refl; hw = refl; ready = λ j lt. absurd (omega (arith, lt)) })
  init_cores-runs fresh opaque (suc k) s ok l =
      let (s', runs, is) =
        init_cores-runs fresh opaque k s (λ j lt. ok j (omega (arith, lt))) (omega (arith, l)) in
      let (s'', inits, new) =
        core_init-Inits (fresh k) k (opaque k) s' (omega (arith, l, is.len)) (ok k (omega arith)) in
      (s'', rw (runs, inits) refl, Inited-suc opaque k s s' s'' is new)
