-- ===== src/Pause.antt =====
-- main/core.c: stopping and restarting the cores. Core threads in `coremu_pause_core` and the
-- thread that waits for all of them share a mutex and a condition variable (incl/coremu-thread.h);
-- they are interleaved at every lock, unlock and access to a core's state.
pub mod Inv
pub mod Parked
pub mod Waiting
mod Tests
use coremu.Common.{
  ℕ, suc, ◌+◌, ◌<◌, ◌≤◌, ◌≡◌, ◌≢◌, Bool, true, false, Option, none, some, ◌==◌, if◌then◌else◌,
}
use coremu.Types.{CoreState, run, halt, pause}

-- Where a core's thread stands in `coremu_pause_core`.
pub data Pauser : Type 0 where
  away : Pauser  -- not in the function
  called : Pauser  -- before coremu_mutex_lock
  entered : Pauser  -- before the test of the state
  marked : Pauser  -- before coremu_cond_wait
  sleeping : Pauser  -- on the condition variable
  woken : Pauser  -- off the condition variable, before it has the mutex again
  relocked : Pauser  -- before self->state = CM_STATE_RUN
  leaving : Pauser  -- before coremu_mutex_unlock

-- Where the waiting thread stands in `coremu_wait_all_cores_pause`, with the core it waits for.
pub data Waiter : Type 0 where
  idle : Waiter
  locking : (i : ℕ) → Waiter  -- before coremu_mutex_lock
  looking : (i : ℕ) → Waiter  -- before the test of the loop
  retrying : (i : ℕ) → Waiter  -- before coremu_mutex_unlock in the loop
  seen : (i : ℕ) → Waiter  -- before the last coremu_mutex_unlock
  all_paused : Waiter  -- the function has returned

-- Who holds `pause_mutex`.
pub data Owner : Type 0 where
  core : (i : ℕ) → Owner
  waiter : Owner

pub record Place : Type 0 where
  pub pauser : Pauser
  pub state : CoreState

abbrev pub at : Pauser → CoreState → Place
at p s = record { pauser = p; state = s }

abbrev pub put : (ℕ → Place) → ℕ → Place → ℕ → Place
put f i a j = if i == j then a else f j

-- All threads, with how often the cores have been restarted.
pub record World : Type 0 where
  pub pause_mutex : Option Owner
  pub cores : ℕ → Place
  pub waiting : Waiter
  pub restarts : ℕ

-- What `coremu_cond_broadcast` does to a core.
abbrev pub wake_up : Place → Place
wake_up p = elim p.pauser as (λ _. Place) [
  | away ↦ p
  | called ↦ p
  | entered ↦ p
  | marked ↦ p
  | sleeping ↦ at woken p.state
  | woken ↦ p
  | relocked ↦ p
  | leaving ↦ p
]

-- What may happen besides: waits on the condition variable that end by themselves, as POSIX allows,
-- and cores that take a nap in `sched_pause` (main/sched.c).
pub record Host : Type 0 where
  pub spurious : Bool
  pub naps : Bool

abbrev pub calm : Host
calm = record { spurious = false; naps = false }

-- One step of a core's thread.
pub data CoreStep (host : Host) (i : ℕ) (m : Option Owner)
    : Place → Option Owner → Place → Type 0 where
  call : {s : CoreState} → CoreStep host i m (at away s) m (at called s)
  lock : {s : CoreState} → m ≡ none → CoreStep host i m (at called s) (some (core i)) (at entered s)
  mark : CoreStep host i m (at entered run) m (at marked pause)
  skip : {s : CoreState} → s ≢ run → CoreStep host i m (at entered s) m (at leaving s)
  sleep : {s : CoreState} → CoreStep host i m (at marked s) none (at sleeping s)
  wake : {s : CoreState} → host.spurious ≡ true → CoreStep host i m (at sleeping s) m (at woken s)
  relock :
      {s : CoreState} → m ≡ none → CoreStep host i m (at woken s) (some (core i)) (at relocked s)
  resume : {s : CoreState} → CoreStep host i m (at relocked s) m (at leaving run)
  unlock : {s : CoreState} → CoreStep host i m (at leaving s) none (at away s)
  -- `sched_halted` and `sched_pause` (main/sched.c), which the core's own thread runs.
  sched :
      {s : CoreState} (t : CoreState)
      → (t ≡ pause → host.naps ≡ true)
      → CoreStep host i m (at away s) m (at away t)
  -- `coremu_send_signal` (main/intr.c) from any thread, without the mutex.
  signal : {p : Pauser} {s : CoreState} → CoreStep host i m (at p s) m (at p run)

-- One step of the waiting thread, with `n` cores.
pub data WaitStep (n : ℕ) (m : Option Owner) (cores : ℕ → Place)
    : Waiter → Option Owner → Waiter → Type 0 where
  no_core : n ≤ 0 → WaitStep n m cores idle m all_paused
  first : 0 < n → WaitStep n m cores idle m (locking 0)
  lock : {i : ℕ} → m ≡ none → WaitStep n m cores (locking i) (some waiter) (looking i)
  retry : {i : ℕ} → (cores i).state ≢ pause → WaitStep n m cores (looking i) m (retrying i)
  again : {i : ℕ} → WaitStep n m cores (retrying i) none (locking i)
  see : {i : ℕ} → (cores i).state ≡ pause → WaitStep n m cores (looking i) m (seen i)
  next : {i : ℕ} → suc i < n → WaitStep n m cores (seen i) none (locking (suc i))
  last : {i : ℕ} → n ≤ suc i → WaitStep n m cores (seen i) none all_paused

pub data Step (host : Host) (n : ℕ) (w : World) : World → Type 0 where
  move :
      (i : ℕ) {m : Option Owner} {p : Place}
      → i < n
      → CoreStep host i w.pause_mutex (w.cores i) m p
      → Step host n w (record w { pause_mutex = m; cores = put w.cores i p })
  wait :
      {m : Option Owner} {x : Waiter}
      → WaitStep n w.pause_mutex w.cores w.waiting m x
      → Step host n w (record w { pause_mutex = m; waiting = x })
  -- `coremu_restart_all_cores`, which the waiting thread calls when the cores are paused.
  restart :
      w.waiting ≡ all_paused
      → Step host n w
          (record w { cores = λ j. wake_up (w.cores j); waiting = idle; restarts = suc w.restarts })

abbrev pub started : World
started = record { pause_mutex = none; cores = λ _. at away run; waiting = idle; restarts = 0 }

pub data Reach (host : Host) (n : ℕ) : World → Type 0 where
  begin : Reach host n started
  later : {w w' : World} → Reach host n w → Step host n w w' → Reach host n w'
