-- ===== src/System.antt =====
-- The globals of main/core.c, main/intr.c and main/hw.c as one record, and how a thread finds its
-- core (main/core.h) or knows that it is the hardware thread (main/hw.c).
use coremu.Common.{
  ℕ, suc, ◌+◌, ◌-◌, ◌%◌, ◌^◌, Bool, true, false, Option, none, some, List, [], ◌∷◌, ◌==◌, get_elem?,
  set, if◌then◌else◌,
}
use coremu.Types.{Core, Effect, kill}
use coremu.Sched.{Sched}
use coremu.Queue.{QueueImpl}

infixl 5 ◌>>=◌
abbrev pub ◌>>=◌ {ℓ κ} : {A : Type ℓ} {B : Type κ} → Option A → (A → Option B) → Option B
none >>= f = none
some a >>= f = f a

-- What is cached, or what is found.
abbrev pub cached : Option ℕ → Option ℕ → Option ℕ
cached none found = found
cached (some i) found = some i

-- A thread of the emulator: its id, and its own `cm_core_self`, the index of a core.
pub record Thread : Type 0 where
  pub self : ℕ
  pub cm_core_self : Option ℕ

-- `W` is the state of the emulator, which the registered callbacks change.
module _ (impl : QueueImpl) (W : Type 0) where
  abbrev pub Cpu : Type 0
  Cpu = Core impl.Queue

  -- The globals, and what COREMU has asked of the host, the latest first.
  pub record System : Type 0 where
    pub sched : Sched
    pub cm_smp_cpus : ℕ
    pub cm_cores : List Cpu
    pub init_done : Bool
    pub hw_thrid : ℕ
    pub ioreq_exit : ℕ  -- an int, as its uint32_t pattern
    pub event_handler : Option (ℕ → W → W)
    pub event_notifier : Option (W → W)
    pub guest : W
    pub effects : List Effect

  -- `none` is an address behind the array.
  abbrev pub coremu_get_core : ℕ → System → Option Cpu
  coremu_get_core i s = get_elem? s.cm_cores i

  abbrev pub set_core : ℕ → Cpu → System → System
  set_core i core s = record s { cm_cores = set s.cm_cores i core }

  -- The first core with this thread, counted from `i`.
  unfoldable pub find_thread : ℕ → ℕ → List Cpu → Option ℕ
  find_thread t i [] = none
  find_thread t i (core ∷ cores) = if core.thread == t then some i else find_thread t (suc i) cores

  unfoldable pub coremu_hw_thr_p : Thread → System → Bool
  coremu_hw_thr_p th s = th.self == s.hw_thrid

  -- `none` is the failed assert.
  unfoldable pub coremu_assert_core_thr : Thread → System → Option System
  coremu_assert_core_thr th s = if th.self == s.hw_thrid then none else some s

  -- The index of the thread's core, and the thread with its cache; `none` is a failed assert or the
  -- NULL that a thread without a core gets, which every caller dereferences.
  unfoldable pub coremu_get_core_self : Thread → System → Option (ℕ × Thread)
  unfolding coremu_assert_core_thr
  coremu_get_core_self th s = do
    s ← coremu_assert_core_thr th s
    self ← cached th.cm_core_self (find_thread th.self 0 s.cm_cores)
    some (self, record th { cm_core_self = some self })

  unfoldable pub register_hw_thr : Thread → System → System
  register_hw_thr th s = record s { hw_thrid = th.self }

  unfoldable pub coremu_init_hw : ℕ → Thread → System → System
  unfolding register_hw_thr
  coremu_init_hw smp_cpus th s = register_hw_thr th s

  unfoldable pub coremu_signal_hw_thr : ℕ → System → System
  coremu_signal_hw_thr signo s = record s { effects = kill s.hw_thrid signo ∷ s.effects }

  unfoldable pub coremu_assert_hw_thr : Thread → System → Option System
  coremu_assert_hw_thr th s = if s.hw_thrid == th.self then some s else none

  unfoldable pub coremu_assert_not_hw_thr : Thread → System → Option System
  coremu_assert_not_hw_thr th s = if s.hw_thrid == th.self then none else some s

  unfoldable pub coremu_inc_ioreq_exit : System → System
  coremu_inc_ioreq_exit s = record s { ioreq_exit = (s.ioreq_exit + 1) % 2 ^ 32 }

  unfoldable pub coremu_dec_ioreq_exit : System → System
  coremu_dec_ioreq_exit s = record s { ioreq_exit = (s.ioreq_exit + 2 ^ 32 - 1) % 2 ^ 32 }

  unfoldable pub coremu_ioreq_exit_p : System → Bool
  coremu_ioreq_exit_p s = if s.ioreq_exit == 0 then false else true
