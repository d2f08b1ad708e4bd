-- ===== src/Types.antt =====
-- incl/coremu-types.h: the state that COREMU keeps for each emulated core.
use coremu.Common.{ℕ, Bool, true, false}
use coremu.Common.Int.{ℤ}

-- `CMCoreState`.
pub data CoreState : Type 0 where
  run halt pause : CoreState

-- `CMSchedEvent`.
pub data SchedEvent : Type 0 where
  halted paused cnt : SchedEvent

-- `CMCore`; `Q` is the interrupt queue.
pub record Core (Q : Type 0) : Type 0 where
  pub serial : ℕ
  pub thread : ℕ
  pub tid : ℕ
  pub intr_queue : Q
  pub time_stamp : ℕ  -- uint64_t
  pub intr_thresh_hold : ℤ  -- int64_t
  pub sig_pending : ℕ  -- uint8_t
  pub opaque : ℕ
  pub state : CoreState

-- What COREMU asks of the host.
pub data Effect : Type 0 where
  set_priority : (who : ℕ) (prio : ℤ) → Effect
  kill : (thread signo : ℕ) → Effect
  nanosleep : (nsec : ℕ) → Effect
  yield : Effect
  set_state : CoreState → Effect
  block_signal : (signo : ℕ) → Effect
  handle_signal : (signo : ℕ) → Effect  -- sigaction
  create : (thread opaque : ℕ) → Effect  -- pthread_create

abbrev pub is_run : CoreState → Bool
is_run CoreState.run = true
is_run _ = false

abbrev pub is_halt : CoreState → Bool
is_halt CoreState.halt = true
is_halt _ = false

abbrev pub is_pause : CoreState → Bool
is_pause CoreState.pause = true
is_pause _ = false
