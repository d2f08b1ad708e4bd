-- ===== src/Sched/Wait.antt =====
-- main/sched.c: how often a core that is told to pause spins, yields and sleeps.
use coremu.Common.{ℕ, zero, suc, ◌+◌, ◌-◌, ◌*◌, ◌/◌, ◌%◌, ◌≡◌, refl, List, [], ◌∷◌, arith}
use coremu.Types.{Effect, nanosleep, yield}
use coremu.Sched.{Waiter, sched_pause}

-- `n` calls of `coremu_cpu_sched(CM_EVENT_PAUSE)`.
unfoldable pub pause_calls : ℕ → Waiter → Waiter
pause_calls zero w = w
pause_calls (suc n) w = sched_pause (pause_calls n w)

unfoldable pub sleeps : List Effect → ℕ
sleeps [] = 0
sleeps (nanosleep _ ∷ es) = suc (sleeps es)
sleeps (_ ∷ es) = sleeps es

unfoldable pub yields : List Effect → ℕ
yields [] = 0
yields (yield ∷ es) = suc (yields es)
yields (_ ∷ es) = yields es

abbrev pub fresh_waiter : Waiter
fresh_waiter = record { pause_cnt = 0; done = [] }

pub record Paced (n : ℕ) (w : Waiter) : Type 0 where
  pub count : w.pause_cnt ≡ n % 103
  pub slept : sleeps w.done ≡ n / 103
  pub yielded : yields w.done ≡ 2 * (n / 103) + (n % 103 - 100)

sched_pause-Paced : (n : ℕ) (w : Waiter) → Paced n w → Paced (suc n) (sched_pause w)
unfolding sched_pause sleeps yields
sched_pause-Paced n w p = ground arith

-- Of any number of calls by a new thread, one in 103 sleeps, the two before it yield the processor,
-- and the other 100 only count.
pub pause_calls-Paced : (n : ℕ) → Paced n (pause_calls n fresh_waiter)
unfolding pause_calls sleeps yields
pause_calls-Paced zero = record { count = refl; slept = refl; yielded = refl }
pause_calls-Paced (suc n) = sched_pause-Paced n (pause_calls n fresh_waiter) (pause_calls-Paced n)
