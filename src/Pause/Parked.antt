-- ===== src/Pause/Parked.antt =====
-- main/core.c: what holds of the pause protocol in every state that the threads can reach.
use coremu.Common.{
  ℕ, suc, ◌<◌, ◌≡◌, refl, sym, ap, ◌∙◌, Bool, true, false, Option, none, some, subst, some_inj,
}
use coremu.Types.{CoreState, pause}
use coremu.Pause.{
  Host, calm, Pauser, away, called, entered, marked, sleeping, woken, relocked, leaving, idle,
  all_paused, Owner, core, waiter, Place, at, World, wake_up, move, wait, restart, Reach, begin,
  later,
}
use coremu.Pause.Inv.{
  holds, waiter_holds, parked, reached, OwnerOk, Inv, started-Inv, CoreStep-Local, Owner-inj,
  CoreStep-Inv,
}
use coremu.Pause.Waiting.{WaitStep-Inv}

holds-wake_up : (p : Place) → holds (wake_up p).pauser ≡ holds p.pauser
holds-wake_up p = kept p.pauser p.state
  where
    kept : (q : Pauser) (s : CoreState) → holds (wake_up (at q s)).pauser ≡ holds q
    kept away s = refl
    kept called s = refl
    kept entered s = refl
    kept marked s = refl
    kept sleeping s = refl
    kept woken s = refl
    kept relocked s = refl
    kept leaving s = refl

parked-wake_up : (p : Place) → parked (wake_up p).pauser ≡ parked p.pauser
parked-wake_up p = kept p.pauser p.state
  where
    kept : (q : Pauser) (s : CoreState) → parked (wake_up (at q s)).pauser ≡ parked q
    kept away s = refl
    kept called s = refl
    kept entered s = refl
    kept marked s = refl
    kept sleeping s = refl
    kept woken s = refl
    kept relocked s = refl
    kept leaving s = refl

state-wake_up : (p : Place) → (wake_up p).state ≡ p.state
state-wake_up p = kept p.pauser p.state
  where
    kept : (q : Pauser) (s : CoreState) → (wake_up (at q s)).state ≡ s
    kept away s = refl
    kept called s = refl
    kept entered s = refl
    kept marked s = refl
    kept sleeping s = refl
    kept woken s = refl
    kept relocked s = refl
    kept leaving s = refl

abbrev pub restarted : World → World
restarted w = record w {
  cores = λ j. wake_up (w.cores j);
  waiting = idle;
  restarts = suc w.restarts;
}

restart-Inv :
    {b : Host} {n : ℕ} {w : World} → Inv b n w → w.waiting ≡ all_paused → Inv b n (restarted w)
restart-Inv {n} {w} inv e = record {
  core_owns = λ i h. inv.core_owns i (sym (holds-wake_up (w.cores i)) ∙ h);
  waiter_owns = λ h. cc;
  owner = kept w.pause_mutex inv.owner;
  state = λ i d p. parked-wake_up (w.cores i) ∙ inv.state i d (sym (state-wake_up (w.cores i)) ∙ p);
  asleep = λ i f r. cc;
  seen_asleep = λ i f r l. cc;
}
  where
    kept : (m : Option Owner) → OwnerOk n w m → OwnerOk n (restarted w) m
    kept none ok = tt
    kept (some (core j)) ok = (ok.0, holds-wake_up (w.cores j) ∙ ok.1)
    kept (some waiter) ok = cc (ok, ap waiter_holds e)

Reach-Inv : {b : Host} {n : ℕ} {w : World} → Reach b n w → Inv b n w
Reach-Inv begin = started-Inv
Reach-Inv (later r (move i l st)) =
    let inv = Reach-Inv r in CoreStep-Inv i inv l (CoreStep-Local st) st refl
Reach-Inv (later r (wait st)) = WaitStep-Inv (Reach-Inv r) st refl
Reach-Inv (later r (restart e)) = restart-Inv (Reach-Inv r) e

-- If waits on the condition variable end only by a broadcast and no core takes a nap in `sched_pause`,
-- then before the first restart, when
-- `coremu_wait_all_cores_pause` has returned, every core is asleep in `coremu_pause_core`, whatever
-- interrupts were sent to it in between, and no thread has the mutex.
pub all_paused-sleeping :
    {n : ℕ} {w : World}
    → Reach calm n w
    → w.restarts ≡ 0
    → w.waiting ≡ all_paused
    → ((i : ℕ) → i < n → (w.cores i).pauser ≡ sleeping) × (w.pause_mutex ≡ none)
all_paused-sleeping {n} {w} r z e =
    let inv = Reach-Inv r in
    let resting : ((i : ℕ) → i < n → (w.cores i).pauser ≡ sleeping) =
      λ i l. inv.seen_asleep i refl z (subst (λ x. i < reached n x) (sym e) l) in
    (resting, unowned resting w.pause_mutex inv.owner)
  where
    unowned :
        ((i : ℕ) → i < n → (w.cores i).pauser ≡ sleeping)
        → (m : Option Owner) → OwnerOk n w m
        → m ≡ none
    unowned resting none ok = refl
    unowned resting (some (core i)) ok = cc (ap holds (resting i ok.0), ok.1)
    unowned resting (some waiter) ok = cc (ap waiter_holds e, ok)

-- When no core takes a nap in `sched_pause`, a core whose state is CM_STATE_PAUSE is in
-- `coremu_pause_core`, after it has marked itself and before it runs again, also when waits end by
-- themselves.
state-IsParked :
    {b : Host} {n : ℕ} {w : World}
    → Reach b n w
    → b.naps ≡ false
    → (i : ℕ) → (w.cores i).state ≡ pause
    → parked (w.cores i).pauser ≡ true
state-IsParked r d i e = (Reach-Inv r).state i d e

-- In every reachable state at most one thread has the mutex: two cores that do are the same, and
-- when a core does the waiting thread does not.
pause_mutex-exclusive :
    {b : Host} {n : ℕ} {w : World}
    → Reach b n w
    → (i : ℕ) → holds (w.cores i).pauser ≡ true
    → ((j : ℕ) → holds (w.cores j).pauser ≡ true → i ≡ j) × (waiter_holds w.waiting ≡ false)
pause_mutex-exclusive {w} r i hi =
    let inv = Reach-Inv r in
    (
      λ j hj. Owner-inj (some_inj (sym (inv.core_owns i hi) ∙ inv.core_owns j hj)),
      unheld (waiter_holds w.waiting) refl,
    )
  where
    unheld : (h : Bool) → waiter_holds w.waiting ≡ h → waiter_holds w.waiting ≡ false
    unheld false e = e
    unheld true e = cc ((Reach-Inv r).core_owns i hi, (Reach-Inv r).waiter_owns e)
