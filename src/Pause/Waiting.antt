-- ===== src/Pause/Waiting.antt =====
-- main/core.c: the invariant of the pause protocol under the steps of the waiting thread.
use coremu.Common.{
  ℕ, ◌<◌, ◌≡◌, refl, sym, ap, ◌∙◌, Bool, true, false, Option, none, some, subst, arith, ℕ_discrete,
}
use coremu.Types.{pause}
use coremu.Pause.{
  no_core, Host, calm, Pauser, away, called, entered, marked, sleeping, woken, relocked, leaving,
  Waiter, looking, Owner, core, waiter, at, World, lock, WaitStep, first, retry, again, see, next,
  last,
}
use coremu.Pause.Inv.{holds, waiter_holds, parked, awake, reached, OwnerOk, Inv}

-- What a paused core does, seen by a thread that has the mutex, as long as nobody wakes it up.
resting : (p : Pauser) → parked p ≡ true → awake p ≡ false → holds p ≡ false → p ≡ sleeping
resting sleeping k a h = refl
resting marked k a h = cc
resting woken k a h = cc
resting relocked k a h = cc
resting away k a h = cc
resting called k a h = cc
resting entered k a h = cc
resting leaving k a h = cc

abbrev Seen : Host → ℕ → World → ℕ → Type 0
Seen b n w k = (j : ℕ) → b ≡ calm → w.restarts ≡ 0 → j < k → (w.cores j).pauser ≡ sleeping

module _ {b : Host} {n : ℕ} {w : World} (inv : Inv b n w) where
  waited-Inv :
      (m : Option Owner) (x : Waiter)
      → ((j : ℕ) → w.pause_mutex ≡ some (core j) → m ≡ some (core j))
      → (waiter_holds x ≡ true → m ≡ some waiter)
      → OwnerOk n (record w { pause_mutex = m; waiting = x }) m
      → Seen b n w (reached n x)
      → Inv b n (record w { pause_mutex = m; waiting = x })
  waited-Inv m x own wt ok past = record {
    core_owns = λ j h. own j (inv.core_owns j h);
    waiter_owns = wt;
    owner = ok;
    state = inv.state;
    asleep = inv.asleep;
    seen_asleep = past;
  }

  stay-Inv :
      (x : Waiter)
      → waiter_holds x ≡ waiter_holds w.waiting
      → Seen b n w (reached n x)
      → Inv b n (record w { waiting = x })
  stay-Inv x same past =
      waited-Inv w.pause_mutex x (λ j e. e) (λ h. inv.waiter_owns (sym same ∙ h))
        (kept w.pause_mutex inv.owner) past
    where
      kept : (m : Option Owner) → OwnerOk n w m → OwnerOk n (record w { waiting = x }) m
      kept none ok = ok
      kept (some (core j)) ok = ok
      kept (some waiter) ok = same ∙ ok

  grab-Inv :
      (x : Waiter)
      → w.pause_mutex ≡ none
      → waiter_holds x ≡ true
      → Seen b n w (reached n x)
      → Inv b n (record w { pause_mutex = some waiter; waiting = x })
  grab-Inv x free h past = waited-Inv (some waiter) x (λ j e. cc) (λ h. refl) h past

  drop-Inv :
      (x : Waiter)
      → waiter_holds w.waiting ≡ true
      → waiter_holds x ≡ false
      → Seen b n w (reached n x)
      → Inv b n (record w { pause_mutex = none; waiting = x })
  drop-Inv x had h past =
      let own = inv.waiter_owns had in waited-Inv none x (λ j e. cc) (λ t. cc) tt past

  Seen-before : (x : Waiter) → w.waiting ≡ x → Seen b n w (reached n x)
  Seen-before x e = subst (λ y. Seen b n w (reached n y)) e inv.seen_asleep

  -- A core whose state the waiting thread reads as paused is asleep.
  seen-sleeping :
      (i : ℕ)
      → w.waiting ≡ looking i
      → (w.cores i).state ≡ pause
      → b ≡ calm
      → w.restarts ≡ 0
      → (w.cores i).pauser ≡ sleeping
  seen-sleeping i at p f r =
      resting (w.cores i).pauser (inv.state i (ap (λ (h : Host). h.naps) f) p) (inv.asleep i f r)
        (unheld (holds (w.cores i).pauser) refl)
    where
      unheld : (h : Bool) → holds (w.cores i).pauser ≡ h → holds (w.cores i).pauser ≡ false
      unheld false e = e
      unheld true e = cc (inv.core_owns i e, inv.waiter_owns (ap waiter_holds at))

pub WaitStep-Inv :
    {b : Host} {n : ℕ} {w : World} {m : Option Owner} {x x' : Waiter}
    → Inv b n w
    → WaitStep n w.pause_mutex w.cores x m x'
    → w.waiting ≡ x
    → Inv b n (record w { pause_mutex = m; waiting = x' })
WaitStep-Inv inv (no_core l) e =
    stay-Inv inv _ (sym (ap waiter_holds e)) (λ j f r lt. absurd (omega (arith, l, lt)))
WaitStep-Inv inv (first l) e = stay-Inv inv _ (sym (ap waiter_holds e)) (Seen-before inv _ e)
WaitStep-Inv inv (lock free) e = grab-Inv inv _ free refl (Seen-before inv _ e)
WaitStep-Inv inv (retry ne) e = stay-Inv inv _ (sym (ap waiter_holds e)) (Seen-before inv _ e)
WaitStep-Inv inv again e = drop-Inv inv _ (ap waiter_holds e) refl (Seen-before inv _ e)
WaitStep-Inv {w} inv (see {i} p) e = stay-Inv inv _ (sym (ap waiter_holds e)) (λ j f r l.
    elim (ℕ_discrete i j) [
      | yes same ↦ subst (λ k. (w.cores k).pauser ≡ sleeping) same (seen-sleeping inv i e p f r)
      | no ne ↦ Seen-before inv _ e j f r (omega (arith, ne, l))
    ])
WaitStep-Inv inv (next l) e = drop-Inv inv _ (ap waiter_holds e) refl (Seen-before inv _ e)
WaitStep-Inv inv (last l) e =
    drop-Inv inv _ (ap waiter_holds e) refl
      (λ j f r lt. Seen-before inv _ e j f r (omega (arith, l, lt)))
