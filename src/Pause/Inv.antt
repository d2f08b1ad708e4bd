-- ===== src/Pause/Inv.antt =====
-- main/core.c: what holds of the pause protocol between any two steps, and the steps of the cores.
use coremu.Common.{
  ℕ, suc, ◌<◌, ◌≡◌, ◌≢◌, refl, sym, ap, ◌∙◌, Bool, true, false, Option, none, some, subst, some_inj,
  arith, ℕ_discrete,
}
use coremu.Types.{pause}
use coremu.Pause.{
  Host, calm, Pauser, entered, marked, sleeping, woken, relocked, leaving, Waiter, idle, locking,
  looking, retrying, seen, all_paused, Owner, core, waiter, Place, put, World, CoreStep, call, lock,
  mark, skip, sleep, wake, relock, resume, unlock, sched, signal, started,
}

-- Between taking the mutex and releasing it.
abbrev pub holds : Pauser → Bool
holds entered = true
holds marked = true
holds relocked = true
holds leaving = true
holds _ = false

abbrev pub waiter_holds : Waiter → Bool
waiter_holds (looking _) = true
waiter_holds (retrying _) = true
waiter_holds (seen _) = true
waiter_holds _ = false

-- Between marking the core as paused and marking it as running.
abbrev pub parked : Pauser → Bool
parked marked = true
parked sleeping = true
parked woken = true
parked relocked = true
parked _ = false

-- Off the condition variable, on the way back.
abbrev pub awake : Pauser → Bool
awake woken = true
awake relocked = true
awake _ = false

-- The cores before this one have been seen to be paused.
abbrev pub reached : ℕ → Waiter → ℕ
reached n idle = 0
reached n (locking i) = i
reached n (looking i) = i
reached n (retrying i) = i
reached n (seen i) = suc i
reached n all_paused = n

abbrev pub OwnerOk : ℕ → World → Option Owner → Type 0
OwnerOk n w none = Unit
OwnerOk n w (some (core i)) = (i < n) × (holds (w.cores i).pauser ≡ true)
OwnerOk n w (some waiter) = waiter_holds w.waiting ≡ true

pub record Inv (host : Host) (n : ℕ) (w : World) : Type 0 where
  pub core_owns : (i : ℕ) → holds (w.cores i).pauser ≡ true → w.pause_mutex ≡ some (core i)
  pub waiter_owns : waiter_holds w.waiting ≡ true → w.pause_mutex ≡ some waiter
  pub owner : OwnerOk n w w.pause_mutex
  pub state :
      (i : ℕ) → host.naps ≡ false → (w.cores i).state ≡ pause → parked (w.cores i).pauser ≡ true
  pub asleep : (i : ℕ) → host ≡ calm → w.restarts ≡ 0 → awake (w.cores i).pauser ≡ false
  pub seen_asleep :
      (i : ℕ)
      → host ≡ calm
      → w.restarts ≡ 0
      → i < reached n w.waiting
      → (w.cores i).pauser ≡ sleeping

pub started-Inv : {b : Host} {n : ℕ} → Inv b n started
started-Inv = record {
  core_owns = λ i e. cc;
  waiter_owns = λ e. cc;
  owner = tt;
  state = λ i d e. cc;
  asleep = λ i e r. refl;
  seen_asleep = λ i e r l. absurd (omega arith);
}

-- What a step of a core's thread keeps of the core's place.
pub record Local (host : Host) (p p' : Place) : Type 0 where
  state :
      host.naps ≡ false
      → (p.state ≡ pause → parked p.pauser ≡ true)
      → p'.state ≡ pause
      → parked p'.pauser ≡ true
  asleep : host ≡ calm → awake p.pauser ≡ false → awake p'.pauser ≡ false
  seen : host ≡ calm → p.pauser ≡ sleeping → p'.pauser ≡ sleeping

pub CoreStep-Local :
    {b : Host} {i : ℕ} {m m' : Option Owner} {p p' : Place} → CoreStep b i m p m' p' → Local b p p'
CoreStep-Local call = record { state = λ d k e. cc (k e); asleep = λ b a. refl; seen = λ b e. cc }
CoreStep-Local (lock e) = record {
  state = λ d k e. cc (k e);
  asleep = λ b a. refl;
  seen = λ b e. cc;
}
CoreStep-Local mark = record { state = λ d k e. refl; asleep = λ b a. refl; seen = λ b e. cc }
CoreStep-Local (skip ne) = record {
  state = λ d k e. cc (k e);
  asleep = λ b a. refl;
  seen = λ b e. cc;
}
CoreStep-Local sleep = record { state = λ d k e. refl; asleep = λ b a. refl; seen = λ b e. refl }
CoreStep-Local (wake t) = record {
  state = λ d k e. refl;
  asleep = λ b a. cc (t, b);
  seen = λ b e. cc;
}
CoreStep-Local (relock e) = record { state = λ d k e. refl; asleep = λ b a. a; seen = λ b e. cc }
CoreStep-Local resume = record { state = λ d k e. cc; asleep = λ b a. refl; seen = λ b e. cc }
CoreStep-Local unlock = record { state = λ d k e. cc (k e); asleep = λ b a. refl; seen = λ b e. cc }
CoreStep-Local (sched t ne) = record {
  state = λ d k e. cc (d, ne e);
  asleep = λ b a. refl;
  seen = λ b e. e;
}
CoreStep-Local signal = record { state = λ d k e. cc; asleep = λ b a. a; seen = λ b e. e }

pub put_self : (f : ℕ → Place) (i : ℕ) (p : Place) → put f i p i ≡ p
put_self f i p = ground arith

pub put_ne : (f : ℕ → Place) (i j : ℕ) (p : Place) → i ≢ j → put f i p j ≡ f j
put_ne f i j p ne = ground arith

pub holds-at : {p q : Place} → p ≡ q → holds p.pauser ≡ holds q.pauser
holds-at e = ap (λ (q : Place). holds q.pauser) e

pub Owner-inj : {i j : ℕ} → core i ≡ core j → i ≡ j
Owner-inj e = cc

put-elim :
    (P : ℕ → Place → Type 0) (f : ℕ → Place) (i : ℕ) (p : Place)
    → P i p
    → ((j : ℕ) → i ≢ j → P j (f j))
    → (j : ℕ) → P j (put f i p j)
put-elim P f i p here there j = elim (ℕ_discrete i j) [
  | yes e ↦ subst (λ k. P k (put f i p k)) e (subst (P i) (sym (put_self f i p)) here)
  | no ne ↦ subst (P j) (sym (put_ne f i j p ne)) (there j ne)
]

abbrev pub after : World → ℕ → Option Owner → Place → World
after w i m p = record w { pause_mutex = m; cores = put w.cores i p }

module _ {b : Host} {n : ℕ} {w : World} (inv : Inv b n w) (i : ℕ) (l : i < n) where
  -- A step of core `i` keeps the invariant when the mutex stays right.
  Local-Inv :
      (m : Option Owner) (p : Place)
      → Local b (w.cores i) p
      → (holds p.pauser ≡ true → m ≡ some (core i))
      → ((j : ℕ) → i ≢ j → w.pause_mutex ≡ some (core j) → m ≡ some (core j))
      → (w.pause_mutex ≡ some waiter → m ≡ some waiter)
      → OwnerOk n (after w i m p) m
      → Inv b n (after w i m p)
  Local-Inv m p loc own others wt ok = record {
    core_owns =
        put-elim (λ j q. holds q.pauser ≡ true → m ≡ some (core j)) w.cores i p own
          (λ j ne h. others j ne (inv.core_owns j h));
    waiter_owns = λ h. wt (inv.waiter_owns h);
    owner = ok;
    state =
        put-elim (λ j q. b.naps ≡ false → q.state ≡ pause → parked q.pauser ≡ true) w.cores i p
          (λ d. loc.state d (inv.state i d)) (λ j ne. inv.state j);
    asleep =
        put-elim (λ j q. b ≡ calm → w.restarts ≡ 0 → awake q.pauser ≡ false) w.cores i p
          (λ e r. loc.asleep e (inv.asleep i e r)) (λ j ne. inv.asleep j);
    seen_asleep =
        put-elim (λ j q. b ≡ calm → w.restarts ≡ 0 → j < reached n w.waiting → q.pauser ≡ sleeping)
          w.cores i p (λ e r s. loc.seen e (inv.seen_asleep i e r s)) (λ j ne. inv.seen_asleep j);
  }

  -- Without the mutex, or keeping it.
  keep-Inv :
      (p : Place)
      → Local b (w.cores i) p
      → holds p.pauser ≡ holds (w.cores i).pauser
      → Inv b n (after w i w.pause_mutex p)
  keep-Inv p loc same =
      Local-Inv w.pause_mutex p loc (λ h. inv.core_owns i (sym same ∙ h)) (λ j ne e. e) (λ e. e)
        (kept w.pause_mutex inv.owner)
    where
      kept : (m : Option Owner) → OwnerOk n w m → OwnerOk n (after w i w.pause_mutex p) m
      kept none ok = tt
      kept (some (core j)) ok = (
        ok.0,
        put-elim (λ j q. holds (w.cores j).pauser ≡ true → holds q.pauser ≡ true) w.cores i p
            (λ h. same ∙ h) (λ j ne h. h) j ok.1,
      )
      kept (some waiter) ok = ok

  take-Inv :
      (p : Place)
      → Local b (w.cores i) p
      → w.pause_mutex ≡ none
      → holds p.pauser ≡ true
      → Inv b n (after w i (some (core i)) p)
  take-Inv p loc free h =
      Local-Inv (some (core i)) p loc (λ h. refl) (λ j ne e. cc) (λ e. cc)
        (l, ap (λ (q : Place). holds q.pauser) (put_self w.cores i p) ∙ h)

  release-Inv :
      (p : Place)
      → Local b (w.cores i) p
      → holds (w.cores i).pauser ≡ true
      → holds p.pauser ≡ false
      → Inv b n (after w i none p)
  release-Inv p loc had h =
      let own = inv.core_owns i had in
      Local-Inv none p loc (λ t. cc) (λ j ne e. absurd (ne (Owner-inj (some_inj (sym own ∙ e)))))
        (λ e. cc) tt

pub CoreStep-Inv :
    {b : Host} {n : ℕ} {w : World} {m : Option Owner} {p p' : Place} (i : ℕ)
    → Inv b n w
    → i < n
    → Local b (w.cores i) p'
    → CoreStep b i w.pause_mutex p m p'
    → w.cores i ≡ p
    → Inv b n (after w i m p')
CoreStep-Inv i inv l loc call e = keep-Inv inv i l _ loc (holds-at (sym e))
CoreStep-Inv i inv l loc (lock free) e = take-Inv inv i l _ loc free refl
CoreStep-Inv i inv l loc mark e = keep-Inv inv i l _ loc (holds-at (sym e))
CoreStep-Inv i inv l loc (skip ne) e = keep-Inv inv i l _ loc (holds-at (sym e))
CoreStep-Inv i inv l loc sleep e = release-Inv inv i l _ loc (holds-at e) refl
CoreStep-Inv i inv l loc (wake t) e = keep-Inv inv i l _ loc (holds-at (sym e))
CoreStep-Inv i inv l loc (relock free) e = take-Inv inv i l _ loc free refl
CoreStep-Inv i inv l loc resume e = keep-Inv inv i l _ loc (holds-at (sym e))
CoreStep-Inv i inv l loc unlock e = release-Inv inv i l _ loc (holds-at e) refl
CoreStep-Inv i inv l loc (sched t ne) e = keep-Inv inv i l _ loc (holds-at (sym e))
CoreStep-Inv i inv l loc signal e = keep-Inv inv i l _ loc (holds-at (sym e))
