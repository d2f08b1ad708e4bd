-- ===== src/Intr/EndToEnd.antt =====
-- main/intr.c: what is sent to a core, by any threads and mixed with what is sent to others, is what it
-- handles when it receives.
use coremu.Common.{
  ℕ, ◌+◌, ◌^◌, ◌≤◌, ◌<◌, ◌≡◌, ◌≢◌, refl, sym, ap, Bool, subst, subst₂, append_assoc, append-nil,
  All-append, ◌∙◌, true, false, some, some_inj, List, [], ◌∷◌, ◌++◌, arith, ◌==◌, ==_iff, length,
  length-append, if◌then◌else◌, if_true, if_false, Bool-cases, inl, inr, All,
}
use coremu.Queue.{QueueImpl}
use coremu.System.{Thread, Cpu, System, coremu_get_core, set_core, coremu_get_core_self}
use coremu.Intr.{coremu_send_intr, coremu_receive_intr}
use coremu.Intr.Delivery.{Puts, MayWake, send_intr-Puts}
use coremu.Intr.Drain.{handle_all, AreIntrs, receive_intr-drains}

-- A core and an interrupt that was sent to it.
abbrev pub Sent : Type 0
Sent = ℕ × ℕ

-- The interrupts for one core, in order.
abbrev pub to_core : ℕ → List Sent → List ℕ
to_core j [] = []
to_core j ((i, e) ∷ log) = if i == j then e ∷ to_core j log else to_core j log

to_core-append_self :
    (j e : ℕ) (log : List Sent) → to_core j (log ++ (j, e) ∷ []) ≡ to_core j log ++ e ∷ []
to_core-append_self j e [] = if_true (j == j) _ _ (ground arith)
to_core-append_self j e ((i, f) ∷ log) = rw (to_core-append_self j e log) (apart (i == j))
  where
    apart :
        (b : Bool)
        → (if b then f ∷ (to_core j log ++ e ∷ []) else (to_core j log ++ e ∷ []))
          ≡ (if b then f ∷ to_core j log else to_core j log) ++ e ∷ []
    apart true = refl
    apart false = refl

to_core-append_other :
    (i j e : ℕ) (log : List Sent)
    → (i == j) ≡ false
    → to_core j (log ++ (i, e) ∷ []) ≡ to_core j log
to_core-append_other i j e [] ne = if_false (i == j) _ _ ne
to_core-append_other i j e ((k, f) ∷ log) ne = rw (to_core-append_other i j e log ne) refl

length-to_core : (j : ℕ) (log : List Sent) → length (to_core j log) ≤ length log
length-to_core j [] = omega arith
length-to_core j ((i, e) ∷ log) = ground (arith, length-to_core j log)

to_core-AreIntrs :
    (j : ℕ) (log : List Sent)
    → All (λ (s : Sent). (s.1 == 0) ≡ false) log
    → AreIntrs (to_core j log)
to_core-AreIntrs j [] h = tt
to_core-AreIntrs j ((i, e) ∷ log) h = elim (Bool-cases (i == j)) [
  | inl b ↦ subst AreIntrs (sym (if_true (i == j) _ _ b)) (h.0, to_core-AreIntrs j log h.1)
  | inr b ↦ subst AreIntrs (sym (if_false (i == j) _ _ b)) (to_core-AreIntrs j log h.1)
]

module _ (impl : QueueImpl) (W : Type 0) where
  -- Calls of `coremu_send_intr` after initialisation, by threads that may wake the core they send to,
  -- with an address from malloc for each; the latest is the last in the list.
  pub data Sends (s : System impl W) : List Sent → System impl W → Type 0 where
    start : Sends s [] s
    send :
        {log : List Sent} {t u : System impl W} (fresh e i : ℕ) (th th' : Thread)
        (core : Cpu impl W)
        → Sends s log t
        → e ≢ 0
        → t.init_done ≡ true
        → coremu_get_core impl W i t ≡ some core
        → impl.IsRoom fresh core.intr_queue
        → MayWake impl W i th t
        → coremu_send_intr impl W fresh e i th t ≡ some (th', u)
        → Sends s (log ++ (i, e) ∷ []) u

  -- Every core has this queue of interrupts.
  abbrev pub Pending : (ℕ → List ℕ) → System impl W → Type 0
  Pending pending s =
      (j : ℕ) (core : Cpu impl W)
      → coremu_get_core impl W j s ≡ some core
      → impl.Holds core.intr_queue (pending j)

  -- The queues that begin as `before` after some calls.
  abbrev pub and_then : (ℕ → List ℕ) → List Sent → ℕ → List ℕ
  and_then before log j = before j ++ to_core j log

  apart : (i j : ℕ) → (i == j) ≡ false → i ≢ j
  apart i j b z = ground (arith, b, z)

  Puts-Pending :
      (before : ℕ → List ℕ) (log : List Sent) {t u : System impl W} (i e : ℕ)
      → Pending (and_then before log) t
      → Puts impl W i (and_then before log i ++ e ∷ []) t u
      → Pending (and_then before (log ++ (i, e) ∷ [])) u
  Puts-Pending before log {u} i e p puts j core at = elim (Bool-cases (i == j)) [
    | inl b ↦
        let same : i ≡ j = (==_iff i j).0 b in
        let here : puts.core ≡ core =
          some_inj (sym puts.at ∙ (ap (λ k. coremu_get_core impl W k u) same ∙ at)) in
        let queue : and_then before log i ++ e ∷ [] ≡ and_then before (log ++ (i, e) ∷ []) j =
          append_assoc (before i) (to_core i log) (e ∷ [])
          ∙ (ap (λ es. before i ++ es) (sym (to_core-append_self i e log))
              ∙ ap (λ k. before k ++ to_core k (log ++ (i, e) ∷ [])) same) in
        subst₂ (λ (c : Cpu impl W) es. impl.Holds c.intr_queue es) here queue puts.holds
    | inr b ↦
        subst (λ es. impl.Holds core.intr_queue (before j ++ es))
          (sym (to_core-append_other i j e log b))
          (p j core (sym (puts.others j (apart i j b)) ∙ at))
  ]

  sends-Pending :
      (before : ℕ → List ℕ) {s u : System impl W} {log : List Sent}
      → Pending before s
      → Sends s log u
      → ((j : ℕ) → length (before j) + length log < 2 ^ 63)
      → Pending (and_then before log) u × All (λ (s : Sent). (s.1 == 0) ≡ false) log
  sends-Pending before p start small = (
    λ j core at. subst (impl.Holds core.intr_queue) (sym (append-nil (before j))) (p j core at),
    tt,
  )
  sends-Pending before p (send {log} {t} {u} fresh e i th th' core calls ne done at room may sent)
        small =
      let more = length-append log ((i, e) ∷ []) in
      let (q, real) = sends-Pending before p calls (λ j. omega (arith, more, small j)) in
      let (th'', u', sent', puts) =
        send_intr-Puts impl W fresh e i th t core (and_then before log i) ne done at (q i core at)
          room
          (omega
            (arith, length-append (before i) (to_core i log), length-to_core i log, more, small i))
          may in
      let one : u' ≡ u = ap (λ (r : Thread × System impl W). r.1) (some_inj (sym sent' ∙ sent)) in
      (
        Puts-Pending before log i e q
            (subst (Puts impl W i (and_then before log i ++ e ∷ []) t) one puts),
        All-append (λ (s : Sent). (s.1 == 0) ≡ false) log ((i, e) ∷ []) real (ground arith, tt),
      )

  -- Whatever calls of coremu_send_intr were made, by whichever threads and to whichever cores, a core
  -- that then receives on its own thread hands to the handler, once each and in order, what was pending
  -- for it before and what was sent to it, and no interrupt of another core. The calls are after
  -- initialisation, no interrupt is NULL, malloc has an address for each, a sender may wake the core it
  -- sends to, no queue gets longer than 2 ^ 63, and the receiver has a handler and rounds enough.
  pub sends-handled :
      (before : ℕ → List ℕ) {s u : System impl W} {log : List Sent} (fuel : ℕ) (th th' : Thread)
      (j : ℕ) (core : Cpu impl W) (handler : ℕ → W → W)
      → Pending before s
      → Sends s log u
      → ((k : ℕ) → length (before k) + length log < 2 ^ 63)
      → AreIntrs (before j)
      → coremu_get_core_self impl W th u ≡ some (j, th')
      → coremu_get_core impl W j u ≡ some core
      → u.event_handler ≡ some handler
      → length (before j) + length log < fuel
      → (q : impl.Queue) × (coremu_receive_intr impl W fuel th u
          ≡ some (
            th',
            record (set_core impl W j (record core { intr_queue = q }) u) {
              guest = handle_all handler (before j ++ to_core j log) u.guest;
            },
          ))
        × impl.Holds q []
  sends-handled before {u} {log} fuel th th' j core handler p calls small intrs self at set enough =
      let (q, real) = sends-Pending before p calls small in
      let len = length-append (before j) (to_core j log) in
      receive_intr-drains impl W fuel th th' u j core handler (before j ++ to_core j log) self at
        set (q j core at)
        (All-append (λ e. (e == 0) ≡ false) (before j) (to_core j log) intrs
          (to_core-AreIntrs j log real))
        (omega (arith, len, length-to_core j log, small j))
        (omega (arith, len, length-to_core j log, enough))
