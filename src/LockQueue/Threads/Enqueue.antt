-- ===== src/LockQueue/Threads/Enqueue.antt =====
-- main/lock-queue.c run by many threads: every step of `enqueue` keeps the invariant.
use coremu.Common.{
  ℕ, ◌≡◌, ◌≢◌, refl, sym, ap, fun_ext, true, false, Option, none, some, List, [], ◌∷◌, ◌++◌, ◌==◌,
  arith, append-nil, Bool-cases, inl, inr,
}
use coremu.Memory.{Ptr, null, Mem, Points, write}
use coremu.LockQueue.{Node, node, Queue, incq}
use coremu.Chain.{not-has_of_none, Cells, Chain-write}
use coremu.LockQueue.Threads.{
  Producer, outside, made, locked, linked, swung, counted, Consumer, resting, got_head, got_next,
  got_value, moved, freed, World, update,
}
use coremu.LockQueue.Threads.Inv.{critical, private_node, inside, limbo, ConsumerOk, IsPrivate, Inv}

abbrev pub after : World → ℕ → Mem Node → Queue → Producer → List ℕ → World
after w i m q p es = record w {
  mem = m;
  queue = q;
  producers = update w.producers i p;
  sent = w.sent ++ es;
}

-- A step of a producer outside the critical section is not seen from inside.
inside-update :
    (owner : Option ℕ) (ps : ℕ → Producer) (i : ℕ) (p : Producer)
    → owner ≢ some i
    → inside owner (update ps i p) ≡ inside owner ps
inside-update none ps i p ne = refl
inside-update (some j) ps i p ne = ground arith

pub inside_self : (ps : ℕ → Producer) (i : ℕ) (p : Producer) → inside (some i) (update ps i p) ≡ p
inside_self ps i p = ground arith

-- A node at a new address touches nobody else's.
Points-new :
    (m : Mem Node) (p a : Ptr) (c : Node) (n : Node)
    → m p ≡ none
    → Points m a n
    → Points (write m p (some c)) a n
Points-new m p a c n new e = record { ne_null = e.ne_null; holds = ground (arith, e.holds) }

ConsumerOk-new :
    (m : Mem Node) (p : Ptr) (c : Node) (hd : Ptr) (d : Ptr × ℕ) (xs : Cells ℕ) (k : Consumer)
    → m p ≡ none
    → ConsumerOk m hd d xs k
    → ConsumerOk (write m p (some c)) hd d xs k
ConsumerOk-new m p c hd d xs resting new k = tt
ConsumerOk-new m p c hd d xs (got_head h) new k = k
ConsumerOk-new m p c hd d xs (got_next h n) new k = k
ConsumerOk-new m p c hd d xs (got_value h n v) new k = k
ConsumerOk-new m p c hd d xs (moved h v) new k = (k.0, Points-new m p h c k.0 new k.1, k.2)
ConsumerOk-new m p c hd d xs (freed v) new k = tt

limbo-new :
    (m : Mem Node) (p : Ptr) (hd : Ptr) (d : Ptr × ℕ) (xs : Cells ℕ) (k : Consumer)
    → m p ≡ none
    → ConsumerOk m hd d xs k
    → limbo k p ≡ false
limbo-new m p hd d xs (moved h v) new k = ground (arith, k.1.holds)
limbo-new m p hd d xs resting new k = refl
limbo-new m p hd d xs (got_head h) new k = refl
limbo-new m p hd d xs (got_next h n) new k = refl
limbo-new m p hd d xs (got_value h n v) new k = refl
limbo-new m p hd d xs (freed v) new k = refl

module _ {w : World} {owner : Option ℕ} {d : Ptr × ℕ} {xs : Cells ℕ} (inv : Inv w owner d xs)
    (i : ℕ) where
  open inv use {
    chain, head, history, alone, entered, lock, tail, count, private, distinct, consumer,
  }

  not_owner : critical (w.producers i) ≡ false → owner ≢ some i
  not_owner out e = cc (sym out, entered i e)

  make-IsPrivate :
      (p : Ptr) (v : ℕ)
      → p ≢ null
      → w.mem p ≡ none
      → (j : ℕ) (a : Ptr) (u : ℕ) → private_node (update w.producers i (made p v) j) ≡ some (a, u)
      → IsPrivate (write w.mem p (some (node null v))) w.consumer (d ∷ xs) a u
  make-IsPrivate p v ne new j a u e = elim (Bool-cases (i == j)) [
    | inl own ↦
        let same : a ≡ p = ground arith in
        let value : u ≡ v = ground arith in
        rw (same, value)
          (record {
            points = record { ne_null = ne; holds = ground arith };
            out = not-has_of_none node w.mem p (d ∷ xs) chain new;
            kept = limbo-new w.mem p w.queue.head d xs w.consumer new consumer;
          })
    | inr other ↦
        let before = private j a u (ground arith) in
        record {
          points = Points-new w.mem p a (node null v) (node null u) new before.points;
          out = before.out;
          kept = before.kept;
        }
  ]

  make-distinct :
      (p : Ptr) (v : ℕ)
      → w.mem p ≡ none
      → (j k : ℕ) (a : Ptr) (t u : ℕ)
      → private_node (update w.producers i (made p v) j) ≡ some (a, t)
      → private_node (update w.producers i (made p v) k) ≡ some (a, u)
      → j ≡ k
  make-distinct p v new j k a t u e f =
      ground (arith, distinct j k a t u, private j a t, private k a u)

  pub make-Inv :
      (p : Ptr) (v : ℕ)
      → p ≢ null
      → w.mem p ≡ none
      → w.producers i ≡ outside
      → Inv (after w i (write w.mem p (some (node null v))) w.queue (made p v) []) owner d xs
  make-Inv p v ne new at = record {
    chain =
        Chain-write node w.mem p (some (node null v)) (d ∷ xs)
          (not-has_of_none node w.mem p (d ∷ xs) chain new) chain;
    head = head;
    history = rw append-nil history;
    alone = λ j c. ground (arith, alone j);
    entered = λ j e. ground (arith, entered j);
    lock = lock;
    tail = rw (inside-update owner w.producers i (made p v) (not_owner (ap critical at))) tail;
    count = rw (inside-update owner w.producers i (made p v) (not_owner (ap critical at))) count;
    private = make-IsPrivate p v ne new;
    distinct = make-distinct p v new;
    consumer = ConsumerOk-new w.mem p (node null v) w.queue.head d xs w.consumer new consumer;
  }

  unowned : w.queue.t_lock ≡ 0 → owner ≡ none
  unowned e = ground arith

  pub lock-Inv :
      (p : Ptr) (v : ℕ)
      → w.queue.t_lock ≡ 0
      → w.producers i ≡ made p v
      → Inv (after w i w.mem (record (w.queue) { t_lock = 1 }) (locked p v) []) (some i) d xs
  lock-Inv p v open_lock at = record {
    chain = chain;
    head = head;
    history = rw append-nil history;
    alone = λ j c. ground (arith, alone j, unowned open_lock);
    entered = λ j e. ground arith;
    lock = refl;
    tail = rw (inside_self w.producers i (locked p v)) (rw (unowned open_lock) at tail);
    count = rw (inside_self w.producers i (locked p v)) (rw (unowned open_lock) at count);
    private = λ j a u e. private j a u (ground arith);
    distinct = λ j k a t u e f. distinct j k a t u (ground arith) (ground arith);
    consumer = consumer;
  }

  pub spin-Inv :
      (p : Ptr) (v : ℕ)
      → w.producers i ≡ made p v
      → Inv (after w i w.mem w.queue (made p v) []) owner d xs
  spin-Inv p v at =
      let same : update w.producers i (made p v) ≡ w.producers = fun_ext λ j. ground arith in
      rw (same, append-nil) inv

  mine : critical (w.producers i) ≡ true → owner ≡ some i
  mine c = alone i c

  pub swing-Inv :
      (p : Ptr)
      → w.producers i ≡ linked p
      → Inv (after w i w.mem (record (w.queue) { tail = p }) swung []) owner d xs
  swing-Inv p at =
      let own : owner ≡ some i = mine (ap critical at) in
      record {
        chain = chain;
        head = head;
        history = rw append-nil history;
        alone = λ j c. ground (arith, alone j);
        entered = λ j e. ground (arith, entered j);
        lock = lock;
        tail = rw (own, inside_self w.producers i swung) (sym (rw (own, at) at tail));
        count = rw (own, inside_self w.producers i swung) (rw (own, at) at count);
        private = λ j a u e. private j a u (ground arith);
        distinct = λ j k a t u e f. distinct j k a t u (ground arith) (ground arith);
        consumer = consumer;
      }

  pub inc-Inv :
      w.producers i ≡ swung
      → Inv
          (after w i w.mem (record (w.queue) { count = incq w.queue.count }) counted [])
          owner
          d
          xs
  inc-Inv at =
      let own : owner ≡ some i = mine (ap critical at) in
      record {
        chain = chain;
        head = head;
        history = rw append-nil history;
        alone = λ j c. ground (arith, alone j);
        entered = λ j e. ground (arith, entered j);
        lock = lock;
        tail = rw (own, inside_self w.producers i counted) (rw (own, at) at tail);
        count = rw (own, inside_self w.producers i counted) (rw (own, at) at count);
        private = λ j a u e. private j a u (ground arith);
        distinct = λ j k a t u e f. distinct j k a t u (ground arith) (ground arith);
        consumer = consumer;
      }

  pub unlock-Inv :
      w.producers i ≡ counted
      → Inv (after w i w.mem (record (w.queue) { t_lock = 0 }) outside []) none d xs
  unlock-Inv at =
      let own : owner ≡ some i = mine (ap critical at) in
      record {
        chain = chain;
        head = head;
        history = rw append-nil history;
        alone = λ j c. ground (arith, alone j);
        entered = λ j e. cc;
        lock = refl;
        tail = rw (own, at) at tail;
        count = rw (own, at) at count;
        private = λ j a u e. private j a u (ground arith);
        distinct = λ j k a t u e f. distinct j k a t u (ground arith) (ground arith);
        consumer = consumer;
      }
