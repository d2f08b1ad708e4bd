-- ===== src/LockQueue/Threads.antt =====
-- main/lock-queue.c run by many threads at once: any number of producers in `enqueue`, and the one
-- core that owns the queue in `dequeue`, interleaved at every access to shared memory. What a
-- producer does to its node before it takes the lock is one step, since no other thread has the
-- node's address.
pub mod Inv
pub mod Enqueue
pub mod Dequeue
pub mod Link
pub mod Safety
mod Tests
use coremu.Common.{
  ℕ, ◌≡◌, ◌≢◌, Bool, true, false, Option, none, some, List, [], ◌∷◌, ◌++◌, ◌==◌, if◌then◌else◌,
}
use coremu.Memory.{Ptr, null, Mem, write}
use coremu.LockQueue.{Node, node, Queue, incq, decq}

-- Where a producer stands in `enqueue`, with its node and value where they are still needed.
pub data Producer : Type 0 where
  outside : Producer
  made : (p : Ptr) (v : ℕ) → Producer  -- before coremu_spin_lock
  locked : (p : Ptr) (v : ℕ) → Producer  -- before Q->Tail->next = node
  linked : (p : Ptr) → Producer  -- before Q->Tail = node
  swung : Producer  -- before atomic_incq
  counted : Producer  -- before coremu_spin_unlock

-- Where the consumer stands in `dequeue`.
pub data Consumer : Type 0 where
  resting : Consumer
  got_head : (h : Ptr) → Consumer  -- before new_head = node->next
  got_next : (h n : Ptr) → Consumer  -- before *value_p = new_head->value
  got_value : (h n : Ptr) (v : ℕ) → Consumer  -- before Q->Head = new_head
  moved : (h : Ptr) (v : ℕ) → Consumer  -- before coremu_free(node)
  freed : (v : ℕ) → Consumer  -- before atomic_decq

-- One step of a producer; the list has the value that becomes part of the queue.
pub data Produce (m : Mem Node) (q : Queue)
    : Producer → Mem Node → Queue → Producer → List ℕ → Type 0 where
  make :
      (p : Ptr) (v : ℕ)
      → p ≢ null
      → m p ≡ none
      → Produce m q outside (write m p (some (node null v))) q (made p v) []
  lock :
      {p : Ptr} {v : ℕ}
      → q.t_lock ≡ 0
      → Produce m q (made p v) m (record q { t_lock = 1 }) (locked p v) []
  spin : {p : Ptr} {v : ℕ} → q.t_lock ≢ 0 → Produce m q (made p v) m q (made p v) []
  link :
      {p : Ptr} {v : ℕ} (n : Node)
      → m q.tail ≡ some n
      → Produce m q (locked p v) (write m q.tail (some (node p n.value))) q (linked p) (v ∷ [])
  swing : {p : Ptr} → Produce m q (linked p) m (record q { tail = p }) swung []
  inc : Produce m q swung m (record q { count = incq q.count }) counted []
  unlock : Produce m q counted m (record q { t_lock = 0 }) outside []

-- One step of the consumer; the list has the value that `dequeue` returns.
pub data Consume (m : Mem Node) (q : Queue)
    : Consumer → Mem Node → Queue → Consumer → List ℕ → Type 0 where
  start : Consume m q resting m q (got_head q.head) []
  empty :
      {h : Ptr} (n : Node) → m h ≡ some n → n.next ≡ null → Consume m q (got_head h) m q resting []
  next :
      {h : Ptr} (n : Node)
      → m h ≡ some n
      → n.next ≢ null
      → Consume m q (got_head h) m q (got_next h n.next) []
  value :
      {h n : Ptr} (c : Node)
      → m n ≡ some c
      → Consume m q (got_next h n) m q (got_value h n c.value) []
  move :
      {h n : Ptr} {v : ℕ} → Consume m q (got_value h n v) m (record q { head = n }) (moved h v) []
  free :
      {h : Ptr} {v : ℕ} (n : Node)
      → m h ≡ some n
      → Consume m q (moved h v) (write m h none) q (freed v) []
  dec : {v : ℕ} → Consume m q (freed v) m (record q { count = decq q.count }) resting (v ∷ [])

abbrev pub update {ℓ} : {A : Type ℓ} → (ℕ → A) → ℕ → A → ℕ → A
update f i a j = if i == j then a else f j

-- Everything that the threads share or hold, with the values linked so far and the values returned
-- so far, in order.
pub record World : Type 0 where
  pub mem : Mem Node
  pub queue : Queue
  pub producers : ℕ → Producer
  pub consumer : Consumer
  pub sent : List ℕ
  pub received : List ℕ

pub data Step (w : World) : World → Type 0 where
  produce :
      (i : ℕ) {m : Mem Node} {q : Queue} {p : Producer} {es : List ℕ}
      → Produce w.mem w.queue (w.producers i) m q p es
      → Step w
          (record w { mem = m; queue = q; producers = update w.producers i p; sent = w.sent ++ es })
  consume :
      {m : Mem Node} {q : Queue} {c : Consumer} {es : List ℕ}
      → Consume w.mem w.queue w.consumer m q c es
      → Step w (record w { mem = m; queue = q; consumer = c; received = w.received ++ es })

-- A queue as `new_queue` leaves it, with the dummy node at `d`.
abbrev pub initial : Ptr → World
initial d = record {
  mem = write (λ _. none) d (some (node null 0));
  queue = record { head = d; tail = d; count = 0; t_lock = 0 };
  producers = λ _. outside;
  consumer = resting;
  sent = [];
  received = [];
}

pub data Reach (d : Ptr) : World → Type 0 where
  begin : Reach d (initial d)
  later : {w w' : World} → Reach d w → Step w w' → Reach d w'
