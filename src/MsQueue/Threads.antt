-- ===== src/MsQueue/Threads.antt =====
-- main/ms-queue.c run by many threads at once: any number of producers in `enqueue`, and the one core
-- that owns the queue in `dequeue`, interleaved at every access to shared memory. What a producer does
-- to its node before the loop is one step, since no other thread has the node's address. The 16 bytes
-- of a pointer are read at once, and the read of cmp128 before its cmpxchg16b is part of that: the tag
-- grows with every change of `Head` and `Tail`, so that the pointer has not come back to what is
-- compared. `reuse` says whether the allocator hands out a freed
-- block at any time; otherwise it waits for a moment at which no producer holds a pointer that it has read
-- and the consumer is not about to free a node.
pub mod Order
pub mod Inv
pub mod Enqueue
pub mod Link
pub mod Dequeue
pub mod Safety
mod Tests
use coremu.Common.{
  ℕ, ◌≡◌, ◌≢◌, ◌⊎◌, Bool, true, false, Option, none, some, List, [], ◌∷◌, ◌++◌, ◌==◌, if◌then◌else◌,
}
use coremu.Memory.{Ptr, null, Mem, write}
use coremu.LockQueue.{incq, decq}
use coremu.MsQueue.{Tagged, tagged, Node, node, Queue, same, bump}

-- Where a producer stands in `enqueue`, with what it has read.
pub data Producer : Type 0 where
  outside : Producer
  made : (p : Ptr) (v : ℕ) → Producer  -- before tail = Q->Tail
  got_tail : (p : Ptr) (v : ℕ) (t : Tagged) → Producer  -- before next = tail.ptr->next
  got_next : (p : Ptr) (v : ℕ) (t n : Tagged) → Producer  -- before cmp128(&Q->Tail, &tail)
  agreed : (p : Ptr) (v : ℕ) (t n : Tagged) → Producer  -- before the CAS of the loop
  linked : (p : Ptr) (t : Tagged) → Producer  -- before CAS(&Q->Tail, tail, new_ptr)
  swung : Producer  -- before atomic_incq

-- Where the consumer stands in `dequeue`.
pub data Consumer : Type 0 where
  resting : Consumer
  got_head : (h : Tagged) → Consumer  -- before tail = Q->Tail
  got_tail : (h t : Tagged) → Consumer  -- before next = head.ptr->next
  got_next : (h t n : Tagged) → Consumer  -- before cmp128(&Q->Head, &head)
  agreed : (h t n : Tagged) → Consumer  -- before the branch on head.ptr == tail.ptr
  got_value : (h n : Tagged) (v : ℕ) → Consumer  -- before CAS(&Q->Head, head, new_ptr)
  moved : (h : Ptr) (v : ℕ) → Consumer  -- before ms_free(head.ptr)
  freed : (v : ℕ) → Consumer  -- before atomic_decq

-- Memory, the blocks that were freed, and the queue.
pub record Shared : Type 0 where
  pub mem : Mem Node
  pub gone : Ptr → Bool
  pub queue : Queue

-- `CAS(&Q->Tail, old, new)`, whose result nobody uses.
abbrev pub swing_tail : Tagged → Tagged → Shared → Shared
swing_tail old new s = record s {
  queue = record s.queue { tail = if same s.queue.tail old then new else s.queue.tail };
}

-- One step of a producer; the list has the value that becomes part of the queue.
pub data Produce (s : Shared) : Producer → Shared → Producer → List ℕ → Type 0 where
  make :
      (p : Ptr) (v k : ℕ)
      → p ≢ null
      → s.mem p ≡ none
      → Produce s outside
          (record s { mem = write s.mem p (some (node (tagged null k) v)) })
          (made p v)
          []
  read_tail : {p : Ptr} {v : ℕ} → Produce s (made p v) s (got_tail p v s.queue.tail) []
  read_next :
      {p : Ptr} {v : ℕ} {t : Tagged} (c : Node)
      → s.mem t.ptr ≡ some c
      → Produce s (got_tail p v t) s (got_next p v t c.next) []
  differ :
      {p : Ptr} {v : ℕ} {t n : Tagged}
      → same s.queue.tail t ≡ false
      → Produce s (got_next p v t n) s (made p v) []
  agree :
      {p : Ptr} {v : ℕ} {t n : Tagged}
      → same s.queue.tail t ≡ true
      → Produce s (got_next p v t n) s (agreed p v t n) []
  link :
      {p : Ptr} {v : ℕ} {t n : Tagged} (c : Node)
      → n.ptr ≡ null
      → s.mem t.ptr ≡ some c
      → same c.next n ≡ true
      → Produce s
          (agreed p v t n)
          (record s {
            mem = write s.mem t.ptr (some (record c { next = tagged p (bump n.count) }));
          })
          (linked p t)
          (v ∷ [])
  miss :
      {p : Ptr} {v : ℕ} {t n : Tagged} (c : Node)
      → n.ptr ≡ null
      → s.mem t.ptr ≡ some c
      → same c.next n ≡ false
      → Produce s (agreed p v t n) s (made p v) []
  help :
      {p : Ptr} {v : ℕ} {t n : Tagged}
      → n.ptr ≢ null
      → Produce s (agreed p v t n) (swing_tail t (tagged n.ptr (bump t.count)) s) (made p v) []
  swing :
      {p : Ptr} {t : Tagged}
      → Produce s (linked p t) (swing_tail t (tagged p (bump t.count)) s) swung []
  inc :
      Produce s swung
        (record s { queue = record s.queue { count = incq s.queue.count } })
        outside
        []

-- One step of the consumer; the list has the value that `dequeue` returns.
pub data Consume (s : Shared) : Consumer → Shared → Consumer → List ℕ → Type 0 where
  start : Consume s resting s (got_head s.queue.head) []
  read_tail : {h : Tagged} → Consume s (got_head h) s (got_tail h s.queue.tail) []
  read_next :
      {h t : Tagged} (c : Node)
      → s.mem h.ptr ≡ some c
      → Consume s (got_tail h t) s (got_next h t c.next) []
  differ : {h t n : Tagged} → same s.queue.head h ≡ false → Consume s (got_next h t n) s resting []
  agree :
      {h t n : Tagged} → same s.queue.head h ≡ true → Consume s (got_next h t n) s (agreed h t n) []
  empty : {h t n : Tagged} → h.ptr ≡ t.ptr → n.ptr ≡ null → Consume s (agreed h t n) s resting []
  help :
      {h t n : Tagged}
      → h.ptr ≡ t.ptr
      → n.ptr ≢ null
      → Consume s (agreed h t n) (swing_tail t (tagged n.ptr (bump t.count)) s) resting []
  value :
      {h t n : Tagged} (c : Node)
      → h.ptr ≢ t.ptr
      → s.mem n.ptr ≡ some c
      → Consume s (agreed h t n) s (got_value h n c.value) []
  move :
      {h n : Tagged} {v : ℕ}
      → same s.queue.head h ≡ true
      → Consume s
          (got_value h n v)
          (record s { queue = record s.queue { head = tagged n.ptr (bump h.count) } })
          (moved h.ptr v)
          []
  lose :
      {h n : Tagged} {v : ℕ}
      → same s.queue.head h ≡ false
      → Consume s (got_value h n v) s resting []
  free :
      {h : Ptr} {v : ℕ}
      → Consume s
          (moved h v)
          (record s { gone = λ a. if a == h then true else s.gone a })
          (freed v)
          []
  dec :
      {v : ℕ}
      → Consume s
          (freed v)
          (record s { queue = record s.queue { count = decq s.queue.count } })
          resting
          (v ∷ [])

abbrev pub update {ℓ} : {A : Type ℓ} → (ℕ → A) → ℕ → A → ℕ → A
update f i a j = if i == j then a else f j

-- The threads and what they share, with the values linked so far and the values returned so far, in
-- order.
pub record World : Type 0 where
  pub shared : Shared
  pub producers : ℕ → Producer
  pub consumer : Consumer
  pub sent : List ℕ
  pub received : List ℕ

-- A producer that holds no pointer that it has read.
abbrev pub holds_none : Producer → Bool
holds_none outside = true
holds_none (made p v) = true
holds_none swung = true
holds_none _ = false

-- The consumer has unlinked a node and not freed it yet.
abbrev pub unlinking : Consumer → Bool
unlinking (moved h v) = true
unlinking _ = false

-- A moment at which no thread holds a pointer to a node that was taken from the queue.
pub record Quiet (w : World) : Type 0 where
  pub producers_quiet : (i : ℕ) → holds_none (w.producers i) ≡ true
  pub consumer_quiet : unlinking w.consumer ≡ false

-- The allocator takes back the blocks that were freed.
abbrev pub reclaimed : World → World
reclaimed w = record w {
  shared = record w.shared {
    mem = λ a. if w.shared.gone a then none else w.shared.mem a;
    gone = λ a. false;
  };
}

pub data Step (reuse : Bool) (w : World) : World → Type 0 where
  produce :
      (i : ℕ) {s : Shared} {p : Producer} {es : List ℕ}
      → Produce w.shared (w.producers i) s p es
      → Step reuse w
          (record w { shared = s; producers = update w.producers i p; sent = w.sent ++ es })
  consume :
      {s : Shared} {c : Consumer} {es : List ℕ}
      → Consume w.shared w.consumer s c es
      → Step reuse w (record w { shared = s; consumer = c; received = w.received ++ es })
  -- From here on what was freed can be handed out again, and is not to be read.
  reclaim : (reuse ≡ true) ⊎ Quiet w → Step reuse w (reclaimed w)

-- A queue as `new_queue` leaves it, with the dummy node at `d`.
abbrev pub initial : Ptr → World
initial d = record {
  shared = record {
    mem = write (λ _. none) d (some (node (tagged null 0) 0));
    gone = λ _. false;
    queue = record { head = tagged d 0; tail = tagged d 0; count = 0; blocked = false };
  };
  producers = λ _. outside;
  consumer = resting;
  sent = [];
  received = [];
}

pub data Reach (reuse : Bool) (d : Ptr) : World → Type 0 where
  begin : Reach reuse d (initial d)
  later : {w w' : World} → Reach reuse d w → Step reuse w w' → Reach reuse d w'
