-- ===== src/LockQueue/Impl.antt =====
-- main/lock-queue.c as an implementation of incl/queue.h.
use coremu.Common.{
  ℕ, ◌+◌, ◌^◌, ◌<◌, ◌≡◌, ◌≢◌, refl, sym, ap, ◌∙◌, Option, none, some, List, [], ◌∷◌, ◌++◌, arith,
  length, length-map, map, map-append,
}
use coremu.Common.Int.{pos}
use coremu.Memory.{
  Ptr, null, Store, Run, ok, aborted, fault, spinning, write, write-write, Points-write,
}
use coremu.Malloc.{mallocz-ok}
use coremu.Queue.{QueueImpl}
use coremu.LockQueue.{Node, node, Queue, new_queue, initialize, enqueue, dequeue, queue_get_size}
use coremu.Chain.{Cells}
use coremu.LockQueue.Fifo.{IsQueue, set_next-ok, enqueue-append, dequeue-empty, dequeue-oldest}

abbrev pub returned : {C R A : Type 0} → Run C R A → Option (A × Store C R)
returned (ok a s) = some (a, s)
returned aborted = none
returned fault = none
returned spinning = none

abbrev pub state : {A B : Type 0} → Option (A × B) → Option B
state none = none
state (some (a, b)) = some b

abbrev pub values : Cells ℕ → List ℕ
values = map (λ (c : Ptr × ℕ). c.1)

-- The store of the queue, with the dummy node and the nodes behind it.
abbrev pub Holds : Store Node Queue → List ℕ → Type 0
Holds s vs = (d : Ptr × ℕ) × (xs : Cells ℕ) × IsQueue s d xs × (values xs ≡ vs)

pub length-values : (xs : Cells ℕ) {vs : List ℕ} → values xs ≡ vs → length xs ≡ length vs
length-values xs e = sym (length-map (λ c. c.1) xs) ∙ ap length e

-- The block that holds a queue, before `initialize`.
abbrev blank : Store Node Queue
blank = record {
  mem = λ _. none;
  glob = record { head = null; tail = null; count = 0; t_lock = 0 };
}

pub new-Holds :
    (p : ℕ)
    → p ≢ null
    → (s : Store Node Queue) × (state (returned (new_queue p (node 0 0) blank)) ≡ some s)
      × Holds s []
unfolding new_queue initialize
new-Holds p ne =
    let placed : Store Node Queue = record blank { mem = write blank.mem p (some (node null 0)) } in
    let points = Points-write blank.mem p (node null 0) ne in
    (
      record {
        mem = write blank.mem p (some (node null 0));
        glob = record { head = p; tail = p; count = 0; t_lock = 0 };
      },
      rw
          (
            mallocz-ok blank p ne (node 0 0) (node null 0),
            set_next-ok placed null points,
            write-write blank.mem p (some (node null 0)) (some (node null 0)),
          )
          (ground arith),
      (
        (p, 0),
        [],
        record {
          chain = (ne, points.holds, refl, tt);
          head = refl;
          tail = refl;
          count = refl;
          unlocked = refl;
        },
        refl,
      ),
    )

pub enqueue-Holds :
    (s : Store Node Queue) (vs : List ℕ) (p v : ℕ)
    → Holds s vs
    → (p ≢ null) × (s.mem p ≡ none)
    → length vs + 1 < 2 ^ 63
    → (s' : Store Node Queue) × (state (returned (enqueue 1 p (node 0 0) v s)) ≡ some s')
      × Holds s' (vs ++ v ∷ [])
enqueue-Holds s vs p v (d, xs, is, e) room small =
    let (s', runs, is', same) =
      enqueue-append s d xs 0 p (node 0 0) v is room.0 room.1 (omega (arith, length-values xs e)) in
    (
      s',
      rw runs refl,
      (
        d,
        xs ++ (p, v) ∷ [],
        is',
        map-append (λ c. c.1) xs ((p, v) ∷ []) ∙ ap (λ ys. ys ++ v ∷ []) e,
      ),
    )

pub dequeue_empty-Holds :
    (s : Store Node Queue)
    → Holds s []
    → (s' : Store Node Queue) × (returned (dequeue s) ≡ some (none, s')) × Holds s' []
dequeue_empty-Holds s (d, [], is, e) = (s, rw (dequeue-empty s d is) refl, (d, [], is, refl))
dequeue_empty-Holds s (d, c ∷ xs, is, e) = cc

pub dequeue-Holds :
    (s : Store Node Queue) (v : ℕ) (vs : List ℕ)
    → Holds s (v ∷ vs)
    → length vs + 1 < 2 ^ 63
    → (s' : Store Node Queue) × (returned (dequeue s) ≡ some (some v, s')) × Holds s' vs
dequeue-Holds s v vs (d, [], is, e) small = cc
dequeue-Holds s v vs (d, (q, w) ∷ xs, is, e) small =
    let w≡v : w ≡ v = cc in
    let rest : values xs ≡ vs = cc in
    let (s', runs, is', same) =
      dequeue-oldest s d q w xs is (omega (arith, length-values xs rest)) in
    (s', rw (runs, w≡v) refl, ((q, w), xs, is', rest))

pub size-Holds :
    (s : Store Node Queue) (vs : List ℕ)
    → Holds s vs
    → length vs < 2 ^ 63
    → queue_get_size s.glob ≡ pos (length vs)
unfolding queue_get_size
size-Holds s vs (d, xs, is, e) small = ground (arith, length-values xs e, is.count)

-- Run by one thread at a time, main/lock-queue.c keeps the contract of incl/queue.h.
abbrev pub lock_queue : QueueImpl
lock_queue = record {
  Queue = Store Node Queue;
  new_queue = λ p. state (returned (new_queue p (node 0 0) blank));
  enqueue = λ p v s. state (returned (enqueue 1 p (node 0 0) v s));
  dequeue = λ s. returned (dequeue s);
  queue_get_size = λ s. queue_get_size s.glob;
  Holds = Holds;
  IsNew = λ p. p ≢ null;
  IsRoom = λ p s. (p ≢ null) × (s.mem p ≡ none);
  new-Holds = new-Holds;
  enqueue-Holds = enqueue-Holds;
  dequeue-empty = dequeue_empty-Holds;
  dequeue-Holds = dequeue-Holds;
  size-Holds = size-Holds;
}
