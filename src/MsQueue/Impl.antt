-- ===== src/MsQueue/Impl.antt =====
-- main/ms-queue.c as an implementation of incl/queue.h.
use coremu.Common.{
  ℕ, ◌+◌, ◌%◌, ◌^◌, ◌<◌, ◌≡◌, ◌≢◌, refl, ap, ◌∙◌, true, false, none, some, List, [], ◌∷◌, ◌++◌,
  arith, length, map-append,
}
use coremu.Common.Int.{pos}
use coremu.Memory.{Ptr, null, Store, write, write-write, Points-write}
use coremu.Chain.{Cells}
use coremu.Queue.{QueueImpl}
use coremu.LockQueue.Impl.{returned, state, values, length-values}
use coremu.MsQueue.{
  Node, node, tagged, Queue, new_queue, initialize, enqueue, dequeue, queue_get_size,
}
use coremu.MsQueue.Untagged.{IsQueue}
use coremu.MsQueue.Rounds.{new_node-ok, set_next_ptr-ok}
use coremu.MsQueue.Fifo.{ms_enqueue-append, ms_dequeue-empty, ms_dequeue-oldest}

abbrev pub Holds : Store Node Queue → List ℕ → Type 0
Holds s vs = (d : Ptr × ℕ) × (xs : Cells ℕ) × IsQueue s d xs × (values xs ≡ vs)

-- What memalign's block holds before it is written.
abbrev pub junk : Node
junk = node (tagged null 0) 0

abbrev pub blank : Store Node Queue
blank = record {
  mem = λ _. none;
  glob = record { head = tagged null 0; tail = tagged null 0; count = 0; blocked = false };
}

-- The address is aligned, as memalign promises.
abbrev pub IsRoom : ℕ → Store Node Queue → Type 0
IsRoom p s = (p ≢ null) × (s.mem p ≡ none) × (p % 16 ≡ 0)

pub ms_enqueue-Holds :
    (s : Store Node Queue) (vs : List ℕ) (p v : ℕ)
    → Holds s vs
    → IsRoom p s
    → length vs + 1 < 2 ^ 63
    → (s' : Store Node Queue) × (state (returned (enqueue 1 p junk v s)) ≡ some s')
      × Holds s' (vs ++ v ∷ [])
ms_enqueue-Holds s vs p v (d, xs, is, e) (ne, new, al) small =
    let (s', runs, is', mask, kept) =
      ms_enqueue-append s d xs 0 p junk v is ne new al (omega (arith, length-values xs e)) in
    (
      s',
      rw runs refl,
      (
        d,
        xs ++ (p, v) ∷ [],
        is',
        map-append (λ c. c.1) xs ((p, v) ∷ []) ∙ ap (λ ys. ys ++ v ∷ []) e,
      ),
    )

pub ms_empty-Holds :
    (s : Store Node Queue)
    → Holds s []
    → (s' : Store Node Queue) × (returned (dequeue 1 s) ≡ some (none, s')) × Holds s' []
ms_empty-Holds s (d, [], is, e) = (
  record s { glob = record (s.glob) { blocked = true } },
  rw (ms_dequeue-empty s d 0 is) refl,
  (
    d,
    [],
    record {
      chain = is.chain;
      head = is.head;
      tail = is.tail;
      count = is.count;
      aligned = is.aligned;
    },
    refl,
  ),
)
ms_empty-Holds s (d, c ∷ xs, is, e) = cc

pub ms_dequeue-Holds :
    (s : Store Node Queue) (v : ℕ) (vs : List ℕ)
    → Holds s (v ∷ vs)
    → length vs + 1 < 2 ^ 63
    → (s' : Store Node Queue) × (returned (dequeue 1 s) ≡ some (some v, s')) × Holds s' vs
ms_dequeue-Holds s v vs (d, [], is, e) small = cc
ms_dequeue-Holds s v vs (d, (q, w) ∷ xs, is, e) small =
    let w≡v : w ≡ v = cc in
    let rest : values xs ≡ vs = cc in
    let (s', runs, is', mask, same) =
      ms_dequeue-oldest s d q w xs 0 is (omega (arith, length-values xs rest)) in
    (s', rw (runs, w≡v) refl, ((q, w), xs, is', rest))

pub ms_size-Holds :
    (s : Store Node Queue) (vs : List ℕ)
    → Holds s vs
    → length vs < 2 ^ 63
    → queue_get_size s.glob ≡ pos (length vs)
unfolding queue_get_size
ms_size-Holds s vs (d, xs, is, e) small = ground (arith, length-values xs e, is.count)

pub ms_new-Holds :
    (p : ℕ)
    → (p ≢ null) × (p % 16 ≡ 0)
    → (s : Store Node Queue) × (state (returned (new_queue p junk blank)) ≡ some s) × Holds s []
unfolding new_queue initialize
ms_new-Holds p (ne, al) =
    let placed : Store Node Queue = record blank { mem = write blank.mem p (some junk) } in
    let points = Points-write blank.mem p junk ne in
    (
      record {
        mem = write blank.mem p (some junk);
        glob = record { head = tagged p 0; tail = tagged p 0; count = 0; blocked = false };
      },
      rw
          (
            new_node-ok blank p junk ne,
            set_next_ptr-ok placed null points,
            write-write blank.mem p (some junk) (some junk),
          )
          (ground arith),
      (
        (p, 0),
        [],
        record {
          chain = (ne, ground arith, refl, tt);
          head = refl;
          tail = refl;
          count = refl;
          aligned = (al, tt);
        },
        refl,
      ),
    )

-- Run by one thread at a time, main/ms-queue.c keeps the contract of incl/queue.h.
abbrev pub ms_queue : QueueImpl
ms_queue = record {
  Queue = Store Node Queue;
  new_queue = λ p. state (returned (new_queue p junk blank));
  enqueue = λ p v s. state (returned (enqueue 1 p junk v s));
  dequeue = λ s. returned (dequeue 1 s);
  queue_get_size = λ s. queue_get_size s.glob;
  Holds = Holds;
  IsNew = λ p. (p ≢ null) × (p % 16 ≡ 0);
  IsRoom = IsRoom;
  new-Holds = ms_new-Holds;
  enqueue-Holds = ms_enqueue-Holds;
  dequeue-empty = ms_empty-Holds;
  dequeue-Holds = ms_dequeue-Holds;
  size-Holds = ms_size-Holds;
}
