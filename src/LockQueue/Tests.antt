-- ===== src/LockQueue/Tests.antt =====
-- main/lock-queue.c: a queue that is set up and run, and the theorems at its states.
use coremu.Common.{ℕ, ◌≡◌, refl, false, Option, none, some, [], ◌∷◌, arith}
use coremu.Memory.{Ptr, Store, Run, ok, ◌>>=◌, ◌>>◌, pure, write, load, store, free}
use coremu.Malloc.{coremu_mallocz, coremu_free}
use coremu.SpinLock.{testandset, coremu_spin_lock}
use coremu.LockQueue.{Node, node, Queue, QueueCmd, set_next, set_value, new_queue, enqueue, dequeue}
use coremu.Chain.{has}
use coremu.LockQueue.Fifo.{IsQueue, enqueue-append, dequeue-oldest}

abbrev nothing : Store Node Queue
nothing = record { mem = λ _. none; glob = record { head = 9; tail = 9; count = 9; t_lock = 9 } }

abbrev junk : Node
junk = node 7 7

-- Two values in, and three attempts to take one out.
session : QueueCmd (Option ℕ × Option ℕ × Option ℕ)
session = do
  new_queue 16 junk
  enqueue 1 32 junk 5
  enqueue 1 48 junk 6
  a ← dequeue
  b ← dequeue
  c ← dequeue
  pure (a, b, c)

abbrev value : {A : Type 0} → Run Node Queue A → Option A
value (ok a s) = some a
value _ = none

session_order : value (session nothing) ≡ some (some 5, some 6, none)
unfolding session new_queue enqueue dequeue set_next set_value load store free coremu_mallocz
    coremu_free coremu_spin_lock testandset
session_order = refl

-- The empty queue at 16.
abbrev pub empty : Store Node Queue
empty = record {
  mem = write (λ _. none) 16 (some (node 0 0));
  glob = record { head = 16; tail = 16; count = 0; t_lock = 0 };
}

-- A queue with the value 5 at 32.
abbrev pub single : Store Node Queue
single = record {
  mem = write (write (λ _. none) 32 (some (node 0 5))) 16 (some (node 32 0));
  glob = record { head = 16; tail = 32; count = 1; t_lock = 0 };
}

pub empty-IsQueue : IsQueue empty (16, 0) []
empty-IsQueue = record {
  chain = (omega arith, refl, refl, tt);
  head = refl;
  tail = refl;
  count = refl;
  unlocked = refl;
}

pub single-IsQueue : IsQueue single (16, 0) ((32, 5) ∷ [])
single-IsQueue = record {
  chain = (omega arith, refl, refl, (omega arith, refl, refl, tt));
  head = refl;
  tail = refl;
  count = refl;
  unlocked = refl;
}

enqueue-append_example :
    (s : Store Node Queue) × (enqueue 1 48 junk 6 single ≡ ok tt s)
    × IsQueue s (16, 0) ((32, 5) ∷ (48, 6) ∷ [])
    × ((a : Ptr)
        → has {A = ℕ} a ((16, 0) ∷ (32, 5) ∷ (48, 6) ∷ []) ≡ false
        → s.mem a ≡ single.mem a)
enqueue-append_example =
    enqueue-append single (16, 0) ((32, 5) ∷ []) 0 48 junk 6 single-IsQueue (omega arith) refl
      (omega arith)

dequeue-oldest_example :
    (s : Store Node Queue) × (dequeue single ≡ ok (some 5) s)
    × IsQueue s (32, 5) []
    × (s.mem ≡ write single.mem 16 none)
dequeue-oldest_example = dequeue-oldest single (16, 0) 32 5 [] single-IsQueue (omega arith)
