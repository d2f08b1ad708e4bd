-- ===== src/MsQueue/Tests.antt =====
-- main/ms-queue.c: a queue that is set up and run, and the theorems at its states.
use coremu.Common.{ℕ, ◌≡◌, refl, Bool, true, false, Option, none, some, [], ◌∷◌, arith}
use coremu.Memory.{Ptr, Store, Run, ok, ◌>>=◌, ◌>>◌, pure, write, load, store, free}
use coremu.Chain.{has}
use coremu.MsQueue.{
  Node, node, tagged, Queue, QueueCmd, cas_next, cas_head, cas_tail, cmp_head, cmp_tail,
  coremu_sigmask_blk, coremu_sigmask_res, set_value, set_next_ptr, new_queue, enqueue_loop, enqueue,
  dequeue_loop, finish, dequeue,
}
use coremu.MsQueue.Untagged.{IsQueue}
use coremu.MsQueue.Fifo.{ms_enqueue-append, ms_dequeue-empty, ms_dequeue-oldest}

abbrev nothing : Store Node Queue
nothing = record {
  mem = λ _. none;
  glob = record { head = tagged 9 9; tail = tagged 9 9; count = 9; blocked = false };
}

abbrev junk : Node
junk = node (tagged 7 7) 7

-- Two values in, and three attempts to take one out.
session : QueueCmd (Option ℕ × Option ℕ × Option ℕ)
session = do
  new_queue 16 junk
  enqueue 1 32 junk 5
  enqueue 1 48 junk 6
  a ← dequeue 1
  b ← dequeue 1
  c ← dequeue 1
  pure (a, b, c)

abbrev value : {A : Type 0} → Run Node Queue A → Option (A × Bool)
value (ok a s) = some (a, s.glob.blocked)
value _ = none

session_order : value (session nothing) ≡ some ((some 5, some 6, none), true)
unfolding session new_queue enqueue dequeue set_value set_next_ptr load store free cas_next cas_head
    cas_tail cmp_head cmp_tail coremu_sigmask_blk coremu_sigmask_res enqueue_loop dequeue_loop
    finish
session_order = refl

-- The empty queue at 16.
abbrev pub empty : Store Node Queue
empty = record {
  mem = write (λ _. none) 16 (some (node (tagged 0 7) 0));
  glob = record { head = tagged 16 0; tail = tagged 16 0; count = 0; blocked = false };
}

-- A queue with the value 5 at 32.
abbrev pub single : Store Node Queue
single = record {
  mem = write (write (λ _. none) 32 (some (node (tagged 0 7) 5))) 16 (some (node (tagged 32 8) 0));
  glob = record { head = tagged 16 0; tail = tagged 32 1; count = 1; blocked = false };
}

pub empty-IsQueue : IsQueue empty (16, 0) []
empty-IsQueue = record {
  chain = (omega arith, refl, refl, tt);
  head = refl;
  tail = refl;
  count = refl;
  aligned = (refl, tt);
}

pub single-IsQueue : IsQueue single (16, 0) ((32, 5) ∷ [])
single-IsQueue = record {
  chain = (omega arith, refl, refl, (omega arith, refl, refl, tt));
  head = refl;
  tail = refl;
  count = refl;
  aligned = (refl, (refl, tt));
}

ms_enqueue-append_example :
    (s : Store Node Queue) × (enqueue 1 48 junk 6 single ≡ ok tt s)
    × IsQueue s (16, 0) ((32, 5) ∷ (48, 6) ∷ [])
    × (s.glob.blocked ≡ false)
    × ((a : Ptr)
        → has {A = ℕ} a ((16, 0) ∷ (32, 5) ∷ (48, 6) ∷ []) ≡ false
        → s.mem a ≡ single.mem a)
ms_enqueue-append_example =
    ms_enqueue-append single (16, 0) ((32, 5) ∷ []) 0 48 junk 6 single-IsQueue (omega arith) refl
      refl (omega arith)

ms_dequeue-empty_example :
    dequeue 1 empty ≡ ok none (record empty { glob = record (empty.glob) { blocked = true } })
ms_dequeue-empty_example = ms_dequeue-empty empty (16, 0) 0 empty-IsQueue

-- Another thread has linked the value 5 at 32 and has not swung the tail.
abbrev lagging : Store Node Queue
lagging = record single { glob = record (single.glob) { tail = tagged 16 0; count = 0 } }

ms_dequeue-oldest_example :
    (s : Store Node Queue) × (dequeue 1 single ≡ ok (some 5) s)
    × IsQueue s (32, 5) []
    × (s.glob.blocked ≡ single.glob.blocked)
    × (s.mem ≡ write single.mem 16 none)
ms_dequeue-oldest_example = ms_dequeue-oldest single (16, 0) 32 5 [] 0 single-IsQueue (omega arith)
