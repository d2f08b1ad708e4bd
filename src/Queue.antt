-- ===== src/Queue.antt =====
-- incl/queue.h: what the rest of COREMU needs of an interrupt queue. The two implementations fill
-- this record, and main/intr.c is modelled over it.
mod Tests
pub mod Workload
pub mod Agree
use coremu.Common.{ℕ, ◌+◌, ◌^◌, ◌<◌, ◌≡◌, ◌≢◌, Option, none, some, List, [], ◌∷◌, ◌++◌, length}
use coremu.Common.Int.{ℤ, pos}

pub record QueueImpl : Type 1 where
  pub Queue : Type 0
  -- `new_queue()`, given the address that malloc returns for its first node.
  pub new_queue : ℕ → Option Queue
  -- `enqueue(Q, value)`, given the address that malloc returns; `none` if it does not return.
  pub enqueue : ℕ → ℕ → Queue → Option Queue
  -- `dequeue(Q, &value)`, its result and `value`.
  pub dequeue : Queue → Option (Option ℕ × Queue)
  pub queue_get_size : Queue → ℤ
  -- The queue is in order and holds the values.
  pub Holds : Queue → List ℕ → Type 0
  -- malloc may return this address for a new queue, and for another node.
  pub IsNew : ℕ → Type 0
  pub IsRoom : ℕ → Queue → Type 0
  pub new-Holds : (p : ℕ) → IsNew p → (q : Queue) × (new_queue p ≡ some q) × Holds q []
  pub enqueue-Holds :
      (q : Queue) (xs : List ℕ) (p v : ℕ)
      → Holds q xs
      → IsRoom p q
      → length xs + 1 < 2 ^ 63
      → (q' : Queue) × (enqueue p v q ≡ some q') × Holds q' (xs ++ v ∷ [])
  pub dequeue-empty :
      (q : Queue) → Holds q [] → (q' : Queue) × (dequeue q ≡ some (none, q')) × Holds q' []
  pub dequeue-Holds :
      (q : Queue) (v : ℕ) (xs : List ℕ)
      → Holds q (v ∷ xs)
      → length xs + 1 < 2 ^ 63
      → (q' : Queue) × (dequeue q ≡ some (some v, q')) × Holds q' xs
  pub size-Holds :
      (q : Queue) (xs : List ℕ)
      → Holds q xs
      → length xs < 2 ^ 63
      → queue_get_size q ≡ pos (length xs)
