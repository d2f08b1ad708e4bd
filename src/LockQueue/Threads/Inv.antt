-- ===== src/LockQueue/Threads/Inv.antt =====
-- main/lock-queue.c run by many threads: what holds between any two steps.
use coremu.Common.{
  ℕ, ◌+◌, ◌%◌, ◌^◌, ◌≡◌, ◌≢◌, Bool, true, false, Option, none, some, List, [], ◌∷◌, ◌++◌, ◌==◌, map,
  length,
}
use coremu.Memory.{Ptr, null, Mem, Points}
use coremu.LockQueue.{Node, node}
use coremu.Chain.{Cells, first, last, has, Chain}
use coremu.LockQueue.Threads.{
  Producer, outside, made, locked, linked, swung, Consumer, got_head, got_next, got_value, moved,
  freed, World,
}

-- Between taking the lock and releasing it.
abbrev pub critical : Producer → Bool
critical outside = false
critical (made _ _) = false
critical _ = true

-- The node that only this producer knows.
abbrev pub private_node : Producer → Option (Ptr × ℕ)
private_node (made p v) = some (p, v)
private_node (locked p v) = some (p, v)
private_node _ = none

-- What the producer `owner` is doing; nobody is in the critical section without one.
abbrev pub inside : Option ℕ → (ℕ → Producer) → Producer
inside none ps = outside
inside (some i) ps = ps i

abbrev pub lock_word : Option ℕ → ℕ
lock_word none = 0
lock_word (some _) = 1

-- The value that has left the list and has not been returned.
abbrev pub taken : Consumer → List ℕ
taken (moved _ v) = v ∷ []
taken (freed v) = v ∷ []
taken _ = []

-- The node that has left the list and has not been freed.
abbrev pub limbo : Consumer → Ptr → Bool
limbo (moved h _) a = a == h
limbo _ a = false

abbrev pub TailOk : Producer → Ptr → Ptr → Type 0
TailOk (linked p) tail end = end ≡ p
TailOk _ tail end = tail ≡ end

-- The count lags while a linked value is not counted.
abbrev pub CountOk : Producer → ℕ → ℕ → Type 0
CountOk (linked _) count size = (count + 1) % 2 ^ 64 ≡ size % 2 ^ 64
CountOk swung count size = (count + 1) % 2 ^ 64 ≡ size % 2 ^ 64
CountOk _ count size = count ≡ size % 2 ^ 64

-- What the locals of the consumer say of memory.
abbrev pub ConsumerOk : Mem Node → Ptr → Ptr × ℕ → Cells ℕ → Consumer → Type 0
ConsumerOk m head d xs (got_head h) = h ≡ head
ConsumerOk m head d xs (got_next h n) = (h ≡ head) × (n ≡ first xs) × (n ≢ null)
ConsumerOk m head d xs (got_value h n v) = (h ≡ head) × (ys : Cells ℕ) × (xs ≡ (n, v) ∷ ys)
ConsumerOk m head d xs (moved h v) = (n : Node) × Points m h n × (has h (d ∷ xs) ≡ false)
ConsumerOk m head d xs _ = Unit

pub record IsPrivate (m : Mem Node) (c : Consumer) (cells : Cells ℕ) (p : Ptr) (v : ℕ)
    : Type 0 where
  pub points : Points m p (node null v)
  pub out : has p cells ≡ false
  pub kept : limbo c p ≡ false

pub record Inv (w : World) (owner : Option ℕ) (d : Ptr × ℕ) (xs : Cells ℕ) : Type 0 where
  pub chain : Chain node w.mem (d ∷ xs)
  pub head : w.queue.head ≡ d.0
  pub history : w.sent ≡ w.received ++ (taken w.consumer ++ map (λ (c : Ptr × ℕ). c.1) xs)
  pub alone : (i : ℕ) → critical (w.producers i) ≡ true → owner ≡ some i
  pub entered : (i : ℕ) → owner ≡ some i → critical (w.producers i) ≡ true
  pub lock : w.queue.t_lock ≡ lock_word owner
  pub tail : TailOk (inside owner w.producers) w.queue.tail (last d xs).0
  pub count :
      CountOk (inside owner w.producers) w.queue.count (length xs + length (taken w.consumer))
  pub private :
      (i : ℕ) (p : Ptr) (v : ℕ)
      → private_node (w.producers i) ≡ some (p, v)
      → IsPrivate w.mem w.consumer (d ∷ xs) p v
  pub distinct :
      (i j : ℕ) (p : Ptr) (u v : ℕ)
      → private_node (w.producers i) ≡ some (p, u)
      → private_node (w.producers j) ≡ some (p, v)
      → i ≡ j
  pub consumer : ConsumerOk w.mem w.queue.head d xs w.consumer
