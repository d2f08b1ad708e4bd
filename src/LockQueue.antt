-- ===== src/LockQueue.antt =====
-- main/lock-queue.c: the queue of the default build, a linked list with a dummy node in front whose
-- producers take a spin lock.
pub mod Fifo
pub mod Impl
pub mod Tests
pub mod Threads
use coremu.Common.{ℕ, ◌+◌, ◌-◌, ◌%◌, ◌^◌, Option, none, some, ◌==◌, ◌&&◌, not, if◌then◌else◌}
use coremu.Common.Int.{ℤ, int64}
use coremu.Memory.{Ptr, null, Cmd, aborted, pure, ◌>>=◌, ◌>>◌, load, store, get, modify}
use coremu.Malloc.{coremu_mallocz, coremu_free}
use coremu.SpinLock
use coremu.SpinLock.{coremu_spin_lock}

-- `node_t`.
pub record Node : Type 0 where
  pub next : Ptr
  pub value : ℕ

abbrev pub node : Ptr → ℕ → Node
node q v = record { next = q; value = v }

-- `queue_t`.
pub record Queue : Type 0 where
  pub head : Ptr
  pub tail : Ptr
  pub count : ℕ  -- uint64_t
  pub t_lock : ℕ

-- `atomic_incq` and `atomic_decq` on the count.
abbrev pub incq : ℕ → ℕ
incq n = (n + 1) % 2 ^ 64

abbrev pub decq : ℕ → ℕ
decq n = (n + 2 ^ 64 - 1) % 2 ^ 64

abbrev pub QueueCmd : Type 0 → Type 0
QueueCmd A = Cmd Node Queue A

-- `fresh` is what malloc returns, `junk` what the block holds before it is cleared.
unfoldable pub new_node : Ptr → Node → QueueCmd Ptr
new_node fresh junk = coremu_mallocz fresh junk (node null 0)

unfoldable pub set_next : Ptr → Ptr → QueueCmd (Unit {0})
set_next p q = do n ← load p; store p (record n { next = q })

unfoldable pub set_value : Ptr → ℕ → QueueCmd (Unit {0})
set_value p v = do n ← load p; store p (record n { value = v })

unfoldable pub initialize : Ptr → Node → QueueCmd (Unit {0})
unfolding new_node
initialize fresh junk = do
  p ← new_node fresh junk
  set_next p null
  modify (λ q. record q { head = p; tail = p; count = 0 })
  modify (λ q. record q { t_lock = 0 })

unfoldable pub new_queue : Ptr → Node → QueueCmd (Unit {0})
unfolding initialize
new_queue fresh junk = do
  initialize fresh junk
  q ← get
  if not (q.head == null) && not (q.tail == null) && q.head == q.tail
      then pure tt
      else (λ _. aborted)

unfoldable pub enqueue : ℕ → Ptr → Node → ℕ → QueueCmd (Unit {0})
unfolding new_node
enqueue fuel fresh junk value = do
  p ← new_node fresh junk
  set_value p value
  set_next p null
  coremu_spin_lock (λ q. q.t_lock) (λ l q. record q { t_lock = l }) fuel
  q ← get
  set_next q.tail p
  modify (λ q. record q { tail = p })
  modify (λ q. record q { count = incq q.count })
  modify (λ q. record q { t_lock = 0 })

-- `none` is the return value false.
unfoldable pub dequeue : QueueCmd (Option ℕ)
dequeue = do
  q ← get
  n ← load q.head
  if n.next == null then pure none else (do
    m ← load n.next
    modify (λ q. record q { head = n.next })
    coremu_free q.head
    modify (λ q. record q { count = decq q.count })
    pure (some m.value))

unfoldable pub queue_get_size : Queue → ℤ
queue_get_size q = int64 q.count
