-- ===== src/MsQueue.antt =====
-- main/ms-queue.c: the lock-free queue of Michael and Scott, which a build with LOCKFREE uses in place
-- of main/lock-queue.c. Pointers carry a tag and are swapped by cmpxchg16b
-- (incl/coremu-atomic.h); signals are blocked meanwhile.
pub mod Fifo
pub mod Helping
pub mod Impl
pub mod Rounds
pub mod Threads
pub mod Tests
pub mod Untagged
use coremu.Common.{
  ℕ, zero, suc, ◌+◌, ◌%◌, ◌^◌, Bool, true, false, Option, none, some, ◌==◌, ◌&&◌, not,
  if◌then◌else◌,
}
use coremu.Common.Int.{ℤ, int64}
use coremu.Memory.{
  Ptr, null, Cmd, aborted, spinning, pure, ◌>>=◌, ◌>>◌, load, store, free, get, modify,
}
use coremu.Malloc.{malloc}
use coremu.LockQueue.{incq, decq}

-- `pointer_t`.
pub record Tagged : Type 0 where
  pub ptr : Ptr
  pub count : ℕ  -- uint64_t

abbrev pub tagged : Ptr → ℕ → Tagged
tagged p n = record { ptr = p; count = n }

-- `node_t`.
pub record Node : Type 0 where
  pub next : Tagged
  pub value : ℕ

abbrev pub node : Tagged → ℕ → Node
node q v = record { next = q; value = v }

-- `queue_t`, and whether the thread has all signals blocked.
pub record Queue : Type 0 where
  pub head : Tagged
  pub tail : Tagged
  pub count : ℕ  -- int64_t, as its bit pattern
  pub blocked : Bool

abbrev pub QueueCmd : Type 0 → Type 0
QueueCmd A = Cmd Node Queue A

-- The test of cmpxchg16b.
abbrev pub same : Tagged → Tagged → Bool
same a b = a.ptr == b.ptr && a.count == b.count

-- `CAS` on the `next` of a node; the assertion is on the node's address. `Head` and `Tail` are aligned
-- in the queue.
unfoldable pub cas_next : Ptr → Tagged → Tagged → QueueCmd Bool
cas_next p old new =
    if p % 16 == 0
    then (do
      n ← load p
      if same n.next old then (store p (record n { next = new }) >> pure true) else pure false)
    else (λ _. aborted)

unfoldable pub cas_head : Tagged → Tagged → QueueCmd Bool
cas_head old new = do
  q ← get
  if same q.head old then (modify (λ q. record q { head = new }) >> pure true) else pure false

unfoldable pub cas_tail : Tagged → Tagged → QueueCmd Bool
cas_tail old new = do
  q ← get
  if same q.tail old then (modify (λ q. record q { tail = new }) >> pure true) else pure false

-- `cmp128` on `Head` and on `Tail`.
unfoldable pub cmp_head : Tagged → QueueCmd Bool
cmp_head old = do q ← get; cas_head old q.head

unfoldable pub cmp_tail : Tagged → QueueCmd Bool
cmp_tail old = do q ← get; cas_tail old q.tail

-- `coremu_sigmask_blk`, with the mask it saves, and `coremu_sigmask_res`.
unfoldable pub coremu_sigmask_blk : QueueCmd Bool
coremu_sigmask_blk = do q ← get; modify (λ q. record q { blocked = true }); pure q.blocked

unfoldable pub coremu_sigmask_res : Bool → QueueCmd (Unit {0})
coremu_sigmask_res saved = modify (λ q. record q { blocked = saved })

-- `fresh` is what memalign returns, `junk` what the block holds.
unfoldable pub new_node : Ptr → Node → QueueCmd Ptr
new_node fresh junk = malloc fresh junk

unfoldable pub set_value : Ptr → ℕ → QueueCmd (Unit {0})
set_value p v = do n ← load p; store p (record n { value = v })

-- `p->next.ptr = q`; the tag stays.
unfoldable pub set_next_ptr : Ptr → Ptr → QueueCmd (Unit {0})
set_next_ptr p q = do n ← load p; store p (record n { next = tagged q n.next.count })

unfoldable pub initialize : Ptr → Node → QueueCmd (Unit {0})
unfolding new_node
initialize fresh junk = do
  p ← new_node fresh junk
  set_next_ptr p null
  modify (λ q. record q { head = tagged p 0; tail = tagged p 0; count = 0 })

unfoldable pub new_queue : Ptr → Node → QueueCmd (Unit {0})
unfolding initialize
new_queue fresh junk = do
  initialize fresh junk
  q ← get
  if not (q.head.ptr == null) && not (q.tail.ptr == null) && q.head.ptr == q.tail.ptr
      then pure tt
      else (λ _. aborted)

abbrev pub bump : ℕ → ℕ
bump n = (n + 1) % 2 ^ 64

-- The loop of `enqueue`, with the tail that the node was linked behind.
unfoldable pub enqueue_loop : ℕ → Ptr → QueueCmd Tagged
enqueue_loop zero p = λ _. spinning
enqueue_loop (suc fuel) p =
    let rest = enqueue_loop fuel p in
    do
      q ← get
      n ← load q.tail.ptr
      consistent ← cmp_tail q.tail
      if not consistent
          then rest
          else if n.next.ptr == null
          then (do
            done ← cas_next q.tail.ptr n.next (tagged p (bump n.next.count))
            if done then pure q.tail else rest)
          else (do swung ← cas_tail q.tail (tagged n.next.ptr (bump q.tail.count)); rest)

unfoldable pub enqueue : ℕ → Ptr → Node → ℕ → QueueCmd (Unit {0})
unfolding new_node
enqueue fuel fresh junk value = do
  saved ← coremu_sigmask_blk
  p ← new_node fresh junk
  set_value p value
  set_next_ptr p null
  tail ← enqueue_loop fuel p
  swung ← cas_tail tail (tagged p (bump tail.count))
  modify (λ q. record q { count = incq q.count })
  coremu_sigmask_res saved

-- The loop of `dequeue`: the old dummy node and the value, or `none` on the empty queue.
unfoldable pub dequeue_loop : ℕ → QueueCmd (Option (Ptr × ℕ))
dequeue_loop zero = λ _. spinning
dequeue_loop (suc fuel) =
    let rest = dequeue_loop fuel in
    do
      q ← get
      n ← load q.head.ptr
      consistent ← cmp_head q.head
      if not consistent
          then rest
          else if q.head.ptr == q.tail.ptr
          then (if n.next.ptr == null
              then pure none
              else (do swung ← cas_tail q.tail (tagged n.next.ptr (bump q.tail.count)); rest))
          else (do
            m ← load n.next.ptr
            done ← cas_head q.head (tagged n.next.ptr (bump q.head.count))
            if done then pure (some (q.head.ptr, m.value)) else rest)

-- The end of `dequeue` with what the loop found; on the empty queue it returns before the signals are
-- restored.
unfoldable pub finish : Bool → Option (Ptr × ℕ) → QueueCmd (Option ℕ)
finish saved none = pure none
finish saved (some (h, v)) = do
  (if h == null then pure tt else free h)
  modify (λ q. record q { count = decq q.count })
  coremu_sigmask_res saved
  pure (some v)

unfoldable pub dequeue : ℕ → QueueCmd (Option ℕ)
dequeue fuel = do saved ← coremu_sigmask_blk; found ← dequeue_loop fuel; finish saved found

unfoldable pub queue_get_size : Queue → ℤ
queue_get_size q = int64 q.count
