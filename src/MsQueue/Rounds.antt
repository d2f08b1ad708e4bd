-- ===== src/MsQueue/Rounds.antt =====
-- main/ms-queue.c: the swaps when no thread interferes, and a round of the loop of `enqueue`.
use coremu.Common.{ℕ, suc, ◌%◌, ◌≡◌, ◌≢◌, refl, true, some, arith, ==_ne, ==_iff}
use coremu.Memory.{Ptr, null, Store, ok, write, Points, load-ok, store-ok}
use coremu.MsQueue.{
  Tagged, tagged, Node, node, Queue, same, bump, cas_next, cas_head, cas_tail, cmp_head, cmp_tail,
  new_node, set_value, set_next_ptr, enqueue_loop, dequeue_loop,
}

pub same_refl : (a : Tagged) → same a a ≡ true
same_refl a = ground arith

pub cmp_tail-ok : (s : Store Node Queue) → cmp_tail s.glob.tail s ≡ ok true s
unfolding cmp_tail cas_tail
cmp_tail-ok s = rw (same_refl s.glob.tail) refl

pub cmp_head-ok : (s : Store Node Queue) → cmp_head s.glob.head s ≡ ok true s
unfolding cmp_head cas_head
cmp_head-ok s = rw (same_refl s.glob.head) refl

pub cas_tail-ok :
    (s : Store Node Queue) (new : Tagged)
    → cas_tail s.glob.tail new s ≡ ok true (record s { glob = record (s.glob) { tail = new } })
unfolding cas_tail
cas_tail-ok s new = rw (same_refl s.glob.tail) refl

pub cas_head-ok :
    (s : Store Node Queue) (new : Tagged)
    → cas_head s.glob.head new s ≡ ok true (record s { glob = record (s.glob) { head = new } })
unfolding cas_head
cas_head-ok s new = rw (same_refl s.glob.head) refl

pub cas_next-ok :
    (s : Store Node Queue) (p : Ptr) (n : Node) (new : Tagged)
    → Points s.mem p n
    → p % 16 ≡ 0
    → cas_next p n.next new s ≡ ok true (record s { mem = write s.mem p (some (node new n.value)) })
unfolding cas_next
cas_next-ok s p n new at al = rw (al, load-ok s at, same_refl n.next, store-ok s at) refl

pub set_value-ok :
    (s : Store Node Queue) {p : Ptr} {n : Node} (w : ℕ)
    → Points s.mem p n
    → set_value p w s ≡ ok tt (record s { mem = write s.mem p (some (node n.next w)) })
unfolding set_value
set_value-ok s w e = rw (load-ok s e, store-ok s e) refl

pub set_next_ptr-ok :
    (s : Store Node Queue) {p : Ptr} {n : Node} (r : Ptr)
    → Points s.mem p n
    → set_next_ptr p r s
      ≡ ok tt (record s { mem = write s.mem p (some (node (tagged r n.next.count) n.value)) })
unfolding set_next_ptr
set_next_ptr-ok s r e = rw (load-ok s e, store-ok s e) refl

-- One round is enough when the tail is the last node.
pub enqueue_loop-last :
    (s : Store Node Queue) (fuel : ℕ) (p : Ptr) (v k : ℕ)
    → Points s.mem s.glob.tail.ptr (node (tagged null k) v)
    → s.glob.tail.ptr % 16 ≡ 0
    → enqueue_loop (suc fuel) p s
      ≡ ok s.glob.tail
          (record s { mem = write s.mem s.glob.tail.ptr (some (node (tagged p (bump k)) v)) })
unfolding enqueue_loop
enqueue_loop-last s fuel p v k at al =
    rw (load-ok s at, cmp_tail-ok s, cas_next-ok s _ _ (tagged p (bump k)) at al) refl

pub new_node-ok :
    (s : Store Node Queue) (p : Ptr) (junk : Node)
    → p ≢ null
    → new_node p junk s ≡ ok p (record s { mem = write s.mem p (some junk) })
unfolding new_node
new_node-ok s p junk ne = rw (==_ne p null ne) refl

-- Another thread has linked the node at `p` and not swung the tail to it: a round of `enqueue` does
-- that and goes on.
pub enqueue_loop-helps :
    (s : Store Node Queue) (fuel : ℕ) (p q : Ptr) (v k : ℕ)
    → Points s.mem s.glob.tail.ptr (node (tagged p k) v)
    → p ≢ null
    → enqueue_loop (suc fuel) q s
      ≡ enqueue_loop fuel q
          (record s { glob = record (s.glob) { tail = tagged p (bump s.glob.tail.count) } })
unfolding enqueue_loop
enqueue_loop-helps s fuel p q v k at ne =
    rw
      (
        load-ok s at,
        cmp_tail-ok s,
        ==_ne p null ne,
        cas_tail-ok s (tagged p (bump s.glob.tail.count)),
      )
      refl

-- The same for `dequeue` when the dummy node is the tail.
pub dequeue_loop-helps :
    (s : Store Node Queue) (fuel : ℕ) (p : Ptr) (v k : ℕ)
    → s.glob.head.ptr ≡ s.glob.tail.ptr
    → Points s.mem s.glob.head.ptr (node (tagged p k) v)
    → p ≢ null
    → dequeue_loop (suc fuel) s
      ≡ dequeue_loop fuel
          (record s { glob = record (s.glob) { tail = tagged p (bump s.glob.tail.count) } })
unfolding dequeue_loop
dequeue_loop-helps s fuel p v k same at ne =
    rw
      (
        load-ok s at,
        cmp_head-ok s,
        (==_iff s.glob.head.ptr s.glob.tail.ptr).1 same,
        ==_ne p null ne,
        cas_tail-ok s (tagged p (bump s.glob.tail.count)),
      )
      refl
