-- ===== src/MsQueue/Helping.antt =====
-- main/ms-queue.c: a thread that finds the tail behind the last node, because another one has linked a
-- node and not yet swung the tail, swings it and goes on.
use coremu.Common.{ℕ, suc, ◌≡◌, ◌≢◌, refl, ap, true, none, some, ==_ne}
use coremu.Memory.{Ptr, null, Mem, Store, write, Points, write-write, Points-write}
use coremu.MsQueue.{tagged, Node, node, Queue, bump, coremu_sigmask_blk, enqueue, dequeue}
use coremu.MsQueue.Rounds.{
  new_node-ok, set_value-ok, set_next_ptr-ok, enqueue_loop-helps, dequeue_loop-helps,
}

-- The queue once the tail has been swung to `p`.
abbrev pub swung : Store Node Queue → Ptr → Store Node Queue
swung s p = record s { glob = record (s.glob) { tail = tagged p (bump s.glob.tail.count) } }

-- When a node `p` stands behind the tail, `enqueue` with a new node does the same as it does, in one
-- round less, once the tail has been swung to `p`.
ms_enqueue-swung :
    (s : Store Node Queue) (fuel : ℕ) (p q : Ptr) (junk : Node) (v w k : ℕ)
    → Points s.mem s.glob.tail.ptr (node (tagged p k) w)
    → p ≢ null
    → q ≢ null
    → s.mem q ≡ none
    → enqueue (suc (suc fuel)) q junk v s ≡ enqueue (suc fuel) q junk v (swung s p)
unfolding enqueue coremu_sigmask_blk
ms_enqueue-swung s fuel p q junk v w k at ne new_ne new =
    let masked : Store Node Queue = record s { glob = record (s.glob) { blocked = true } } in
    let masked' : Store Node Queue = swung masked p in
    let m1 : Mem Node = write s.mem q (some junk) in
    let m2 : Mem Node = write s.mem q (some (node junk.next v)) in
    let m3 : Mem Node = write s.mem q (some (node (tagged null junk.next.count) v)) in
    rw
      (
        new_node-ok masked q junk new_ne,
        new_node-ok masked' q junk new_ne,
        set_value-ok (record masked { mem = m1 }) v (Points-write s.mem q junk new_ne),
        set_value-ok (record masked' { mem = m1 }) v (Points-write s.mem q junk new_ne),
        write-write s.mem q (some junk) (some (node junk.next v)),
        set_next_ptr-ok (record masked { mem = m2 }) null
            (Points-write s.mem q (node junk.next v) new_ne),
        set_next_ptr-ok (record masked' { mem = m2 }) null
            (Points-write s.mem q (node junk.next v) new_ne),
        write-write s.mem q (some (node junk.next v)) (some (node (tagged null junk.next.count) v)),
        enqueue_loop-helps (record masked { mem = m3 }) (suc fuel) p q w k apart ne,
      )
      refl
  where
    tail_ne : s.glob.tail.ptr ≢ q
    tail_ne e = cc (at.holds, ap s.mem e, new)

    apart :
        Points
          (write s.mem q (some (node (tagged null junk.next.count) v)))
          s.glob.tail.ptr
          (node (tagged p k) w)
    apart = record { ne_null = at.ne_null; holds = rw (==_ne s.glob.tail.ptr q tail_ne) at.holds }

-- The same for `dequeue` when only the dummy node was in the queue before.
pub ms_dequeue-swung :
    (s : Store Node Queue) (fuel : ℕ) (p : Ptr) (w k : ℕ)
    → s.glob.head.ptr ≡ s.glob.tail.ptr
    → Points s.mem s.glob.head.ptr (node (tagged p k) w)
    → p ≢ null
    → dequeue (suc (suc fuel)) s ≡ dequeue (suc fuel) (swung s p)
unfolding dequeue coremu_sigmask_blk
ms_dequeue-swung s fuel p w k same at ne =
    rw
      (dequeue_loop-helps (record s { glob = record (s.glob) { blocked = true } }) (suc fuel) p w k
        same at ne)
      refl
