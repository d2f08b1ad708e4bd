-- ===== src/MsQueue/Fifo.antt =====
-- main/ms-queue.c: run by one thread at a time, the queue is first in, first out.
use coremu.Common.{
  ℕ, suc, ◌+◌, ◌%◌, ◌^◌, ◌<◌, ◌≡◌, ◌≢◌, refl, sym, ap, ◌∙◌, true, false, [], ◌∷◌, ◌++◌, subst, none,
  some, arith, subst, ◌==◌, length, length-append,
}
use coremu.Memory.{
  Ptr, null, Mem, Store, ok, write, Points, not_null, load-ok, free-ok, write-write, Points-write,
}
use coremu.Chain.{
  Cells, first, last, has, Chain, Chain-write, has-last, Points-last, Chain-link, last-append,
  has-append, ne_of_has, not-has_of_none,
}
use coremu.LockQueue
use coremu.LockQueue.{incq, decq}
use coremu.MsQueue.{
  tagged, Node, node, Queue, bump, coremu_sigmask_blk, coremu_sigmask_res, enqueue, dequeue_loop,
  finish, dequeue,
}
use coremu.MsQueue.Untagged.{untagged, untag, IsAligned, IsQueue, untag-write, Points-untag}
use coremu.MsQueue.Rounds.{
  cmp_head-ok, cas_tail-ok, cas_head-ok, set_value-ok, set_next_ptr-ok, enqueue_loop-last,
  new_node-ok,
}

abbrev linked : Store Node Queue → Ptr × ℕ → Cells ℕ → Ptr → ℕ → ℕ → ℕ → Store Node Queue
linked s d xs p v j k = record {
  mem =
      write (write s.mem p (some (node (tagged null j) v))) (last d xs).0
        (some (node (tagged p (bump k)) (last d xs).1));
  glob = record {
    head = s.glob.head;
    tail = tagged p (bump s.glob.tail.count);
    count = length xs + 1;
    blocked = s.glob.blocked;
  };
}

aligned-last : (d : Ptr × ℕ) (xs : Cells ℕ) → IsAligned (d ∷ xs) → (last d xs).0 % 16 ≡ 0
aligned-last d [] al = al.0
aligned-last d (x ∷ xs) al = aligned-last x xs al.1

incq_small : (n : ℕ) → n + 1 < 2 ^ 63 → incq n ≡ n + 1
incq_small n h = omega arith

module _ (s : Store Node Queue) (d : Ptr × ℕ) (xs : Cells ℕ) (p : Ptr) (junk : Node) (v : ℕ)
    (is : IsQueue s d xs) (ne : p ≢ null) (new : s.mem p ≡ none) where
  out : has p (d ∷ xs) ≡ false
  out = not-has_of_none LockQueue.node (untag s.mem) p (d ∷ xs) is.chain (ap untagged new)

  -- Memory once the new node is filled in.
  abbrev filled : Mem Node
  filled = write s.mem p (some (node (tagged null junk.next.count) v))

  filled-Chain : Chain LockQueue.node (untag filled) (d ∷ xs)
  filled-Chain =
      subst (λ m. Chain LockQueue.node m (d ∷ xs)) (sym (untag-write s.mem p _))
        (Chain-write LockQueue.node (untag s.mem) p _ (d ∷ xs) out is.chain)

  at_tail : (k : ℕ) × Points filled s.glob.tail.ptr (node (tagged null k) (last d xs).1)
  at_tail =
      rw is.tail (Points-untag (Points-last LockQueue.node (untag filled) d.0 d.1 xs filled-Chain))

  enqueue_run :
      (fuel : ℕ)
      → length xs + 1 < 2 ^ 63
      → enqueue (suc fuel) p junk v s ≡ ok tt (linked s d xs p v junk.next.count at_tail.0)
  unfolding enqueue coremu_sigmask_blk coremu_sigmask_res
  enqueue_run fuel small =
      let s1 : Store Node Queue = record {
        mem = write s.mem p (some junk);
        glob = record (s.glob) { blocked = true };
      } in
      let s2 : Store Node Queue = record s1 { mem = write s.mem p (some (node junk.next v)) } in
      let s3 : Store Node Queue = record s1 { mem = filled } in
      let s4 : Store Node Queue = record s3 {
        mem = write filled s.glob.tail.ptr (some (node (tagged p (bump at_tail.0)) (last d xs).1));
      } in
      rw
        (
          new_node-ok (record s { glob = record (s.glob) { blocked = true } }) p junk ne,
          set_value-ok s1 v (Points-write s.mem p junk ne),
          write-write s.mem p (some junk) (some (node junk.next v)),
          set_next_ptr-ok s2 null (Points-write s.mem p (node junk.next v) ne),
          write-write s.mem p (some (node junk.next v))
              (some (node (tagged null junk.next.count) v)),
          enqueue_loop-last s3 fuel p (last d xs).1 at_tail.0 at_tail.1
              (ap (λ a. a % 16) is.tail ∙ aligned-last d xs is.aligned),
          cas_tail-ok s4 (tagged p (bump s.glob.tail.count)),
          is.tail,
          is.count,
          incq_small (length xs) small,
        )
        refl

-- With an aligned new node from memalign, `enqueue` on a queue whose tail is its last node needs one
-- round, appends the value and restores the signal mask; memory outside the queue's nodes and the new
-- one is as before.
pub ms_enqueue-append :
    (s : Store Node Queue) (d : Ptr × ℕ) (xs : Cells ℕ) (fuel : ℕ) (p : Ptr) (junk : Node) (v : ℕ)
    → IsQueue s d xs
    → p ≢ null
    → s.mem p ≡ none
    → p % 16 ≡ 0
    → length xs + 1 < 2 ^ 63
    → (s' : Store Node Queue) × (enqueue (suc fuel) p junk v s ≡ ok tt s')
      × IsQueue s' d (xs ++ (p, v) ∷ [])
      × (s'.glob.blocked ≡ s.glob.blocked)
      × ((a : Ptr) → has a (d ∷ (xs ++ (p, v) ∷ [])) ≡ false → s'.mem a ≡ s.mem a)
ms_enqueue-append s d xs fuel p junk v is ne new al small = (
  linked s d xs p v junk.next.count k,
  enqueue_run s d xs p junk v is ne new fuel small,
  record {
    chain =
        subst (λ m. Chain LockQueue.node m (d ∷ (xs ++ (p, v) ∷ [])))
          (sym (untag-write m1 (last d xs).0 (some (node (tagged p (bump k)) (last d xs).1))))
          (Chain-link LockQueue.node (untag m1) d.0 d.1 xs p v
            (filled-Chain s d xs p junk v is ne new) at_new (out s d xs p junk v is ne new));
    head = is.head;
    tail = sym (ap (λ (c : Ptr × ℕ). c.0) (last-append d xs (p, v)));
    count = omega (arith, length-append xs ((p, v) ∷ []));
    aligned = (is.aligned.0, All-append xs is.aligned.1);
  },
  refl,
  λ a o. rw (not_last a o, not_new a o) refl,
)
  where
    k : ℕ
    k = (at_tail s d xs p junk v is ne new).0

    m1 : Mem Node
    m1 = write s.mem p (some (node (tagged null junk.next.count) v))

    at_new : Points (untag m1) p (LockQueue.node null v)
    at_new = record { ne_null = ne; holds = ground arith }

    All-append : (ys : Cells ℕ) → IsAligned ys → IsAligned (ys ++ (p, v) ∷ [])
    All-append [] h = (al, tt)
    All-append (y ∷ ys) h = (h.0, All-append ys h.1)

    not_new : (a : Ptr) → has a (d ∷ (xs ++ (p, v) ∷ [])) ≡ false → (a == p) ≡ false
    not_new a o = ground (arith, has-append a xs ((p, v) ∷ []))

    not_last : (a : Ptr) → has a (d ∷ (xs ++ (p, v) ∷ [])) ≡ false → (a == (last d xs).0) ≡ false
    not_last a o =
        ne_of_has a (last d xs).0 (d ∷ xs) (ground (arith, has-append a xs ((p, v) ∷ [])))
          (has-last d.0 d.1 xs)

-- On the empty queue `dequeue` returns false after one round and changes nothing but the signal mask:
-- all signals are blocked afterwards.
pub ms_dequeue-empty :
    (s : Store Node Queue) (d : Ptr × ℕ) (fuel : ℕ)
    → IsQueue s d []
    → dequeue (suc fuel) s ≡ ok none (record s { glob = record (s.glob) { blocked = true } })
unfolding dequeue dequeue_loop finish coremu_sigmask_blk
ms_dequeue-empty s d fuel is =
    let masked : Store Node Queue = record s { glob = record (s.glob) { blocked = true } } in
    let (k, at) = at_head in
    rw (load-ok masked at, cmp_head-ok masked, is.head, is.tail, ==-refl d.0) refl
  where
    at_head : (k : ℕ) × Points s.mem s.glob.head.ptr (node (tagged null k) d.1)
    at_head = rw is.head (Points-untag (record { ne_null = is.chain.0; holds = is.chain.1 }))

    ==-refl : (a : ℕ) → (a == a) ≡ true
    ==-refl a = ground arith

decq-incq : (n : ℕ) → n + 1 < 2 ^ 63 → decq (suc n) ≡ n
decq-incq n h = omega arith

-- Otherwise it needs one round, returns the oldest value, frees the dummy node, whose part the value's
-- own node takes over, and restores the signal mask.
pub ms_dequeue-oldest :
    (s : Store Node Queue) (d : Ptr × ℕ) (q : Ptr) (v : ℕ) (xs : Cells ℕ) (fuel : ℕ)
    → IsQueue s d ((q, v) ∷ xs)
    → length xs + 1 < 2 ^ 63
    → (s' : Store Node Queue) × (dequeue (suc fuel) s ≡ ok (some v) s')
      × IsQueue s' (q, v) xs
      × (s'.glob.blocked ≡ s.glob.blocked)
      × (s'.mem ≡ write s.mem d.0 none)
unfolding dequeue dequeue_loop finish coremu_sigmask_blk coremu_sigmask_res
ms_dequeue-oldest s d q v xs fuel is small =
    let masked : Store Node Queue = record s { glob = record (s.glob) { blocked = true } } in
    let (k, head) = at_head in
    let (j, next) = at_next in
    let moved : Store Node Queue = record s {
      glob = record (s.glob) { head = tagged q (bump s.glob.head.count); blocked = true };
    } in
    (
      record {
        mem = write s.mem d.0 none;
        glob = record (s.glob) { head = tagged q (bump s.glob.head.count); count = length xs };
      },
      rw
          (
            load-ok masked head,
            cmp_head-ok masked,
            apart,
            load-ok masked next,
            cas_head-ok masked (tagged q (bump s.glob.head.count)),
            not_null head,
            free-ok moved head,
            is.head,
            is.count,
            decq-incq (length xs) small,
          )
          refl,
      record {
        chain =
            subst (λ m. Chain LockQueue.node m ((q, v) ∷ xs)) (sym (untag-write s.mem d.0 none))
              (Chain-write LockQueue.node (untag s.mem) d.0 none ((q, v) ∷ xs) is.chain.2
                is.chain.3);
        head = refl;
        tail = is.tail;
        count = refl;
        aligned = is.aligned.1;
      },
      refl,
      refl,
    )
  where
    at_head : (k : ℕ) × Points s.mem s.glob.head.ptr (node (tagged q k) d.1)
    at_head = rw is.head (Points-untag (record { ne_null = is.chain.0; holds = is.chain.1 }))

    at_next : (k : ℕ) × Points s.mem q (node (tagged (first xs) k) v)
    at_next = Points-untag (record { ne_null = is.chain.3.0; holds = is.chain.3.1 })

    apart : (s.glob.head.ptr == s.glob.tail.ptr) ≡ false
    apart =
        rw (is.head, is.tail)
          (ne_of_has d.0 (last (q, v) xs).0 ((q, v) ∷ xs) is.chain.2 (has-last q v xs))
