-- ===== src/LockQueue/Fifo.antt =====
-- main/lock-queue.c: run by one thread at a time, the queue is first in, first out.
use coremu.Common.{
  ℕ, suc, ◌+◌, ◌^◌, ◌<◌, ◌≡◌, ◌≢◌, refl, sym, ap, false, [], ◌∷◌, ◌++◌, none, some, arith, ◌==◌,
  length, length-append,
}
use coremu.Memory.{
  Ptr, null, Mem, Store, ok, write, Points, not_null, load-ok, store-ok, free-ok, write-write,
  Points-write,
}
use coremu.Malloc.{mallocz-ok, coremu_free}
use coremu.SpinLock.{testandset, coremu_spin_lock}
use coremu.LockQueue.{Node, node, Queue, incq, decq, enqueue, dequeue, set_next, set_value}
use coremu.Chain.{
  Cells, first, last, has, Chain, Chain-write, has-last, Points-last, Chain-link, last-append,
  has-append, ne_of_has, not-has_of_none,
}

-- The queue holds `xs` behind the dummy node `d`, and nobody holds its lock.
pub record IsQueue (s : Store Node Queue) (d : Ptr × ℕ) (xs : Cells ℕ) : Type 0 where
  pub chain : Chain node s.mem (d ∷ xs)
  pub head : s.glob.head ≡ d.0
  pub tail : s.glob.tail ≡ (last d xs).0
  pub count : s.glob.count ≡ length xs
  pub unlocked : s.glob.t_lock ≡ 0

abbrev pub linked : Store Node Queue → Ptr × ℕ → Cells ℕ → Ptr → ℕ → Store Node Queue
linked s d xs p v = record {
  mem = write (write s.mem p (some (node null v))) (last d xs).0 (some (node p (last d xs).1));
  glob = record { head = d.0; tail = p; count = length xs + 1; t_lock = 0 };
}

set_value-ok :
    (s : Store Node Queue) {p q : Ptr} {v : ℕ} (w : ℕ)
    → Points s.mem p (node q v)
    → set_value p w s ≡ ok tt (record s { mem = write s.mem p (some (node q w)) })
unfolding set_value
set_value-ok s w e = rw (load-ok s e, store-ok s e) refl

pub set_next-ok :
    (s : Store Node Queue) {p q : Ptr} {v : ℕ} (r : Ptr)
    → Points s.mem p (node q v)
    → set_next p r s ≡ ok tt (record s { mem = write s.mem p (some (node r v)) })
unfolding set_next
set_next-ok s r e = rw (load-ok s e, store-ok s e) refl

-- A free lock is taken in one round.
spin_lock-ok :
    (s : Store Node Queue) (fuel : ℕ)
    → s.glob.t_lock ≡ 0
    → coremu_spin_lock (λ q. q.t_lock) (λ l q. record q { t_lock = l }) (suc fuel) s
      ≡ ok tt (record s { glob = record (s.glob) { t_lock = 1 } })
unfolding coremu_spin_lock testandset
spin_lock-ok s fuel e = rw e refl

incq_small : (n : ℕ) → n + 1 < 2 ^ 63 → incq n ≡ n + 1
incq_small n h = omega arith

decq-incq : (n : ℕ) → n + 1 < 2 ^ 63 → decq (suc n) ≡ n
decq-incq n h = omega arith

enqueue_run :
    (s : Store Node Queue) (d : Ptr × ℕ) (xs : Cells ℕ) (fuel : ℕ) (p : Ptr) (junk : Node) (v : ℕ)
    → IsQueue s d xs
    → p ≢ null
    → has p (d ∷ xs) ≡ false
    → length xs + 1 < 2 ^ 63
    → enqueue (suc fuel) p junk v s ≡ ok tt (linked s d xs p v)
unfolding enqueue
enqueue_run s d xs fuel p junk v is ne out small =
    let m1 : Mem Node = write s.mem p (some (node null 0)) in
    let m2 : Mem Node = write s.mem p (some (node null v)) in
    let s1 : Store Node Queue = record s { mem = m1 } in
    let s2 : Store Node Queue = record s { mem = m2 } in
    let s3 : Store Node Queue = record s2 { glob = record (s.glob) { t_lock = 1 } } in
    let ch : Chain node m2 (d ∷ xs) =
      Chain-write node s.mem p (some (node null v)) (d ∷ xs) out is.chain in
    let at_tail : Points m2 s.glob.tail (node null (last d xs).1) =
      rw is.tail (Points-last node m2 d.0 d.1 xs ch) in
    rw
      (
        mallocz-ok s p ne junk (node null 0),
        set_value-ok s1 v (Points-write s.mem p (node null 0) ne),
        write-write s.mem p (some (node null 0)) (some (node null v)),
        set_next-ok s2 null (Points-write s.mem p (node null v) ne),
        write-write s.mem p (some (node null v)) (some (node null v)),
        spin_lock-ok s2 fuel is.unlocked,
        set_next-ok s3 p at_tail,
        is.tail,
        is.head,
        is.count,
        incq_small (length xs) small,
      )
      refl

-- With a new node from malloc, `enqueue` on an unlocked queue appends the value and releases the
-- lock; memory outside the queue's nodes and the new one is as before.
pub enqueue-append :
    (s : Store Node Queue) (d : Ptr × ℕ) (xs : Cells ℕ) (fuel : ℕ) (p : Ptr) (junk : Node) (v : ℕ)
    → IsQueue s d xs
    → p ≢ null
    → s.mem p ≡ none
    → length xs + 1 < 2 ^ 63
    → (s' : Store Node Queue) × (enqueue (suc fuel) p junk v s ≡ ok tt s')
      × IsQueue s' d (xs ++ (p, v) ∷ [])
      × ((a : Ptr) → has a (d ∷ (xs ++ (p, v) ∷ [])) ≡ false → s'.mem a ≡ s.mem a)
enqueue-append s d xs fuel p junk v is ne new small = (
  linked s d xs p v,
  enqueue_run s d xs fuel p junk v is ne out small,
  record {
    chain =
        Chain-link node m2 d.0 d.1 xs p v
          (Chain-write node s.mem p (some (node null v)) (d ∷ xs) out is.chain)
          (Points-write s.mem p (node null v) ne) out;
    head = refl;
    tail = sym (ap (λ (c : Ptr × ℕ). c.0) (last-append d xs (p, v)));
    count = omega (arith, length-append xs ((p, v) ∷ []));
    unlocked = refl;
  },
  λ a o. rw (not_last a o, not_new a o) refl,
)
  where
    out : has p (d ∷ xs) ≡ false
    out = not-has_of_none node s.mem p (d ∷ xs) is.chain new

    not_new : (a : Ptr) → has a (d ∷ (xs ++ (p, v) ∷ [])) ≡ false → (a == p) ≡ false
    not_new a o = ground (arith, has-append a xs ((p, v) ∷ []))

    not_last : (a : Ptr) → has a (d ∷ (xs ++ (p, v) ∷ [])) ≡ false → (a == (last d xs).0) ≡ false
    not_last a o =
        ne_of_has a (last d xs).0 (d ∷ xs) (ground (arith, has-append a xs ((p, v) ∷ [])))
          (has-last d.0 d.1 xs)

    m2 : Mem Node
    m2 = write s.mem p (some (node null v))

-- On the empty queue `dequeue` returns false and changes nothing.
pub dequeue-empty : (s : Store Node Queue) (d : Ptr × ℕ) → IsQueue s d [] → dequeue s ≡ ok none s
unfolding dequeue
dequeue-empty s d is = rw (load-ok s at_head)
  where
    at_head : Points s.mem s.glob.head (node null d.1)
    at_head = rw is.head (record { ne_null = is.chain.0; holds = is.chain.1 })

-- Otherwise it returns the oldest value and frees the dummy node, whose part the value's own node
-- takes over.
pub dequeue-oldest :
    (s : Store Node Queue) (d : Ptr × ℕ) (q : Ptr) (v : ℕ) (xs : Cells ℕ)
    → IsQueue s d ((q, v) ∷ xs)
    → length xs + 1 < 2 ^ 63
    → (s' : Store Node Queue) × (dequeue s ≡ ok (some v) s')
      × IsQueue s' (q, v) xs
      × (s'.mem ≡ write s.mem d.0 none)
unfolding dequeue coremu_free
dequeue-oldest s d q v xs is small = (
  record { mem = write s.mem d.0 none; glob = record (s.glob) { head = q; count = length xs } },
  rw
      (
        load-ok s at_head,
        not_null at_q,
        load-ok s at_q,
        not_null at_head,
        free-ok moved at_head,
        is.head,
        is.count,
        decq-incq (length xs) small,
      )
      refl,
  record {
    chain = Chain-write node s.mem d.0 none ((q, v) ∷ xs) is.chain.2 is.chain.3;
    head = refl;
    tail = is.tail;
    count = refl;
    unlocked = is.unlocked;
  },
  refl,
)
  where
    moved : Store Node Queue
    moved = record s { glob = record (s.glob) { head = q } }

    at_q : Points s.mem q (node (first xs) v)
    at_q = record { ne_null = is.chain.3.0; holds = is.chain.3.1 }

    at_head : Points s.mem s.glob.head (node q d.1)
    at_head = rw is.head (record { ne_null = is.chain.0; holds = is.chain.1 })
