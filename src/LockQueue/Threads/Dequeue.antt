-- ===== src/LockQueue/Threads/Dequeue.antt =====
-- main/lock-queue.c run by many threads: every step of `dequeue` keeps the invariant.
use coremu.Common.{
  ℕ, suc, ◌+◌, ◌≡◌, ◌≢◌, refl, sym, ap, subst, ◌∙◌, false, Option, none, some, some_inj, List, [],
  ◌∷◌, ◌++◌, ◌==◌, map, length, arith, append-nil, append_assoc,
}
use coremu.Memory.{Ptr, null, Mem, write}
use coremu.LockQueue.{Node, node, Queue, decq}
use coremu.Chain.{Cells, first, has, Chain, Chain-write}
use coremu.LockQueue.Threads.{
  Producer, outside, made, locked, linked, swung, counted, Consumer, resting, got_head, got_next,
  got_value, moved, freed, World, Consume, start, empty, next, value, move, free, dec,
}
use coremu.LockQueue.Threads.Inv.{inside, taken, limbo, CountOk, ConsumerOk, Inv}

abbrev pub turned : World → Mem Node → Queue → Consumer → List ℕ → World
turned w m q c es = record w { mem = m; queue = q; consumer = c; received = w.received ++ es }

-- A successor that was read is the first cell behind the dummy.
first_cell :
    (m : Mem Node) (xs : Cells ℕ) (n : Ptr) (c : Node)
    → n ≡ first xs
    → n ≢ null
    → Chain node m xs
    → m n ≡ some c
    → (ys : Cells ℕ) × (xs ≡ (n, c.value) ∷ ys)
first_cell m [] n c e ne ch got = absurd (ne e)
first_cell m ((q, v) ∷ ys) n c e ne ch got =
    let found : some c ≡ some (node (first ys) v) = sym got ∙ rw e ch.1 in
    let same : c.value ≡ v = ap (λ (b : Node). b.value) (some_inj found) in (ys, rw (e, same) refl)

CountOk-dec :
    (p : Producer) (count size : ℕ) → CountOk p count (size + 1) → CountOk p (decq count) (size + 0)
CountOk-dec outside count size h = omega arith
CountOk-dec (made p v) count size h = omega arith
CountOk-dec (locked p v) count size h = omega arith
CountOk-dec (linked p) count size h = omega arith
CountOk-dec swung count size h = omega arith
CountOk-dec counted count size h = omega arith

module _ {w : World} {owner : Option ℕ} {d : Ptr × ℕ} {xs : Cells ℕ} (inv : Inv w owner d xs) where
  open inv use {
    chain, head, history, alone, entered, lock, tail, count, private, distinct, consumer,
  }

  -- A step that changes the consumer's locals only, with nothing taken or in limbo.
  look-Inv :
      (c : Consumer)
      → taken w.consumer ≡ []
      → taken c ≡ []
      → ((a : Ptr) → limbo c a ≡ false)
      → ConsumerOk w.mem w.queue.head d xs c
      → Inv (turned w w.mem w.queue c []) owner d xs
  look-Inv c before now clear fine = record {
    chain = chain;
    head = head;
    history = rw (append-nil, now) (rw before at history);
    alone = alone;
    entered = entered;
    lock = lock;
    tail = tail;
    count = rw now (rw before at count);
    private = λ j a u e.
        let own = private j a u e in record { points = own.points; out = own.out; kept = clear a };
    distinct = distinct;
    consumer = fine;
  }

  next-Inv :
      (h : Ptr) (n : Node)
      → w.consumer ≡ got_head h
      → w.mem h ≡ some n
      → n.next ≢ null
      → Inv (turned w w.mem w.queue (got_next h n.next) []) owner d xs
  next-Inv h n at got ne =
      let here : h ≡ w.queue.head = rw at at consumer in
      let found : some n ≡ some (node (first xs) d.1) = sym got ∙ rw (here ∙ head) chain.1 in
      look-Inv (got_next h n.next) (ap taken at) refl (λ a. refl)
        (here, ap (λ (c : Node). c.next) (some_inj found), ne)

  value-Inv :
      (h n : Ptr) (c : Node)
      → w.consumer ≡ got_next h n
      → w.mem n ≡ some c
      → Inv (turned w w.mem w.queue (got_value h n c.value) []) owner d xs
  value-Inv h n c at got =
      let seen : ConsumerOk w.mem w.queue.head d xs (got_next h n) = rw at at consumer in
      let (ys, cell) = first_cell w.mem xs n c seen.1 seen.2 chain.3 got in
      look-Inv (got_value h n c.value) (ap taken at) refl (λ a. refl) (seen.0, ys, cell)

  free-Inv :
      (h : Ptr) (v : ℕ)
      → w.consumer ≡ moved h v
      → Inv (turned w (write w.mem h none) w.queue (freed v) []) owner d xs
  free-Inv h v at =
      let seen : ConsumerOk w.mem w.queue.head d xs (moved h v) = rw at at consumer in
      record {
        chain = Chain-write node w.mem h none (d ∷ xs) seen.2 chain;
        head = head;
        history = rw append-nil (rw at at history);
        alone = alone;
        entered = entered;
        lock = lock;
        tail = tail;
        count = rw at at count;
        private = λ j a u e.
            let own = private j a u e in
            let apart : (a == h) ≡ false = rw at at own.kept in
            record {
              points = record { ne_null = own.points.ne_null; holds = rw apart own.points.holds };
              out = own.out;
              kept = refl;
            };
        distinct = distinct;
        consumer = tt;
      }

  dec-Inv :
      (v : ℕ)
      → w.consumer ≡ freed v
      → Inv
          (turned w w.mem (record (w.queue) { count = decq w.queue.count }) resting (v ∷ []))
          owner
          d
          xs
  dec-Inv v at = record {
    chain = chain;
    head = head;
    history =
        (rw at at history) ∙ sym (append_assoc w.received (v ∷ []) (map (λ (c : Ptr × ℕ). c.1) xs));
    alone = alone;
    entered = entered;
    lock = lock;
    tail = tail;
    count = CountOk-dec (inside owner w.producers) w.queue.count (length xs) (rw at at count);
    private = λ j a u e.
        let own = private j a u e in record { points = own.points; out = own.out; kept = refl };
    distinct = distinct;
    consumer = tt;
  }

-- `Q->Head = new_head`: the cell that was read becomes the dummy.
move-Inv :
    {w : World} {owner : Option ℕ} {d : Ptr × ℕ} (h n : Ptr) (v : ℕ) (ys : Cells ℕ)
    → Inv w owner d ((n, v) ∷ ys)
    → w.consumer ≡ got_value h n v
    → h ≡ w.queue.head
    → Inv (turned w w.mem (record (w.queue) { head = n }) (moved h v) []) owner (n, v) ys
move-Inv {w} {owner} {d} h n v ys inv at here = record {
  chain = inv.chain.3;
  head = refl;
  history = rw append-nil (rw at at inv.history);
  alone = inv.alone;
  entered = inv.entered;
  lock = inv.lock;
  tail = inv.tail;
  count =
      subst (CountOk (inside owner w.producers) w.queue.count) (same_size (length ys))
        (rw at at inv.count);
  private = λ j a u e.
      let own = inv.private j a u e in
      record {
        points = own.points;
        out = ground (arith, own.out);
        kept = ground (arith, own.out, here ∙ inv.head);
      };
  distinct = inv.distinct;
  consumer = (
    node n d.1,
    record { ne_null = rw (here ∙ inv.head) inv.chain.0; holds = rw (here ∙ inv.head) inv.chain.1 },
    subst (λ a. has a ((n, v) ∷ ys) ≡ false) (sym (here ∙ inv.head)) inv.chain.2,
  );
}
  where
    same_size : (k : ℕ) → suc k + 0 ≡ k + 1
    same_size k = omega arith

-- Every step of the consumer keeps the invariant, for the same owner of the lock.
pub Consume-Inv :
    {w : World} {owner : Option ℕ} {d : Ptr × ℕ} {xs : Cells ℕ} {c c' : Consumer} {m : Mem Node}
    {q : Queue} {es : List ℕ}
    → Inv w owner d xs
    → Consume w.mem w.queue c m q c' es
    → w.consumer ≡ c
    → (d' : Ptr × ℕ) × (xs' : Cells ℕ) × Inv (turned w m q c' es) owner d' xs'
Consume-Inv {w} {d} {xs} inv start at =
    (d, xs, look-Inv inv (got_head w.queue.head) (ap taken at) refl (λ a. refl) refl)
Consume-Inv {d} {xs} inv (empty n got e) at =
    (d, xs, look-Inv inv resting (ap taken at) refl (λ a. refl) tt)
Consume-Inv {d} {xs} inv (next n got ne) at = (d, xs, next-Inv inv _ n at got ne)
Consume-Inv {d} {xs} inv (value c got) at = (d, xs, value-Inv inv _ _ c at got)
Consume-Inv {w} {owner} {d} {xs} inv (move {h} {n} {v}) at =
    let seen : ConsumerOk w.mem w.queue.head d xs (got_value h n v) = rw at at inv.consumer in
    ((n, v), seen.1, move-Inv h n v seen.1 (subst (Inv w owner d) seen.2 inv) at seen.0)
Consume-Inv {d} {xs} inv (free n got) at = (d, xs, free-Inv inv _ _ at)
Consume-Inv {d} {xs} inv dec at = (d, xs, dec-Inv inv _ at)
