-- ===== src/LockQueue/Threads/Safety.antt =====
-- main/lock-queue.c run by many threads: what holds in every state that they can reach.
use coremu.Common.{
  ℕ, ◌+◌, ◌%◌, ◌^◌, ◌≡◌, ◌≢◌, refl, sym, ap, subst, ◌∙◌, true, Option, none, some, some_inj, List,
  [], ◌∷◌, ◌++◌, map, length, length-append, length-map, arith, ◌⊎◌, inl, inr,
}
use coremu.Memory.{Ptr, null, Mem, Points}
use coremu.LockQueue.{Node, node, Queue}
use coremu.Chain.{Cells, first, last, Chain, Points-last}
use coremu.LockQueue.Threads.{
  Producer, outside, made, locked, linked, swung, counted, Consumer, got_head, got_next, moved,
  World, Produce, make, lock, spin, link, swing, inc, unlock, Step, produce, consume, initial,
  Reach, begin, later,
}
use coremu.LockQueue.Threads.Inv.{critical, taken, CountOk, ConsumerOk, Inv}
use coremu.LockQueue.Threads.Enqueue.{
  after, make-Inv, lock-Inv, spin-Inv, swing-Inv, inc-Inv, unlock-Inv,
}
use coremu.LockQueue.Threads.Dequeue.{Consume-Inv}
use coremu.LockQueue.Threads.Link.{link-Inv}

Produce-Inv :
    {w : World} {owner : Option ℕ} {d : Ptr × ℕ} {xs : Cells ℕ} (i : ℕ) {p p' : Producer}
    {m : Mem Node} {q : Queue} {es : List ℕ}
    → Inv w owner d xs
    → Produce w.mem w.queue p m q p' es
    → w.producers i ≡ p
    → (owner' : Option ℕ) × (xs' : Cells ℕ) × Inv (after w i m q p' es) owner' d xs'
Produce-Inv {owner} {xs} i inv (make p v ne new) at = (owner, xs, make-Inv inv i p v ne new at)
Produce-Inv {xs} i inv (lock e) at = (some i, xs, lock-Inv inv i _ _ e at)
Produce-Inv {owner} {xs} i inv (spin e) at = (owner, xs, spin-Inv inv i _ _ at)
Produce-Inv {owner} {xs} i inv (link {p} {v} n got) at =
    (owner, xs ++ (p, v) ∷ [], link-Inv inv i p v at n got)
Produce-Inv {owner} {xs} i inv swing at = (owner, xs, swing-Inv inv i _ at)
Produce-Inv {owner} {xs} i inv inc at = (owner, xs, inc-Inv inv i at)
Produce-Inv {xs} i inv unlock at = (none, xs, unlock-Inv inv i at)

-- The lock's owner and the nodes of the queue, in a reachable state.
pub record Shape (w : World) : Type 0 where
  pub owner : Option ℕ
  pub dummy : Ptr × ℕ
  pub cells : Cells ℕ
  pub inv : Inv w owner dummy cells

initial-Shape : (d : Ptr) → d ≢ null → Shape (initial d)
initial-Shape d ne = record {
  owner = none;
  dummy = (d, 0);
  cells = [];
  inv = record {
    chain = (ne, ground arith, refl, tt);
    head = refl;
    history = refl;
    alone = λ i c. cc;
    entered = λ i e. cc;
    lock = refl;
    tail = refl;
    count = refl;
    private = λ i p v e. cc;
    distinct = λ i j p u v e f. cc;
    consumer = tt;
  };
}

pub Step-Shape : {w w' : World} → Step w w' → Shape w → Shape w'
Step-Shape (produce i mv) sh =
    let (owner, cells, inv) = Produce-Inv i sh.inv mv refl in
    record { owner = owner; dummy = sh.dummy; cells = cells; inv = inv }
Step-Shape (consume mv) sh =
    let (dummy, cells, inv) = Consume-Inv sh.inv mv refl in
    record { owner = sh.owner; dummy = dummy; cells = cells; inv = inv }

pub Reach-Shape : {d : Ptr} {w : World} → d ≢ null → Reach d w → Shape w
Reach-Shape ne begin = initial-Shape _ ne
Reach-Shape ne (later r st) = Step-Shape st (Reach-Shape ne r)

-- The lock keeps producers apart: two that are between taking it and releasing it are the same.
pub mutual_exclusion :
    {d : Ptr} {w : World}
    → d ≢ null
    → Reach d w
    → (i j : ℕ) → critical (w.producers i) ≡ true
    → critical (w.producers j) ≡ true
    → i ≡ j
mutual_exclusion ne r i j ci cj =
    let sh = Reach-Shape ne r in some_inj (sym (sh.inv.alone i ci) ∙ sh.inv.alone j cj)

-- Whatever the interleaving, from `Head` a dummy node and a list of nodes stand in memory, each with its
-- value and a pointer to the next, the last with NULL; and the values that producers have linked are, in
-- order, those that `dequeue` returned, the one that the consumer is about to return, if any, and those
-- of the list.
pub received-prefix :
    {d : Ptr} {w : World}
    → d ≢ null
    → Reach d w
    → (c : Ptr × ℕ) × (xs : Cells ℕ) × (w.queue.head ≡ c.0)
      × Chain node w.mem (c ∷ xs)
      × (w.sent ≡ w.received ++ (taken w.consumer ++ map (λ (b : Ptr × ℕ). b.1) xs))
received-prefix ne r =
    let sh = Reach-Shape ne r in (sh.dummy, sh.cells, sh.inv.head, sh.inv.chain, sh.inv.history)

-- What the next access of each thread needs: no thread reads, writes or frees memory that is not
-- allocated.
pub record IsSafe (w : World) : Type 0 where
  pub link_safe :
      (i : ℕ) (p : Ptr) (v : ℕ)
      → w.producers i ≡ locked p v
      → (n : Node) × Points w.mem w.queue.tail n
  pub next_safe : (h : Ptr) → w.consumer ≡ got_head h → (n : Node) × Points w.mem h n
  pub value_safe : (h n : Ptr) → w.consumer ≡ got_next h n → (c : Node) × Points w.mem n c
  pub free_safe : (h : Ptr) (v : ℕ) → w.consumer ≡ moved h v → (n : Node) × Points w.mem h n

first-Points :
    (m : Mem Node) (xs : Cells ℕ) (n : Ptr)
    → n ≡ first xs
    → n ≢ null
    → Chain node m xs
    → (c : Node) × Points m n c
first-Points m [] n e ne ch = absurd (ne e)
first-Points m ((p, v) ∷ xs) n e ne ch =
    (node (first xs) v, rw e (record { ne_null = ch.0; holds = ch.1 }))

Inv-IsSafe :
    {w : World} {owner : Option ℕ} {d : Ptr × ℕ} {xs : Cells ℕ} → Inv w owner d xs → IsSafe w
Inv-IsSafe {w} {owner} {d} {xs} inv = record {
  link_safe = λ i p v at.
      let own : owner ≡ some i = inv.alone i (ap critical at) in
      let end : w.queue.tail ≡ (last d xs).0 = rw (own, at) at inv.tail in
      (node null (last d xs).1, rw end (Points-last node w.mem d.0 d.1 xs inv.chain));
  next_safe = λ h at.
      let here : h ≡ w.queue.head = rw at at inv.consumer in
      (
        node (first xs) d.1,
        rw (here ∙ inv.head) (record { ne_null = inv.chain.0; holds = inv.chain.1 }),
      );
  value_safe = λ h n at.
      let seen : ConsumerOk w.mem w.queue.head d xs (got_next h n) = rw at at inv.consumer in
      first-Points w.mem xs n seen.1 seen.2 inv.chain.3;
  free_safe = λ h v at.
      let seen : ConsumerOk w.mem w.queue.head d xs (moved h v) = rw at at inv.consumer in
      (seen.0, seen.1);
}

-- In every reachable state the next access of each thread is to memory that is allocated: no use
-- after free, no double free and no access through NULL.
pub Reach-IsSafe : {d : Ptr} {w : World} → d ≢ null → Reach d w → IsSafe w
Reach-IsSafe ne r = Inv-IsSafe (Reach-Shape ne r).inv

-- A held lock has a holder: one producer is between taking it and releasing it.
pub held-critical :
    {d : Ptr} {w : World}
    → d ≢ null
    → Reach d w
    → w.queue.t_lock ≢ 0
    → (i : ℕ) × (critical (w.producers i) ≡ true)
held-critical ne r held = let sh = Reach-Shape ne r in holder sh.owner sh.inv held
  where
    holder :
        {w : World} {d : Ptr × ℕ} {xs : Cells ℕ} (owner : Option ℕ)
        → Inv w owner d xs
        → w.queue.t_lock ≢ 0
        → (i : ℕ) × (critical (w.producers i) ≡ true)
    holder none inv held = absurd (held inv.lock)
    holder (some i) inv held = (i, inv.entered i refl)

-- The count is the number of values that are linked and not returned, or one less while a producer
-- that has linked its value is still in the critical section.
abbrev pub Counted : World → ℕ → Type 0
Counted w n =
    (w.queue.count ≡ n % 2 ^ 64)
    ⊎ ((i : ℕ) × (critical (w.producers i) ≡ true) × ((w.queue.count + 1) % 2 ^ 64 ≡ n % 2 ^ 64))

Counted-inside :
    (w : World) (i : ℕ) (p : Producer) (n : ℕ)
    → w.producers i ≡ p
    → CountOk p w.queue.count n
    → Counted w n
Counted-inside w i outside n e h = inl h
Counted-inside w i (made p v) n e h = inl h
Counted-inside w i (locked p v) n e h = inl h
Counted-inside w i (linked p) n e h = inr (i, ap critical e, h)
Counted-inside w i swung n e h = inr (i, ap critical e, h)
Counted-inside w i counted n e h = inl h

Inv-Counted :
    {w : World} (owner : Option ℕ) {d : Ptr × ℕ} {xs : Cells ℕ}
    → Inv w owner d xs
    → Counted w (length xs + length (taken w.consumer))
Inv-Counted none inv = inl inv.count
Inv-Counted {w} (some i) inv = Counted-inside w i (w.producers i) _ refl inv.count

length-rest :
    (c : Consumer) (xs : Cells ℕ)
    → length (taken c ++ map (λ (b : Ptr × ℕ). b.1) xs) ≡ length xs + length (taken c)
length-rest c xs = omega (
  arith,
  length-append (taken c) (map (λ (b : Ptr × ℕ). b.1) xs),
  length-map (λ (b : Ptr × ℕ). b.1) xs,
)

-- In every reachable state the count of the queue is right, up to one value that a producer in the
-- critical section has not counted yet.
pub Reach-Counted :
    {d : Ptr} {w : World}
    → d ≢ null
    → Reach d w
    → (rest : List ℕ) × (w.sent ≡ w.received ++ rest) × Counted w (length rest)
Reach-Counted {w} ne r =
    let sh = Reach-Shape ne r in
    (
      taken w.consumer ++ map (λ (b : Ptr × ℕ). b.1) sh.cells,
      sh.inv.history,
      subst (Counted w) (sym (length-rest w.consumer sh.cells)) (Inv-Counted sh.owner sh.inv),
    )
