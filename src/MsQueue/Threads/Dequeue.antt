-- ===== src/MsQueue/Threads/Dequeue.antt =====
-- main/ms-queue.c run by many threads: every step of `dequeue` keeps the invariant.
use coremu.Common.{
  ℕ, ◌≡◌, ◌≢◌, refl, sym, ap, subst, ◌∙◌, true, false, some, some_inj, List, [], ◌∷◌, ◌++◌, ◌==◌,
  ==_iff, if◌then◌else◌, if_true, if_false, Bool-cases, inl, inr, arith, append_assoc,
}
use coremu.Memory.{Ptr, null}
use coremu.Chain.{Cells, first, has, has-append}
use coremu.MsQueue.{Tagged, tagged, Node, Queue, same, bump}
use coremu.MsQueue.Threads.{Consumer, resting, got_value, moved, freed, Shared, swing_tail, World}
use coremu.MsQueue.Threads.Order.{next_of, value_of, value_of-behind, Apart, Apart-behind}
use coremu.MsQueue.Threads.Inv.{
  taken, values, Saw, Looked, ConsumerOk, Inv, in_all, not_old, next_here, swapped, whole_lem,
}

abbrev pub after : World → Shared → Consumer → List ℕ → World
after w s c es = record w { shared = s; consumer = c; received = w.received ++ es }

first_some : (a : Ptr) (xs : Cells ℕ) → Apart xs → has a xs ≡ true → first xs ≢ null
first_some a [] ap' into = cc
first_some a ((q, w) ∷ xs) ap' into = ap'.0

-- The queue when its first node is known.
opened :
    (n : Ptr) (xs : Cells ℕ)
    → n ≢ null
    → first xs ≡ n
    → (v : ℕ) × (ys : Cells ℕ) × (xs ≡ (n, v) ∷ ys)
opened n [] ne e = absurd (ne (sym e))
opened n ((q, w) ∷ ys) ne e = (w, ys, ap (λ q. (q, w) ∷ ys) e)

module _ {w : World} {all old : Cells ℕ} {d : Ptr × ℕ} {xs : Cells ℕ}
    (inv : Inv w all old d xs) where
  -- The consumer goes on, and `Tail` stays or moves on, with the nodes where they were.
  pub go-Inv :
      (c : Consumer) (q : Queue) (es : List ℕ)
      → q.head.ptr ≡ w.shared.queue.head.ptr
      → has q.tail.ptr (d ∷ xs) ≡ true
      → es ++ taken c ≡ taken w.consumer
      → ConsumerOk old d.0 xs q.tail.ptr w.shared.gone c
      → Inv (after w (record w.shared { queue = q }) c es) all old d xs
  go-Inv c q es hd into same_taken good = record {
    split = inv.split;
    apart = inv.apart;
    nodes = inv.nodes;
    head = hd ∙ inv.head;
    tail = into;
    history =
        inv.history
        ∙ (ap (λ t. w.received ++ (t ++ values xs)) (sym same_taken) ∙ simp append_assoc);
    dead = inv.dead;
    private = inv.private;
    distinct = inv.distinct;
    producer = inv.producer;
    consumer = good;
  }

  -- The same without a change of the queue.
  pub look-Inv :
      (c : Consumer)
      → taken c ≡ taken w.consumer
      → ConsumerOk old d.0 xs w.shared.queue.tail.ptr w.shared.gone c
      → Inv (after w w.shared c []) all old d xs
  look-Inv c same_taken good = go-Inv c w.shared.queue [] refl inv.tail same_taken good

  pub help-Inv :
      (t x : Tagged)
      → taken w.consumer ≡ []
      → Saw all t.ptr x.ptr
      → x.ptr ≢ null
      → Inv (after w (swing_tail t x w.shared) resting []) all old d xs
  help-Inv t x none_taken saw ne =
      go-Inv resting
        (record w.shared.queue {
          tail = if same w.shared.queue.tail t then x else w.shared.queue.tail;
        })
        [] refl (swapped inv t x saw ne).0 (sym none_taken) tt

  pub here : has d.0 (d ∷ xs) ≡ true
  here = ground arith

  pub dummy_next : next_of all d.0 ≡ first xs
  dummy_next = next_here inv d.0 here ∙ if_true (d.0 == d.0) _ _ (ground arith)

  -- What is read of the dummy node.
  pub next_seen : (a : Ptr) (c : Node) → a ≡ d.0 → w.shared.mem a ≡ some c → c.next.ptr ≡ first xs
  next_seen a c e got =
      let l = inv.nodes d.0 (in_all inv d.0 here) in
      ap (λ (x : Node). x.next.ptr) (some_inj (sym got ∙ (ap w.shared.mem e ∙ l.stands)))
      ∙ (l.behind ∙ dummy_next)

  pub read_next-Inv :
      (h t : Tagged) (c : Node)
      → w.consumer ≡ Consumer.got_tail h t
      → w.shared.mem h.ptr ≡ some c
      → Inv (after w w.shared (Consumer.got_next h t c.next) []) all old d xs
  read_next-Inv h t c at got =
      let k : (h.ptr ≡ d.0) × (t.ptr ≢ d.0 → has w.shared.queue.tail.ptr xs ≡ true) =
        subst (ConsumerOk old d.0 xs w.shared.queue.tail.ptr w.shared.gone) at inv.consumer in
      let e = next_seen h.ptr c k.0 got in
      look-Inv (Consumer.got_next h t c.next) (sym (ap taken at)) (
        k.0,
        k.1,
        λ ne. sym e,
        λ ne z.
            first_some w.shared.queue.tail.ptr xs (Apart-behind old (d ∷ xs) (whole_lem inv)).2
              (k.1 ne) (sym e ∙ z),
      )

  front_value :
      (n : Ptr) (v : ℕ) (ys : Cells ℕ)
      → xs ≡ (n, v) ∷ ys
      → (has n (d ∷ xs) ≡ true) × (value_of all n ≡ v)
  front_value n v ys e =
      let into : has n (d ∷ xs) ≡ true =
        subst (λ zs. has n (d ∷ zs) ≡ true) (sym e) (ground arith) in
      let out : has d.0 ((n, v) ∷ ys) ≡ false =
        subst (λ zs. has d.0 zs ≡ false) e (Apart-behind old (d ∷ xs) (whole_lem inv)).1 in
      (
        into,
        ap (λ zs. value_of zs n) inv.split
            ∙ (value_of-behind n old (d ∷ xs) (not_old inv n into)
                ∙ (ap (λ zs. value_of (d ∷ zs) n) e ∙ ground (arith, out))),
      )

  pub value-Inv :
      (h t n : Tagged) (c : Node)
      → w.consumer ≡ Consumer.agreed h t n
      → h.ptr ≢ t.ptr
      → w.shared.mem n.ptr ≡ some c
      → Inv (after w w.shared (got_value h n c.value) []) all old d xs
  value-Inv h t n c at ne got =
      let k : Looked d.0 xs w.shared.queue.tail.ptr h t n =
        subst (ConsumerOk old d.0 xs w.shared.queue.tail.ptr w.shared.gone) at inv.consumer in
      let off : t.ptr ≢ d.0 = λ z. ne (k.0 ∙ sym z) in
      let (v, ys, e) = opened n.ptr xs (k.3 off) (k.2 (k.3 off)) in
      let front = front_value n.ptr v ys e in
      let l = inv.nodes n.ptr (in_all inv n.ptr front.0) in
      let read : c.value ≡ v =
        ap (λ (x : Node). x.value) (some_inj (sym got ∙ l.stands)) ∙ (l.holds ∙ front.1) in
      look-Inv (got_value h n c.value) (sym (ap taken at))
        (k.0, ys, e ∙ ap (λ u. (n.ptr, u) ∷ ys) (sym read), k.1 off)

  pub move-Inv :
      (h n : Tagged) (v : ℕ) (ys : Cells ℕ)
      → taken w.consumer ≡ []
      → h.ptr ≡ d.0
      → xs ≡ (n.ptr, v) ∷ ys
      → has w.shared.queue.tail.ptr xs ≡ true
      → Inv
          (after w
            (record w.shared {
              queue = record w.shared.queue { head = tagged n.ptr (bump h.count) };
            })
            (moved h.ptr v)
            [])
          all
          (old ++ d ∷ [])
          (n.ptr, v)
          ys
  move-Inv h n v ys none_taken e open_ into = record {
    split = inv.split ∙ (ap (λ zs. old ++ d ∷ zs) open_ ∙ simp append_assoc);
    apart = inv.apart;
    nodes = inv.nodes;
    head = refl;
    tail = subst (λ zs. has w.shared.queue.tail.ptr zs ≡ true) open_ into;
    history =
        inv.history
        ∙ (ap (λ t. w.received ++ (t ++ values xs)) none_taken
            ∙ (ap (λ zs. w.received ++ values zs) open_ ∙ simp append_assoc));
    dead = λ a g. has-append a old (d ∷ []) ∙ ground (arith, inv.dead a g);
    private = inv.private;
    distinct = inv.distinct;
    producer = inv.producer;
    consumer = (
      has-append h.ptr old (d ∷ []) ∙ ground (arith, e),
      ap w.shared.gone e ∙ elim (Bool-cases (w.shared.gone d.0)) [
        | inl g ↦ cc (sym (inv.dead d.0 g), not_old inv d.0 here)
        | inr g ↦ g
      ],
    );
  }

  pub free-Inv :
      (h : Ptr) (v : ℕ)
      → w.consumer ≡ moved h v
      → Inv
          (after w
            (record w.shared { gone = λ a. if a == h then true else w.shared.gone a })
            (freed v)
            [])
          all
          old
          d
          xs
  free-Inv h v at =
      let k : (has h old ≡ true) × (w.shared.gone h ≡ false) =
        subst (ConsumerOk old d.0 xs w.shared.queue.tail.ptr w.shared.gone) at inv.consumer in
      record {
        split = inv.split;
        apart = inv.apart;
        nodes = inv.nodes;
        head = inv.head;
        tail = inv.tail;
        history =
            inv.history ∙ (ap (λ c. w.received ++ (taken c ++ values xs)) at ∙ simp append_assoc);
        dead = λ a g. elim (Bool-cases (a == h)) [
          | inl b ↦ subst (λ x. has x old ≡ true) (sym ((==_iff a h).0 b)) k.0
          | inr b ↦ inv.dead a (sym (if_false (a == h) true (w.shared.gone a) b) ∙ g)
        ];
        private = inv.private;
        distinct = inv.distinct;
        producer = inv.producer;
        consumer = tt;
      }
