-- ===== src/MsQueue/Threads/Link.antt =====
-- main/ms-queue.c run by many threads: the step that makes a node part of the queue.
use coremu.Common.{
  ℕ, ◌≡◌, sym, ap, subst, ◌∙◌, Bool, true, false, some, some_inj, [], ◌∷◌, ◌++◌, ◌==◌, ==_iff,
  if_true, if_false, Bool-cases, inl, inr, arith, map-append, append_assoc,
}
use coremu.Memory.{Ptr, null, Mem, write}
use coremu.Chain.{Cells, has, has-append, ne_of_has}
use coremu.MsQueue.{Tagged, tagged, Node, same, bump}
use coremu.MsQueue.Threads.{
  Producer, outside, made, linked, swung, Consumer, resting, got_head, got_value, moved, freed,
  update, World,
}
use coremu.MsQueue.Threads.Order.{
  next_of, value_of, next_of-append, next_of-last, next_of-new, last_unique, value_of-append,
  value_of-behind, Apart-add, first-append,
}
use coremu.MsQueue.Threads.Inv.{
  private_node, IsLinked, IsPrivate, Saw, Looked, ProducerOk, ConsumerOk, Inv,
}
use coremu.MsQueue.Threads.Enqueue.{after, updated, private_after}

has-more : (a : Ptr) (all es : Cells ℕ) → has a all ≡ true → has a (all ++ es) ≡ true
has-more a all es into = has-append a all es ∙ ground (arith, into)

Saw-more : (all es : Cells ℕ) (t n : Ptr) → Saw all t n → Saw (all ++ es) t n
Saw-more all es t n saw = (
  has-more t all es saw.0,
  λ ne. next_of-append t all es (λ z. ne (sym (saw.1 ne) ∙ z)) ∙ saw.1 ne,
)

ProducerOk-more : (all es : Cells ℕ) (p : Producer) → ProducerOk all p → ProducerOk (all ++ es) p
ProducerOk-more all es (Producer.got_tail p v t) k = has-more t.ptr all es k
ProducerOk-more all es (Producer.got_next p v t n) k = Saw-more all es t.ptr n.ptr k
ProducerOk-more all es (Producer.agreed p v t n) k = Saw-more all es t.ptr n.ptr k
ProducerOk-more all es (linked p t) k = (Saw-more all es t.ptr p k.0, k.1)
ProducerOk-more all es outside k = tt
ProducerOk-more all es (made p v) k = tt
ProducerOk-more all es swung k = tt

Looked-more :
    (d : Ptr) (xs es : Cells ℕ) (tail : Ptr) (h t n : Tagged)
    → Looked d xs tail h t n
    → Looked d (xs ++ es) tail h t n
Looked-more d xs es tail h t n k = (
  k.0,
  λ ne. has-more tail xs es (k.1 ne),
  λ ne. first-append xs es (λ z. ne (sym (k.2 ne) ∙ z)) ∙ k.2 ne,
  k.3,
)

ConsumerOk-more :
    (old : Cells ℕ) (d : Ptr) (xs es : Cells ℕ) (tail : Ptr) (gone : Ptr → Bool) (c : Consumer)
    → ConsumerOk old d xs tail gone c
    → ConsumerOk old d (xs ++ es) tail gone c
ConsumerOk-more old d xs es tail gone (got_head h) k = k
ConsumerOk-more old d xs es tail gone (Consumer.got_tail h t) k =
    (k.0, λ ne. has-more tail xs es (k.1 ne))
ConsumerOk-more old d xs es tail gone (Consumer.got_next h t n) k = Looked-more d xs es tail h t n k
ConsumerOk-more old d xs es tail gone (Consumer.agreed h t n) k = Looked-more d xs es tail h t n k
ConsumerOk-more old d xs es tail gone (got_value h n v) k =
    (k.0, k.1 ++ es, ap (λ (ys : Cells ℕ). ys ++ es) k.2, has-more tail xs es k.3)
ConsumerOk-more old d xs es tail gone (moved h v) k = k
ConsumerOk-more old d xs es tail gone resting k = tt
ConsumerOk-more old d xs es tail gone (freed v) k = tt

module _ {w : World} {all old : Cells ℕ} {d : Ptr × ℕ} {xs : Cells ℕ} (inv : Inv w all old d xs)
    (i : ℕ) (p : Ptr) (v : ℕ) (t n : Tagged) (at : w.producers i ≡ Producer.agreed p v t n)
    (c : Node) (last : n.ptr ≡ null) (got : w.shared.mem t.ptr ≡ some c)
    (agree : same c.next n ≡ true) where
  abbrev mem' : Mem Node
  mem' = write w.shared.mem t.ptr (some (record c { next = tagged p (bump n.count) }))

  own : IsPrivate w.shared.mem all p v
  own = inv.private i p v (ap private_node at)

  seen : has t.ptr all ≡ true
  seen = (subst (ProducerOk all) at (inv.producer i)).0

  is_last : next_of all t.ptr ≡ null
  is_last =
      let l = inv.nodes t.ptr seen in
      let e : c.next.ptr ≡ null = ground (arith, agree, last) in
      sym l.behind ∙ (ap (λ (x : Node). x.next.ptr) (some_inj (sym l.stands ∙ got)) ∙ e)

  link-IsLinked :
      (a : Ptr) → has a (all ++ (p, v) ∷ []) ≡ true → IsLinked mem' (all ++ (p, v) ∷ []) a
  link-IsLinked a into = elim (Bool-cases (a == t.ptr)) [
    | inl b ↦
        let e = (==_iff a t.ptr).0 b in
        let l = inv.nodes t.ptr seen in
        record {
          cell = record c { next = tagged p (bump n.count) };
          stands = if_true (a == t.ptr) _ _ b;
          behind = sym (
              ap (next_of (all ++ (p, v) ∷ [])) e
              ∙ next_of-last t.ptr p v all inv.apart seen is_last);
          holds =
              ap (λ (x : Node). x.value) (some_inj (sym got ∙ l.stands))
              ∙ (l.holds
                  ∙ sym (
                      ap (value_of (all ++ (p, v) ∷ [])) e
                      ∙ value_of-append t.ptr all ((p, v) ∷ []) seen));
        }
    | inr b ↦ elim (Bool-cases (has a all)) [
      | inl h ↦
          let l = inv.nodes a h in
          record {
            cell = l.cell;
            stands = if_false (a == t.ptr) _ _ b ∙ l.stands;
            behind =
                l.behind
                ∙ sym (
                    next_of-append a all ((p, v) ∷ []) (λ z.
                      absurd
                        (ground (arith, b, last_unique a t.ptr all inv.apart h seen z is_last))));
            holds = l.holds ∙ sym (value_of-append a all ((p, v) ∷ []) h);
          }
      | inr h ↦
          let e : a ≡ p = ground (arith, h, has-append a all ((p, v) ∷ []), into) in
          record {
            cell = own.cell;
            stands = if_false (a == t.ptr) _ _ b ∙ (ap w.shared.mem e ∙ own.stands);
            behind =
                own.behind
                ∙ sym (ap (next_of (all ++ (p, v) ∷ [])) e ∙ next_of-new p v all own.out);
            holds =
                own.holds
                ∙ sym (
                    ap (value_of (all ++ (p, v) ∷ [])) e
                    ∙ (value_of-behind p all ((p, v) ∷ []) own.out
                        ∙ if_true (p == p) _ _ (ground arith)));
          }
    ]
  ]

  link-IsPrivate :
      (j : ℕ) (q : Ptr) (u : ℕ)
      → private_node (update w.producers i (linked p t) j) ≡ some (q, u)
      → IsPrivate mem' (all ++ (p, v) ∷ []) q u
  link-IsPrivate j q u e =
      let e' = private_after inv i (linked p t) (λ x z. cc) j (q, u) e in
      let before = inv.private j q u e' in
      let other : (q == p) ≡ false = elim (Bool-cases (q == p)) [
        | inl s ↦
            let one : i ≡ j =
              inv.distinct i j p v u (ap private_node at)
                (e' ∙ ap (λ x. some (x, u)) ((==_iff q p).0 s)) in
            cc (e, if_true (i == j) (linked p t) (w.producers j) (ground (arith, one)))
        | inr b ↦ b
      ] in
      record {
        ne_null = before.ne_null;
        cell = before.cell;
        stands = if_false (q == t.ptr) _ _ (ne_of_has q t.ptr all before.out seen) ∙ before.stands;
        behind = before.behind;
        holds = before.holds;
        out = has-append q all ((p, v) ∷ []) ∙ ground (arith, before.out, other);
      }

  pub link-Inv :
      Inv
        (after w i (record w.shared { mem = mem' }) (linked p t) (v ∷ []))
        (all ++ (p, v) ∷ [])
        old
        d
        (xs ++ (p, v) ∷ [])
  link-Inv = record {
    split = ap (λ (ys : Cells ℕ). ys ++ (p, v) ∷ []) inv.split ∙ simp append_assoc;
    apart = Apart-add p v all inv.apart own.ne_null own.out;
    nodes = link-IsLinked;
    head = inv.head;
    tail = has-more w.shared.queue.tail.ptr (d ∷ xs) ((p, v) ∷ []) inv.tail;
    history = rw (inv.history, map-append {B = ℕ} (λ c. c.1) xs ((p, v) ∷ [])) (simp append_assoc);
    dead = inv.dead;
    private = link-IsPrivate;
    distinct = λ j k q x y e f.
        inv.distinct j k q x y (private_after inv i (linked p t) (λ x z. cc) j (q, x) e)
          (private_after inv i (linked p t) (λ x z. cc) k (q, y) f);
    producer = λ j.
        updated (λ _ x. ProducerOk (all ++ (p, v) ∷ []) x) w.producers i (linked p t) j
          (λ _. (
            (
              has-more t.ptr all ((p, v) ∷ []) seen,
              λ _. next_of-last t.ptr p v all inv.apart seen is_last,
            ),
            own.ne_null,
          ))
          (λ _. ProducerOk-more all ((p, v) ∷ []) (w.producers j) (inv.producer j));
    consumer =
        ConsumerOk-more old d.0 xs ((p, v) ∷ []) w.shared.queue.tail.ptr w.shared.gone w.consumer
          inv.consumer;
  }
