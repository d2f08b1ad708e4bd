-- ===== src/LockQueue/Threads/Link.antt =====
-- main/lock-queue.c run by many threads: the step that makes a node part of the queue,
-- `Q->Tail->next = node`.
use coremu.Common.{
  ℕ, ◌+◌, ◌%◌, ◌^◌, ◌≡◌, ◌≢◌, refl, sym, ap, subst, subst₂, ◌∙◌, true, false, Option, some, List,
  [], ◌∷◌, ◌++◌, ◌==◌, map, length, length-append, some_inj, arith, map-append, append_assoc,
  Bool-cases, inl, inr,
}
use coremu.Memory.{Ptr, null, Mem, Points, write}
use coremu.LockQueue.{Node, node}
use coremu.Chain.{
  Cells, first, last, has, Chain, Chain-link, Points-last, has-last, has-append, last-append,
  ne_of_has,
}
use coremu.LockQueue.Threads.{
  locked, linked, Consumer, resting, got_head, got_next, got_value, moved, freed, World, update,
}
use coremu.LockQueue.Threads.Inv.{critical, private_node, taken, limbo, ConsumerOk, IsPrivate, Inv}
use coremu.LockQueue.Threads.Enqueue.{after, inside_self}

abbrev values : Cells ℕ → List ℕ
values = map (λ (c : Ptr × ℕ). c.1)

first-append : (xs ys : Cells ℕ) → first xs ≢ null → first (xs ++ ys) ≡ first xs
first-append [] ys ne = absurd (ne refl)
first-append (x ∷ xs) ys ne = refl

has-more :
    (a p : Ptr) (v : ℕ) (d : Ptr × ℕ) (xs : Cells ℕ)
    → has a (d ∷ xs) ≡ false
    → (a == p) ≡ false
    → has a (d ∷ (xs ++ (p, v) ∷ [])) ≡ false
has-more a p v d xs out apart = ground (arith, has-append a xs ((p, v) ∷ []))

-- A write to a node of the queue spares one that is not.
Points-apart :
    (m : Mem Node) (cells : Cells ℕ) (t a : Ptr) (c n : Node)
    → has t cells ≡ true
    → has a cells ≡ false
    → Points m a n
    → Points (write m t (some c)) a n
Points-apart m cells t a c n into out e = record {
  ne_null = e.ne_null;
  holds = rw (ne_of_has a t cells out into) e.holds;
}

ConsumerOk-link :
    (m : Mem Node) (t : Ptr) (c : Node) (hd : Ptr) (d : Ptr × ℕ) (xs : Cells ℕ) (p : Ptr) (v : ℕ)
    (k : Consumer)
    → has t (d ∷ xs) ≡ true
    → limbo k p ≡ false
    → ConsumerOk m hd d xs k
    → ConsumerOk (write m t (some c)) hd d (xs ++ (p, v) ∷ []) k
ConsumerOk-link m t c hd d xs p v resting into kept k = tt
ConsumerOk-link m t c hd d xs p v (got_head h) into kept k = k
ConsumerOk-link m t c hd d xs p v (got_next h n) into kept k =
    (k.0, k.1 ∙ sym (first-append xs ((p, v) ∷ []) (λ e. k.2 (k.1 ∙ e))), k.2)
ConsumerOk-link m t c hd d xs p v (got_value h n u) into kept k =
    (k.0, k.1 ++ (p, v) ∷ [], ap (λ (ys : Cells ℕ). ys ++ (p, v) ∷ []) k.2)
ConsumerOk-link m t c hd d xs p v (moved h u) into kept k = (
  k.0,
  Points-apart m (d ∷ xs) t h c k.0 into k.2 k.1,
  ground (arith, has-append h xs ((p, v) ∷ [])),
)
ConsumerOk-link m t c hd d xs p v (freed u) into kept k = tt

module _ {w : World} {owner : Option ℕ} {d : Ptr × ℕ} {xs : Cells ℕ} (inv : Inv w owner d xs)
    (i : ℕ) where
  open inv use {
    chain, head, history, alone, entered, lock, tail, count, private, distinct, consumer,
  }

  module _ (p : Ptr) (v : ℕ) (at : w.producers i ≡ locked p v) where
    own : owner ≡ some i
    own = alone i (ap critical at)

    abbrev end : Ptr
    end = (last d xs).0

    at_end : w.queue.tail ≡ end
    at_end = rw (own, at) at tail

    into_tail : has w.queue.tail (d ∷ xs) ≡ true
    into_tail = subst (λ t. has t (d ∷ xs) ≡ true) (sym at_end) (has-last d.0 d.1 xs)

    node_of : IsPrivate w.mem w.consumer (d ∷ xs) p v
    node_of = private i p v (ap private_node at)

    value_of : (n : Node) → w.mem w.queue.tail ≡ some n → n.value ≡ (last d xs).1
    value_of n got =
        let found : w.mem w.queue.tail ≡ some (node null (last d xs).1) =
          rw at_end (Points-last node w.mem d.0 d.1 xs chain).holds in
        ap (λ (c : Node). c.value) (some_inj (sym got ∙ found))

    -- Another producer's node is another node.
    unlike :
        (j : ℕ) (a : Ptr) (u : ℕ)
        → private_node (update w.producers i (linked p) j) ≡ some (a, u)
        → (a == p) ≡ false
    unlike j a u e = elim (Bool-cases (a == p)) [
      | inl same ↦
          let e' : private_node (w.producers j) ≡ some (p, u) = ground arith in
          let one : i ≡ j = distinct i j p v u (ap private_node at) e' in ground arith
      | inr ne ↦ ne
    ]

    link-IsPrivate :
        (n : Node) (j : ℕ) (a : Ptr) (u : ℕ)
        → private_node (update w.producers i (linked p) j) ≡ some (a, u)
        → IsPrivate
            (write w.mem w.queue.tail (some (node p n.value)))
            w.consumer
            (d ∷ (xs ++ (p, v) ∷ []))
            a
            u
    link-IsPrivate n j a u e =
        let before = private j a u (ground arith) in
        let apart : (a == p) ≡ false = unlike j a u e in
        record {
          points =
              Points-apart w.mem (d ∷ xs) w.queue.tail a (node p n.value) (node null u) into_tail
                before.out before.points;
          out = has-more a p v d xs before.out apart;
          kept = before.kept;
        }

    pub link-Inv :
        (n : Node)
        → w.mem w.queue.tail ≡ some n
        → Inv
            (after w i
              (write w.mem w.queue.tail (some (node p n.value)))
              w.queue
              (linked p)
              (v ∷ []))
            owner
            d
            (xs ++ (p, v) ∷ [])
    link-Inv n got = record {
      chain =
          subst₂ (λ t u. Chain node (write w.mem t (some (node p u))) (d ∷ (xs ++ (p, v) ∷ [])))
            (sym at_end) (sym (value_of n got))
            (Chain-link node w.mem d.0 d.1 xs p v chain node_of.points node_of.out);
      head = head;
      history = rw (history, map-append {B = ℕ} (λ c. c.1) xs ((p, v) ∷ [])) (simp append_assoc);
      alone = λ j c. ground (arith, alone j);
      entered = λ j e. ground (arith, entered j);
      lock = lock;
      tail =
          rw (own, inside_self w.producers i (linked p))
            (ap (λ (c : Ptr × ℕ). c.0) (last-append d xs (p, v)));
      count =
          rw (own, inside_self w.producers i (linked p), length-append xs ((p, v) ∷ []))
            (omega (arith, counted_so_far));
      private = link-IsPrivate n;
      distinct = λ j k a t u e f. distinct j k a t u (ground arith) (ground arith);
      consumer =
          ConsumerOk-link w.mem w.queue.tail (node p n.value) w.queue.head d xs p v w.consumer
            into_tail node_of.kept consumer;
    }
      where
        counted_so_far : w.queue.count ≡ (length xs + length (taken w.consumer)) % 2 ^ 64
        counted_so_far = rw (own, at) at count
