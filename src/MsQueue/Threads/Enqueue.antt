-- ===== src/MsQueue/Threads/Enqueue.antt =====
-- main/ms-queue.c run by many threads: the steps of a producer that link no node.
use coremu.Common.{
  ℕ, ◌≡◌, ◌≢◌, refl, sym, ap, subst, ◌∙◌, Bool, true, false, Option, none, some, some_inj, List, [],
  ◌∷◌, ◌++◌, ◌==◌, ==_iff, if◌then◌else◌, if_true, if_false, Bool-cases, inl, inr, arith,
  append-nil,
}
use coremu.Memory.{Ptr, null, Mem, write}
use coremu.Chain.{Cells, has}
use coremu.MsQueue.{Tagged, tagged, Node, node, Queue, same, bump}
use coremu.MsQueue.Threads.{
  Producer, outside, made, Consumer, resting, got_head, got_value, moved, freed, Shared, swing_tail,
  update, World,
}
use coremu.MsQueue.Threads.Inv.{private_node, IsPrivate, Saw, ProducerOk, ConsumerOk, Inv, swapped}

abbrev pub after : World → ℕ → Shared → Producer → List ℕ → World
after w i s p es = record w { shared = s; producers = update w.producers i p; sent = w.sent ++ es }

pub updated :
    (P : ℕ → Producer → Type 0) (f : ℕ → Producer) (i : ℕ) (p : Producer) (j : ℕ)
    → (i ≡ j → P j p)
    → ((i == j) ≡ false → P j (f j))
    → P j (update f i p j)
updated P f i p j new old = elim (Bool-cases (i == j)) [
  | inl b ↦ subst (P j) (sym (if_true (i == j) _ _ b)) (new ((==_iff i j).0 b))
  | inr b ↦ subst (P j) (sym (if_false (i == j) _ _ b)) (old b)
]

ConsumerOk-tail :
    (old : Cells ℕ) (d : Ptr) (xs : Cells ℕ) (tail tail' : Ptr) (gone : Ptr → Bool) (c : Consumer)
    → (has tail xs ≡ true → has tail' xs ≡ true)
    → ConsumerOk old d xs tail gone c
    → ConsumerOk old d xs tail' gone c
ConsumerOk-tail old d xs tail tail' gone (Consumer.got_tail h t) on k = (k.0, λ ne. on (k.1 ne))
ConsumerOk-tail old d xs tail tail' gone (Consumer.got_next h t n) on k =
    (k.0, λ ne. on (k.1 ne), k.2, k.3)
ConsumerOk-tail old d xs tail tail' gone (Consumer.agreed h t n) on k =
    (k.0, λ ne. on (k.1 ne), k.2, k.3)
ConsumerOk-tail old d xs tail tail' gone (got_value h n v) on k = (k.0, k.1, k.2, on k.3)
ConsumerOk-tail old d xs tail tail' gone (moved h v) on k = k
ConsumerOk-tail old d xs tail tail' gone (got_head h) on k = k
ConsumerOk-tail old d xs tail tail' gone resting on k = tt
ConsumerOk-tail old d xs tail tail' gone (freed v) on k = tt

module _ {w : World} {all old : Cells ℕ} {d : Ptr × ℕ} {xs : Cells ℕ} (inv : Inv w all old d xs)
    (i : ℕ) where
  -- The producers that know a node alone, when one of them goes on with its own or without one.
  pub private_after :
      (p' : Producer)
      → ((c : Ptr × ℕ) → private_node p' ≡ some c → private_node (w.producers i) ≡ some c)
      → (j : ℕ) (c : Ptr × ℕ) → private_node (update w.producers i p' j) ≡ some c
      → private_node (w.producers j) ≡ some c
  private_after p' keep j c =
      updated (λ k x. private_node x ≡ some c → private_node (w.producers k) ≡ some c) w.producers i
        p' j
        (λ e.
          subst (λ k. private_node p' ≡ some c → private_node (w.producers k) ≡ some c) e (keep c))
        (λ e z. z)

  -- A producer goes on, and `Tail` stays or moves on, with `Head` where it was.
  pub turn-Inv :
      (p' : Producer) (q : Queue)
      → ((c : Ptr × ℕ) → private_node p' ≡ some c → private_node (w.producers i) ≡ some c)
      → ProducerOk all p'
      → q.head ≡ w.shared.queue.head
      → has q.tail.ptr (d ∷ xs) ≡ true
      → (has w.shared.queue.tail.ptr xs ≡ true → has q.tail.ptr xs ≡ true)
      → Inv (after w i (record w.shared { queue = q }) p' []) all old d xs
  turn-Inv p' q keep good hd into on = record {
    split = inv.split;
    apart = inv.apart;
    nodes = inv.nodes;
    head = ap (λ (t : Tagged). t.ptr) hd ∙ inv.head;
    tail = into;
    history = append-nil w.sent ∙ inv.history;
    dead = inv.dead;
    private = λ j p v e. inv.private j p v (private_after p' keep j (p, v) e);
    distinct = λ j k p u v e f.
        inv.distinct j k p u v (private_after p' keep j (p, u) e)
          (private_after p' keep k (p, v) f);
    producer =
        λ j. updated (λ _ x. ProducerOk all x) w.producers i p' j (λ _. good) (λ _. inv.producer j);
    consumer =
        ConsumerOk-tail old d.0 xs w.shared.queue.tail.ptr q.tail.ptr w.shared.gone w.consumer on
          inv.consumer;
  }

  -- The same without a change of the queue.
  pub pass-Inv :
      (p' : Producer)
      → ((c : Ptr × ℕ) → private_node p' ≡ some c → private_node (w.producers i) ≡ some c)
      → ProducerOk all p'
      → Inv (after w i w.shared p' []) all old d xs
  pass-Inv p' keep good = turn-Inv p' w.shared.queue keep good refl inv.tail (λ z. z)

  -- The same with a swap of `Tail` for the node behind the one that was read.
  pub swap-Inv :
      (p' : Producer) (t : Tagged) (n : Ptr)
      → ((c : Ptr × ℕ) → private_node p' ≡ some c → private_node (w.producers i) ≡ some c)
      → ProducerOk all p'
      → Saw all t.ptr n
      → n ≢ null
      → Inv (after w i (swing_tail t (tagged n (bump t.count)) w.shared) p' []) all old d xs
  swap-Inv p' t n keep good saw ne =
      let kept = swapped inv t (tagged n (bump t.count)) saw ne in
      turn-Inv p'
        (record w.shared.queue {
          tail =
              if same w.shared.queue.tail t then tagged n (bump t.count) else w.shared.queue.tail;
        })
        keep good refl kept.0 kept.1

  -- A producer gets a node at a new address.
  pub make-Inv :
      (p : Ptr) (v k : ℕ)
      → p ≢ null
      → w.shared.mem p ≡ none
      → w.producers i ≡ outside
      → Inv
          (after w i
            (record w.shared { mem = write w.shared.mem p (some (node (tagged null k) v)) })
            (made p v)
            [])
          all
          old
          d
          xs
  make-Inv p v k ne new at = record {
    split = inv.split;
    apart = inv.apart;
    nodes = λ a into.
        let n = inv.nodes a into in
        record {
          cell = n.cell;
          stands = kept a n.cell n.stands;
          behind = n.behind;
          holds = n.holds;
        };
    head = inv.head;
    tail = inv.tail;
    history = append-nil w.sent ∙ inv.history;
    dead = inv.dead;
    private = λ j q u e. elim (Bool-cases (i == j)) [
      | inl b ↦
          subst (λ (c : Ptr × ℕ). IsPrivate mem' all c.0 c.1) (some_inj (mine j b e))
            (record {
              ne_null = ne;
              cell = node (tagged null k) v;
              stands = if_true (p == p) _ _ (ground arith);
              behind = refl;
              holds = refl;
              out = fresh;
            })
      | inr b ↦
          let n = inv.private j q u (theirs j b e) in
          record {
            ne_null = n.ne_null;
            cell = n.cell;
            stands = kept q n.cell n.stands;
            behind = n.behind;
            holds = n.holds;
            out = n.out;
          }
    ];
    distinct = λ j l q u x e f. elim (Bool-cases (i == j)) [
      | inl a ↦ elim (Bool-cases (i == l)) [
        | inl b ↦ ground (arith, a, b)
        | inr b ↦
            absurd
              (unknown l q x (ap (λ (c : Ptr × ℕ). c.0) (some_inj (mine j a e))) (theirs l b f))
      ]
      | inr a ↦ elim (Bool-cases (i == l)) [
        | inl b ↦
            absurd
              (unknown j q u (ap (λ (c : Ptr × ℕ). c.0) (some_inj (mine l b f))) (theirs j a e))
        | inr b ↦ inv.distinct j l q u x (theirs j a e) (theirs l b f)
      ]
    ];
    producer = λ j.
        updated (λ _ x. ProducerOk all x) w.producers i (made p v) j (λ _. tt)
          (λ _. inv.producer j);
    consumer = inv.consumer;
  }
    where
      mem' : Mem Node
      mem' = write w.shared.mem p (some (node (tagged null k) v))

      kept : (a : Ptr) (c : Node) → w.shared.mem a ≡ some c → mem' a ≡ some c
      kept a c e = elim (Bool-cases (a == p)) [
        | inl b ↦ cc (new, e, (==_iff a p).0 b)
        | inr b ↦ if_false (a == p) _ _ b ∙ e
      ]

      fresh : has p all ≡ false
      fresh = elim (Bool-cases (has p all)) [ inl b ↦ cc (new, (inv.nodes p b).stands) | inr b ↦ b ]

      mine :
          (j : ℕ) {x : Option (Ptr × ℕ)}
          → (i == j) ≡ true
          → private_node (update w.producers i (made p v) j) ≡ x
          → some (p, v) ≡ x
      mine j b e = sym (ap private_node (if_true (i == j) (made p v) (w.producers j) b)) ∙ e

      theirs :
          (j : ℕ) {x : Option (Ptr × ℕ)}
          → (i == j) ≡ false
          → private_node (update w.producers i (made p v) j) ≡ x
          → private_node (w.producers j) ≡ x
      theirs j b e = sym (ap private_node (if_false (i == j) (made p v) (w.producers j) b)) ∙ e

      unknown : (j : ℕ) (q : Ptr) (u : ℕ) → p ≡ q → private_node (w.producers j) ≡ some (q, u) → ⊥
      unknown j q u e f = cc (new, e, (inv.private j q u f).stands)
