-- ===== src/MsQueue/Threads/Safety.antt =====
-- main/ms-queue.c run by many threads: what holds in every state that they can reach.
use coremu.Common.{
  ℕ, ◌≡◌, ◌≢◌, refl, sym, ap, subst, ◌∙◌, ◌||◌, Bool, true, false, some, some_inj, List, [], ◌∷◌,
  ◌++◌, ◌==◌, if_true, if_false, Bool-cases, inl, inr, arith, append-nil, append_assoc,
}
use coremu.Memory.{Ptr, null, Mem}
use coremu.Chain.{Cells, first, has, has-append}
use coremu.MsQueue.Threads.Order.{
  Apart, Apart-behind, Apart-has, has-first, next_of-behind, value_of, value_of-behind,
}
use coremu.LockQueue.{incq, decq}
use coremu.MsQueue.{Tagged, tagged, Node, node, bump}
use coremu.MsQueue.Threads
use coremu.MsQueue.Threads.{
  Producer, outside, made, linked, swung, Consumer, resting, got_head, got_value, moved, freed,
  Shared, swing_tail, World, holds_none, unlinking, Quiet, reclaimed, Step, produce, consume,
  reclaim, initial, Reach, begin, later,
}
use coremu.MsQueue.Threads.Inv.{
  private_node, taken, values, IsLinked, Saw, Looked, ProducerOk, ConsumerOk, Inv, in_all, not_old,
  next_here, whole_lem,
}
use coremu.MsQueue.Threads.Enqueue.{turn-Inv, pass-Inv, swap-Inv, make-Inv}
use coremu.MsQueue.Threads.Enqueue
use coremu.MsQueue.Threads.Link.{link-Inv}
use coremu.MsQueue.Threads.Dequeue.{
  go-Inv, look-Inv, help-Inv, next_seen, dummy_next, here, read_next-Inv, value-Inv, move-Inv,
  free-Inv,
}
use coremu.MsQueue.Threads.Dequeue

-- The nodes that were ever linked, in a reachable state.
pub record Shape (w : World) : Type 0 where
  pub all : Cells ℕ
  pub old : Cells ℕ
  pub dummy : Ptr × ℕ
  pub cells : Cells ℕ
  pub inv : Inv w all old dummy cells

abbrev shape :
    {w : World} {all old : Cells ℕ} {d : Ptr × ℕ} {xs : Cells ℕ} → Inv w all old d xs → Shape w
shape {all} {old} {d} {xs} inv = record { all = all; old = old; dummy = d; cells = xs; inv = inv }

read_tail_ok :
    {w : World} {all old : Cells ℕ} {d : Ptr × ℕ} {xs : Cells ℕ}
    → Inv w all old d xs
    → has w.shared.queue.tail.ptr all ≡ true
read_tail_ok {w} inv = in_all inv w.shared.queue.tail.ptr inv.tail

Produce-Shape :
    {w : World} {all old : Cells ℕ} {d : Ptr × ℕ} {xs : Cells ℕ} (i : ℕ) {p p' : Producer}
    {s : Shared} {es : List ℕ}
    → Inv w all old d xs
    → Threads.Produce w.shared p s p' es
    → w.producers i ≡ p
    → Shape (Enqueue.after w i s p' es)
Produce-Shape i inv (Threads.Produce.make p v k ne new) at = shape (make-Inv inv i p v k ne new at)
Produce-Shape {w} i inv (Threads.Produce.read_tail {p} {v}) at = shape (
    pass-Inv inv i (Producer.got_tail p v w.shared.queue.tail) (λ c e. ap private_node at ∙ e)
      (read_tail_ok inv))
Produce-Shape {all} i inv (Threads.Produce.read_next {p} {v} {t} c got) at =
    let into : has t.ptr all ≡ true = subst (ProducerOk all) at (inv.producer i) in
    let l = inv.nodes t.ptr into in
    shape (
      pass-Inv inv i (Producer.got_next p v t c.next) (λ c e. ap private_node at ∙ e)
        (
          into,
          λ ne. sym (ap (λ (x : Node). x.next.ptr) (some_inj (sym got ∙ l.stands)) ∙ l.behind),
        ))
Produce-Shape i inv (Threads.Produce.differ {p} {v} {t} {n} g) at =
    shape (pass-Inv inv i (made p v) (λ c e. ap private_node at ∙ e) tt)
Produce-Shape {all} i inv (Threads.Produce.agree {p} {v} {t} {n} g) at = shape (
    pass-Inv inv i (Producer.agreed p v t n) (λ c e. ap private_node at ∙ e)
      (subst (ProducerOk all) at (inv.producer i)))
Produce-Shape i inv (Threads.Produce.link {p} {v} {t} {n} c last got agree) at =
    shape (link-Inv inv i p v t n at c last got agree)
Produce-Shape i inv (Threads.Produce.miss {p} {v} {t} {n} c last got differ) at =
    shape (pass-Inv inv i (made p v) (λ c e. ap private_node at ∙ e) tt)
Produce-Shape {all} i inv (Threads.Produce.help {p} {v} {t} {n} ne) at = shape (
    swap-Inv inv i (made p v) t n.ptr (λ c e. ap private_node at ∙ e) tt
      (subst (ProducerOk all) at (inv.producer i)) ne)
Produce-Shape {all} i inv (Threads.Produce.swing {p} {t}) at =
    let k : Saw all t.ptr p × (p ≢ null) = subst (ProducerOk all) at (inv.producer i) in
    shape (swap-Inv inv i swung t p (λ c e. cc) tt k.0 k.1)
Produce-Shape {w} i inv Threads.Produce.inc at = shape (
    turn-Inv inv i outside (record w.shared.queue { count = incq w.shared.queue.count }) (λ c e. cc)
      tt refl inv.tail (λ z. z))

Consume-Shape :
    {w : World} {all old : Cells ℕ} {d : Ptr × ℕ} {xs : Cells ℕ} {c c' : Consumer} {s : Shared}
    {es : List ℕ}
    → Inv w all old d xs
    → Threads.Consume w.shared c s c' es
    → w.consumer ≡ c
    → Shape (Dequeue.after w s c' es)
Consume-Shape {w} inv Threads.Consume.start at =
    shape (look-Inv inv (got_head w.shared.queue.head) (sym (ap taken at)) inv.head)
Consume-Shape {w} {old} {d} {xs} inv (Threads.Consume.read_tail {h}) at = shape (
    look-Inv inv (Consumer.got_tail h w.shared.queue.tail) (sym (ap taken at)) (
      subst (ConsumerOk old d.0 xs w.shared.queue.tail.ptr w.shared.gone) at inv.consumer,
      λ ne. ground (arith, inv.tail, ne),
    ))
Consume-Shape inv (Threads.Consume.read_next {h} {t} c got) at =
    shape (read_next-Inv inv h t c at got)
Consume-Shape inv (Threads.Consume.differ g) at =
    shape (look-Inv inv resting (sym (ap taken at)) tt)
Consume-Shape {w} {old} {d} {xs} inv (Threads.Consume.agree {h} {t} {n} g) at = shape (
    look-Inv inv (Consumer.agreed h t n) (sym (ap taken at))
      (subst (ConsumerOk old d.0 xs w.shared.queue.tail.ptr w.shared.gone) at inv.consumer))
Consume-Shape inv (Threads.Consume.empty e n) at =
    shape (look-Inv inv resting (sym (ap taken at)) tt)
Consume-Shape {w} {all} {old} {d} {xs} inv (Threads.Consume.help {h} {t} {n} e ne) at =
    let k : Looked d.0 xs w.shared.queue.tail.ptr h t n =
      subst (ConsumerOk old d.0 xs w.shared.queue.tail.ptr w.shared.gone) at inv.consumer in
    let same_node : d.0 ≡ t.ptr = sym k.0 ∙ e in
    shape (
      help-Inv inv t (tagged n.ptr (bump t.count)) (ap taken at)
        (subst (λ a. Saw all a n.ptr) same_node
          (in_all inv d.0 (here inv), λ z. dummy_next inv ∙ k.2 ne))
        ne)
Consume-Shape inv (Threads.Consume.value {h} {t} {n} c ne got) at =
    shape (value-Inv inv h t n c at ne got)
Consume-Shape {w} {old} {d} {xs} inv (Threads.Consume.move {h} {n} {v} g) at =
    let k : (h.ptr ≡ d.0)
        × (ys : Cells ℕ) × (xs ≡ (n.ptr, v) ∷ ys)
        × (has w.shared.queue.tail.ptr xs ≡ true) =
      subst (ConsumerOk old d.0 xs w.shared.queue.tail.ptr w.shared.gone) at inv.consumer in
    shape (move-Inv inv h n v k.1 (ap taken at) k.0 k.2 k.3)
Consume-Shape inv (Threads.Consume.lose g) at = shape (look-Inv inv resting (sym (ap taken at)) tt)
Consume-Shape inv (Threads.Consume.free {h} {v}) at = shape (free-Inv inv h v at)
Consume-Shape {w} inv (Threads.Consume.dec {v}) at = shape (
    go-Inv inv resting (record w.shared.queue { count = decq w.shared.queue.count }) (v ∷ []) refl
      inv.tail (sym (ap taken at)) tt)

initial-Shape : (d : Ptr) → d ≢ null → Shape (initial d)
initial-Shape d ne = record {
  all = (d, 0) ∷ [];
  old = [];
  dummy = (d, 0);
  cells = [];
  inv = record {
    split = refl;
    apart = (ne, refl, tt);
    nodes = λ a into.
        let e : a ≡ d = ground (arith, into) in
        subst (IsLinked (initial d).shared.mem ((d, 0) ∷ [])) (sym e) (record {
          cell = node (tagged null 0) 0;
          stands = if_true (d == d) _ _ (ground arith);
          behind = sym (if_true (d == d) _ _ (ground arith));
          holds = sym (if_true (d == d) _ _ (ground arith));
        });
    head = refl;
    tail = ground arith;
    history = refl;
    dead = λ a g. cc;
    private = λ i p v e. cc;
    distinct = λ i j p u v e f. cc;
    producer = λ i. tt;
    consumer = tt;
  };
}

ProducerOk-quiet : (all : Cells ℕ) (p : Producer) → holds_none p ≡ true → ProducerOk all p
ProducerOk-quiet all outside e = tt
ProducerOk-quiet all (made p v) e = tt
ProducerOk-quiet all swung e = tt
ProducerOk-quiet all (Producer.got_tail p v t) e = cc
ProducerOk-quiet all (Producer.got_next p v t n) e = cc
ProducerOk-quiet all (Producer.agreed p v t n) e = cc
ProducerOk-quiet all (linked p t) e = cc

ConsumerOk-quiet :
    (old : Cells ℕ) (d : Ptr) (xs : Cells ℕ) (tail : Ptr) (gone : Ptr → Bool) (c : Consumer)
    → unlinking c ≡ false
    → ConsumerOk old d xs tail gone c
    → ConsumerOk [] d xs tail (λ a. false) c
ConsumerOk-quiet old d xs tail gone resting e k = tt
ConsumerOk-quiet old d xs tail gone (got_head h) e k = k
ConsumerOk-quiet old d xs tail gone (Consumer.got_tail h t) e k = k
ConsumerOk-quiet old d xs tail gone (Consumer.got_next h t n) e k = k
ConsumerOk-quiet old d xs tail gone (Consumer.agreed h t n) e k = k
ConsumerOk-quiet old d xs tail gone (got_value h n v) e k = k
ConsumerOk-quiet old d xs tail gone (moved h v) e k = cc
ConsumerOk-quiet old d xs tail gone (freed v) e k = tt

-- What was freed has left the list, and after a quiet moment nothing speaks of it.
reclaim-Inv :
    {w : World} {all old : Cells ℕ} {d : Ptr × ℕ} {xs : Cells ℕ}
    → Quiet w
    → Inv w all old d xs
    → Inv (reclaimed w) (d ∷ xs) [] d xs
reclaim-Inv {w} {all} {old} {d} {xs} quiet inv = record {
  split = refl;
  apart = Apart-behind old (d ∷ xs) (whole_lem inv);
  nodes = λ a into.
      let l = inv.nodes a (in_all inv a into) in
      record {
        cell = l.cell;
        stands = if_false (w.shared.gone a) _ _ (kept a (not_old inv a into)) ∙ l.stands;
        behind = l.behind ∙ next_here inv a into;
        holds =
            l.holds
            ∙ (ap (λ c. value_of c a) inv.split
                ∙ value_of-behind a old (d ∷ xs) (not_old inv a into));
      };
  head = inv.head;
  tail = inv.tail;
  history = inv.history;
  dead = λ a g. cc;
  private = λ i p v e.
      let h = inv.private i p v e in
      let out : (has p old || has p (d ∷ xs)) ≡ false =
        sym (ap (has p) inv.split ∙ has-append p old (d ∷ xs)) ∙ h.out in
      record {
        ne_null = h.ne_null;
        cell = h.cell;
        stands = if_false (w.shared.gone p) _ _ (kept p (ground (arith, out))) ∙ h.stands;
        behind = h.behind;
        holds = h.holds;
        out = ground (arith, out);
      };
  distinct = inv.distinct;
  producer = λ i. ProducerOk-quiet (d ∷ xs) (w.producers i) (quiet.producers_quiet i);
  consumer =
      ConsumerOk-quiet old d.0 xs w.shared.queue.tail.ptr w.shared.gone w.consumer
        quiet.consumer_quiet inv.consumer;
}
  where
    kept : (a : Ptr) → has a old ≡ false → w.shared.gone a ≡ false
    kept a out = elim (Bool-cases (w.shared.gone a)) [
      | inl g ↦ cc (sym (inv.dead a g), out)
      | inr g ↦ g
    ]

Step-Shape : {w w' : World} → Step false w w' → Shape w → Shape w'
Step-Shape (produce i mv) sh = Produce-Shape i sh.inv mv refl
Step-Shape (consume mv) sh = Consume-Shape sh.inv mv refl
Step-Shape (reclaim (inl on)) sh = cc
Step-Shape (reclaim (inr quiet)) sh = shape (reclaim-Inv quiet sh.inv)

pub Reach-Shape : {d : Ptr} {w : World} → d ≢ null → Reach false d w → Shape w
Reach-Shape ne begin = initial-Shape _ ne
Reach-Shape ne (later r st) = Step-Shape st (Reach-Shape ne r)

-- The nodes of a list stand in memory, each with its value and a pointer to the next, the last with
-- NULL.
abbrev pub Linked : Mem Node → Cells ℕ → Type 0
Linked m [] = Unit
Linked m ((p, v) ∷ xs) =
    ((c : Node) × (m p ≡ some c) × (c.value ≡ v) × (c.next.ptr ≡ first xs)) × Linked m xs

nodes-Linked :
    (m : Mem Node) (pre xs : Cells ℕ)
    → Apart (pre ++ xs)
    → ((a : Ptr) → has a (pre ++ xs) ≡ true → IsLinked m (pre ++ xs) a)
    → Linked m xs
nodes-Linked m pre [] ap' nodes = tt
nodes-Linked m pre ((p, v) ∷ xs) ap' nodes =
    let l = nodes p (has-append p pre ((p, v) ∷ xs) ∙ ground arith) in
    let out = Apart-has p pre ((p, v) ∷ xs) ap' (ground arith) in
    let e = append_assoc pre ((p, v) ∷ []) xs in
    (
      (
        l.cell,
        l.stands,
        l.holds ∙ (value_of-behind p pre ((p, v) ∷ xs) out ∙ if_true (p == p) _ _ (ground arith)),
        l.behind ∙ (next_of-behind p pre ((p, v) ∷ xs) out ∙ if_true (p == p) _ _ (ground arith)),
      ),
      nodes-Linked m (pre ++ (p, v) ∷ []) xs (subst Apart (sym e) ap')
          (subst (λ zs. (a : Ptr) → has a zs ≡ true → IsLinked m zs a) (sym e) nodes),
    )

-- Where a block that was freed is handed out again or changed only after a moment at which no producer
-- holds a pointer that it has read in `enqueue` and the consumer is not about to free a node: whatever the
-- interleaving of the producers and the consumer of the lock-free queue, from `Head` a dummy node and a list of nodes can be
-- followed in memory, and the values that producers have linked are, in order, those that `dequeue`
-- returned, the one that the consumer is about to return, if any, and those of the list.
pub ms_received-prefix :
    {d : Ptr} {w : World}
    → d ≢ null
    → Reach false d w
    → (c : Ptr × ℕ) × (xs : Cells ℕ) × (w.shared.queue.head.ptr ≡ c.0)
      × Linked w.shared.mem (c ∷ xs)
      × (w.sent ≡ w.received ++ (taken w.consumer ++ values xs))
ms_received-prefix {w} ne r =
    let sh = Reach-Shape ne r in
    (
      sh.dummy,
      sh.cells,
      sh.inv.head,
      nodes-Linked w.shared.mem sh.old (sh.dummy ∷ sh.cells) (whole_lem sh.inv) (
          subst (λ zs. (a : Ptr) → has a zs ≡ true → IsLinked w.shared.mem zs a) sh.inv.split
            sh.inv.nodes),
      sh.inv.history,
    )

-- What the next access of each thread needs: the consumer reads and frees blocks that are not freed, and
-- producers read blocks that were allocated.
pub record IsSafe (w : World) : Type 0 where
  pub next_safe :
      (h t : Tagged)
      → w.consumer ≡ Consumer.got_tail h t
      → (c : Node) × (w.shared.mem h.ptr ≡ some c) × (w.shared.gone h.ptr ≡ false)
  pub value_safe :
      (h t n : Tagged)
      → w.consumer ≡ Consumer.agreed h t n
      → h.ptr ≢ t.ptr
      → (c : Node) × (w.shared.mem n.ptr ≡ some c) × (w.shared.gone n.ptr ≡ false)
  pub free_safe : (h : Ptr) (v : ℕ) → w.consumer ≡ moved h v → w.shared.gone h ≡ false
  pub tail_safe :
      (i : ℕ) (p : Ptr) (v : ℕ) (t : Tagged)
      → w.producers i ≡ Producer.got_tail p v t
      → (c : Node) × (w.shared.mem t.ptr ≡ some c)

Inv-IsSafe :
    {w : World} {all old : Cells ℕ} {d : Ptr × ℕ} {xs : Cells ℕ} → Inv w all old d xs → IsSafe w
Inv-IsSafe {w} {all} {old} {d} {xs} inv = record {
  next_safe = λ h t at.
      let k : (h.ptr ≡ d.0) × (t.ptr ≢ d.0 → has w.shared.queue.tail.ptr xs ≡ true) = seen at in
      alive h.ptr (subst (λ a. has a (d ∷ xs) ≡ true) (sym k.0) (here inv));
  value_safe = λ h t n at ne.
      let k : Looked d.0 xs w.shared.queue.tail.ptr h t n = seen at in
      let off : n.ptr ≢ null = k.3 (λ z. ne (k.0 ∙ sym z)) in
      alive n.ptr (
        ground (
          arith,
          subst (λ a. has a xs ≡ true) (k.2 off) (has-first xs (λ z. off (sym (k.2 off) ∙ z))),
        ));
  free_safe = λ h v at. let k : (has h old ≡ true) × (w.shared.gone h ≡ false) = seen at in k.1;
  tail_safe = λ i p v t at.
      let l = inv.nodes t.ptr (subst (ProducerOk all) at (inv.producer i)) in (l.cell, l.stands);
}
  where
    seen :
        {c : Consumer}
        → w.consumer ≡ c
        → ConsumerOk old d.0 xs w.shared.queue.tail.ptr w.shared.gone c
    seen at = subst (ConsumerOk old d.0 xs w.shared.queue.tail.ptr w.shared.gone) at inv.consumer

    alive :
        (a : Ptr)
        → has a (d ∷ xs) ≡ true
        → (c : Node) × (w.shared.mem a ≡ some c) × (w.shared.gone a ≡ false)
    alive a into =
        let l = inv.nodes a (in_all inv a into) in
        (
          l.cell,
          l.stands,
          elim (Bool-cases (w.shared.gone a)) [
            | inl g ↦ cc (sym (inv.dead a g), not_old inv a into)
            | inr g ↦ g
          ],
        )

-- Where a block that was freed is handed out again or changed only after a moment at which no producer
-- holds a pointer that it has read in `enqueue` and the consumer is not about to free a node: in every reachable state of the
-- lock-free queue the consumer's next access is to a block that is
-- allocated and not freed, it frees no block twice, and a producer that follows the tail it has read
-- follows it to a block that was allocated.
pub ms_Reach-IsSafe : {d : Ptr} {w : World} → d ≢ null → Reach false d w → IsSafe w
ms_Reach-IsSafe ne r = Inv-IsSafe (Reach-Shape ne r).inv

nothing_left : (xs : Cells ℕ) → Apart xs → first xs ≡ null → xs ≡ []
nothing_left [] a e = refl
nothing_left ((p, v) ∷ xs) a e = absurd (a.0 e)

-- Where a block that was freed is handed out again or changed only after a moment at which no producer
-- holds a pointer that it has read in `enqueue` and the consumer is not about to free a node: the consumer of the lock-free queue
-- reads NULL behind the dummy node only when every value that was
-- linked so far has been returned: the answer that the queue is empty is right at that moment.
pub ms_null-empty :
    {d : Ptr} {w : World} (h t : Tagged) (c : Node)
    → d ≢ null
    → Reach false d w
    → w.consumer ≡ Consumer.got_tail h t
    → w.shared.mem h.ptr ≡ some c
    → c.next.ptr ≡ null
    → w.sent ≡ w.received
ms_null-empty {w} h t c ne r at got e =
    let sh = Reach-Shape ne r in
    let k : (h.ptr ≡ sh.dummy.0)
        × (t.ptr ≢ sh.dummy.0 → has w.shared.queue.tail.ptr sh.cells ≡ true) =
      subst (ConsumerOk sh.old sh.dummy.0 sh.cells w.shared.queue.tail.ptr w.shared.gone) at
        sh.inv.consumer in
    let none_left : sh.cells ≡ [] =
      nothing_left sh.cells (Apart-behind sh.old (sh.dummy ∷ sh.cells) (whole_lem sh.inv)).2
        (sym (next_seen sh.inv h.ptr c k.0 got) ∙ e) in
    sh.inv.history
    ∙ (ap (λ k. w.received ++ (taken k ++ values sh.cells)) at
        ∙ (ap (λ zs. w.received ++ values zs) none_left ∙ append-nil w.received))
