-- ===== src/MsQueue/Threads/Inv.antt =====
-- main/ms-queue.c run by many threads: what holds between any two steps.
use coremu.Common.{
  ℕ, ◌≡◌, ◌≢◌, sym, ap, subst, ◌∙◌, Bool, true, false, Option, none, some, List, [], ◌∷◌, ◌++◌, map,
  if◌then◌else◌, if_true, if_false, Bool-cases, inl, inr, arith,
}
use coremu.Memory.{Ptr, null, Mem}
use coremu.Chain.{Cells, first, has, has-append}
use coremu.MsQueue.{Tagged, Node, same}
use coremu.MsQueue.Threads.{
  Producer, made, linked, Consumer, got_head, got_value, moved, freed, World,
}
use coremu.MsQueue.Threads.Order.{next_of, value_of, Apart, Apart-has, next_of-behind, has-next}

-- The node that only this producer knows.
abbrev pub private_node : Producer → Option (Ptr × ℕ)
private_node (made p v) = some (p, v)
private_node (Producer.got_tail p v _) = some (p, v)
private_node (Producer.got_next p v _ _) = some (p, v)
private_node (Producer.agreed p v _ _) = some (p, v)
private_node _ = none

-- The value that has left the list and has not been returned.
abbrev pub taken : Consumer → List ℕ
taken (moved _ v) = v ∷ []
taken (freed v) = v ∷ []
taken _ = []

abbrev pub values : Cells ℕ → List ℕ
values = map (λ (c : Ptr × ℕ). c.1)

-- A node that was linked, as it stands in memory.
pub record IsLinked (m : Mem Node) (all : Cells ℕ) (a : Ptr) : Type 0 where
  pub cell : Node
  pub stands : m a ≡ some cell
  pub behind : cell.next.ptr ≡ next_of all a
  pub holds : cell.value ≡ value_of all a

pub record IsPrivate (m : Mem Node) (all : Cells ℕ) (p : Ptr) (v : ℕ) : Type 0 where
  pub ne_null : p ≢ null
  pub cell : Node
  pub stands : m p ≡ some cell
  pub behind : cell.next.ptr ≡ null
  pub holds : cell.value ≡ v
  pub out : has p all ≡ false

-- What has been read of a node that was linked is NULL or still behind it.
abbrev pub Saw : Cells ℕ → Ptr → Ptr → Type 0
Saw all t n = (has t all ≡ true) × (n ≢ null → next_of all t ≡ n)

abbrev pub ProducerOk : Cells ℕ → Producer → Type 0
ProducerOk all (Producer.got_tail p v t) = has t.ptr all ≡ true
ProducerOk all (Producer.got_next p v t n) = Saw all t.ptr n.ptr
ProducerOk all (Producer.agreed p v t n) = Saw all t.ptr n.ptr
ProducerOk all (linked p t) = Saw all t.ptr p × (p ≢ null)
ProducerOk all _ = Unit

-- What the consumer has read of `Head` and `Tail` and the dummy node `d`.
abbrev pub Looked : Ptr → Cells ℕ → Ptr → Tagged → Tagged → Tagged → Type 0
Looked d xs tail h t n =
    (h.ptr ≡ d)
    × (t.ptr ≢ d → has tail xs ≡ true)
    × (n.ptr ≢ null → first xs ≡ n.ptr)
    × (t.ptr ≢ d → n.ptr ≢ null)

abbrev pub ConsumerOk : Cells ℕ → Ptr → Cells ℕ → Ptr → (Ptr → Bool) → Consumer → Type 0
ConsumerOk old d xs tail gone (got_head h) = h.ptr ≡ d
ConsumerOk old d xs tail gone (Consumer.got_tail h t) =
    (h.ptr ≡ d) × (t.ptr ≢ d → has tail xs ≡ true)
ConsumerOk old d xs tail gone (Consumer.got_next h t n) = Looked d xs tail h t n
ConsumerOk old d xs tail gone (Consumer.agreed h t n) = Looked d xs tail h t n
ConsumerOk old d xs tail gone (got_value h n v) =
    (h.ptr ≡ d) × (ys : Cells ℕ) × (xs ≡ (n.ptr, v) ∷ ys) × (has tail xs ≡ true)
ConsumerOk old d xs tail gone (moved h v) = (has h old ≡ true) × (gone h ≡ false)
ConsumerOk old d xs tail gone _ = Unit

-- `all` are the nodes that were ever linked: the old dummy nodes, the dummy node and the queue.
pub record Inv (w : World) (all old : Cells ℕ) (d : Ptr × ℕ) (xs : Cells ℕ) : Type 0 where
  pub split : all ≡ old ++ d ∷ xs
  pub apart : Apart all
  pub nodes : (a : Ptr) → has a all ≡ true → IsLinked w.shared.mem all a
  pub head : w.shared.queue.head.ptr ≡ d.0
  pub tail : has w.shared.queue.tail.ptr (d ∷ xs) ≡ true
  pub history : w.sent ≡ w.received ++ (taken w.consumer ++ values xs)
  pub dead : (a : Ptr) → w.shared.gone a ≡ true → has a old ≡ true
  pub private :
      (i : ℕ) (p : Ptr) (v : ℕ)
      → private_node (w.producers i) ≡ some (p, v)
      → IsPrivate w.shared.mem all p v
  pub distinct :
      (i j : ℕ) (p : Ptr) (u v : ℕ)
      → private_node (w.producers i) ≡ some (p, u)
      → private_node (w.producers j) ≡ some (p, v)
      → i ≡ j
  pub producer : (i : ℕ) → ProducerOk all (w.producers i)
  pub consumer : ConsumerOk old d.0 xs w.shared.queue.tail.ptr w.shared.gone w.consumer

module _ {w : World} {all old : Cells ℕ} {d : Ptr × ℕ} {xs : Cells ℕ}
    (inv : Inv w all old d xs) where
  pub whole_lem : Apart (old ++ d ∷ xs)
  whole_lem = subst Apart inv.split inv.apart

  pub in_all : (a : Ptr) → has a (d ∷ xs) ≡ true → has a all ≡ true
  in_all a into = ap (has a) inv.split ∙ (has-append a old (d ∷ xs) ∙ ground (arith, into))

  pub not_old : (a : Ptr) → has a (d ∷ xs) ≡ true → has a old ≡ false
  not_old a into = Apart-has a old (d ∷ xs) whole_lem into

  pub next_here : (a : Ptr) → has a (d ∷ xs) ≡ true → next_of all a ≡ next_of (d ∷ xs) a
  next_here a into =
      ap (λ c. next_of c a) inv.split ∙ next_of-behind a old (d ∷ xs) (not_old a into)

  -- A tail that moves on is not at the dummy node.
  pub moved_on : (n : Ptr) → next_of all w.shared.queue.tail.ptr ≡ n → n ≢ null → has n xs ≡ true
  moved_on n e ne =
      let f : next_of (d ∷ xs) w.shared.queue.tail.ptr ≡ n =
        sym (next_here w.shared.queue.tail.ptr inv.tail) ∙ e in
      subst (λ c. has c xs ≡ true) f
        (has-next w.shared.queue.tail.ptr d.0 d.1 xs inv.tail (λ z. ne (sym f ∙ z)))

  -- A swap of `Tail` for the node behind the one that was read.
  pub swapped :
      (t x : Tagged)
      → Saw all t.ptr x.ptr
      → x.ptr ≢ null
      → let tail' = if same w.shared.queue.tail t then x else w.shared.queue.tail in
        (has tail'.ptr (d ∷ xs) ≡ true)
        × (has w.shared.queue.tail.ptr xs ≡ true → has tail'.ptr xs ≡ true)
  swapped t x saw ne = elim (Bool-cases (same w.shared.queue.tail t)) [
    | inl b ↦
        let here : w.shared.queue.tail.ptr ≡ t.ptr = ground (arith, b) in
        let on = moved_on x.ptr (ap (next_of all) here ∙ saw.1 ne) ne in
        subst Kept (sym (if_true (same w.shared.queue.tail t) _ _ b)) (ground (arith, on), λ _. on)
    | inr b ↦ subst Kept (sym (if_false (same w.shared.queue.tail t) _ _ b)) (inv.tail, λ z. z)
  ]
    where
      Kept : Tagged → Type 0
      Kept tail' =
          (has tail'.ptr (d ∷ xs) ≡ true)
          × (has w.shared.queue.tail.ptr xs ≡ true → has tail'.ptr xs ≡ true)
