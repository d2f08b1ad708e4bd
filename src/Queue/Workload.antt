-- ===== src/Queue/Workload.antt =====
-- incl/queue.h: what a user of the queue sees of any sequence of calls.
use coremu.Common.{
  ℕ, ◌+◌, ◌^◌, ◌<◌, ◌≡◌, refl, Option, none, some, List, [], ◌∷◌, ◌++◌, arith, length,
  length-append,
}
use coremu.Queue.{QueueImpl}
use coremu.System.{◌>>=◌}

pub data Call : Type 0 where
  put : (p v : ℕ) → Call  -- enqueue, with the address that malloc returns
  take : Call  -- dequeue

-- A first-in first-out list: the results of the calls to `dequeue`, and the values that are left.
abbrev pub fifo : List Call → List ℕ → List (Option ℕ) × List ℕ
fifo [] xs = ([], xs)
fifo (put p v ∷ calls) xs = fifo calls (xs ++ v ∷ [])
fifo (take ∷ calls) [] = (none ∷ (fifo calls []).0, (fifo calls []).1)
fifo (take ∷ calls) (x ∷ xs) = (some x ∷ (fifo calls xs).0, (fifo calls xs).1)

module _ (impl : QueueImpl) where
  unfoldable pub run_calls : List Call → impl.Queue → Option (List (Option ℕ) × impl.Queue)
  run_calls [] q = some ([], q)
  run_calls (put p v ∷ calls) q = do q' ← impl.enqueue p v q; run_calls calls q'
  run_calls (take ∷ calls) q = do
    (x, q') ← impl.dequeue q
    (xs, q'') ← run_calls calls q'
    some (x ∷ xs, q'')

  -- malloc returns usable addresses during the calls.
  abbrev pub IsServed : List Call → impl.Queue → Type 0
  IsServed [] q = Unit
  IsServed (put p v ∷ calls) q =
      impl.IsRoom p q × ((q' : impl.Queue) → impl.enqueue p v q ≡ some q' → IsServed calls q')
  IsServed (take ∷ calls) q =
      (x : Option ℕ) (q' : impl.Queue) → impl.dequeue q ≡ some (x, q') → IsServed calls q'

  -- While malloc serves the calls and fewer than 2^63 values can be in the queue, any sequence of calls
  -- returns, its results are those of a first-in first-out list, and the queue then holds what is left
  -- in the list.
  pub run_calls-fifo :
      (calls : List Call) (q : impl.Queue) (xs : List ℕ)
      → impl.Holds q xs
      → IsServed calls q
      → length xs + length calls < 2 ^ 63
      → (q' : impl.Queue) × (run_calls calls q ≡ some ((fifo calls xs).0, q'))
        × impl.Holds q' (fifo calls xs).1
  unfolding run_calls
  run_calls-fifo [] q xs h ok small = (q, refl, h)
  run_calls-fifo (put p v ∷ calls) q xs h ok small =
      let (q', came, h') = impl.enqueue-Holds q xs p v h ok.0 (omega (arith, small)) in
      let (q'', runs, h'') =
        run_calls-fifo calls q' (xs ++ v ∷ []) h' (ok.1 q' came)
          (omega (arith, small, length-append xs (v ∷ []))) in
      (q'', rw came runs, h'')
  run_calls-fifo (take ∷ calls) q [] h ok small =
      let (q', got, h') = impl.dequeue-empty q h in
      let (q'', runs, h'') =
        run_calls-fifo calls q' [] h' (ok none q' got) (omega (arith, small)) in
      (q'', rw (got, runs) refl, h'')
  run_calls-fifo (take ∷ calls) q (x ∷ xs) h ok small =
      let (q', got, h') = impl.dequeue-Holds q x xs h (omega (arith, small)) in
      let (q'', runs, h'') =
        run_calls-fifo calls q' xs h' (ok (some x) q' got) (omega (arith, small)) in
      (q'', rw (got, runs) refl, h'')

-- The results of a computation, without the state it leaves.
abbrev pub results : {A B : Type 0} → Option (A × B) → Option A
results none = none
results (some (a, b)) = some a
