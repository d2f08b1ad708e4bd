-- ===== src/LockQueue/Threads/Tests.antt =====
-- Two producers and the consumer on a queue whose dummy node stands at 16.
use coremu.Common.{◌∷◌, map, ℕ, ◌≡◌, refl, List, ◌++◌, arith, length}
use coremu.LockQueue.Threads.{
  World, make, lock, spin, link, start, next, value, move, free, dec, produce, consume, Reach,
  begin, later,
}
use coremu.Memory.{Ptr}
use coremu.Chain.{Cells, Chain}
use coremu.LockQueue.{node}
use coremu.LockQueue.Threads.Inv.{taken}
use coremu.LockQueue.Threads.Safety.{
  mutual_exclusion, received-prefix, IsSafe, Reach-IsSafe, Counted, Reach-Counted,
}

record Run : Type 0 where
  world : World
  reach : Reach 16 world

-- Producer 0 links the value 5 and is about to set the tail; producer 1 waits with 6.
abbrev linking : Run
linking = record {
  world = _;
  reach =
      later
        (later
          (later
            (later (later begin (produce 0 (make 32 5 (omega arith) refl)))
              (produce 1 (make 48 6 (omega arith) refl)))
            (produce 0 (lock refl)))
          (produce 1 (spin (omega arith))))
        (produce 0 (link _ refl));
}

-- The consumer takes the value meanwhile and frees the node that the tail still points at.
abbrev taking : Run
taking = record {
  world = _;
  reach =
      later
        (later
          (later
            (later
              (later (later linking.reach (consume start)) (consume (next _ refl (omega arith))))
              (consume (value _ refl)))
            (consume move))
          (consume (free _ refl)))
        (consume dec);
}

count_below_zero : taking.world.queue.count ≡ 18446744073709551615
count_below_zero = refl

mutual_exclusion_example : ◌≡◌ {A = ℕ} 0 0
mutual_exclusion_example = mutual_exclusion (omega arith) linking.reach 0 0 refl refl

received-prefix_example :
    let w = taking.world in
    (c : Ptr × ℕ) × (xs : Cells ℕ) × (w.queue.head ≡ c.0)
    × Chain node w.mem (c ∷ xs)
    × (w.sent ≡ w.received ++ (taken w.consumer ++ map (λ (b : Ptr × ℕ). b.1) xs))
received-prefix_example = received-prefix (omega arith) taking.reach

Reach-IsSafe_example : IsSafe linking.world
Reach-IsSafe_example = Reach-IsSafe (omega arith) linking.reach

Reach-Counted_example :
    (rest : List ℕ) × (taking.world.sent ≡ taking.world.received ++ rest)
    × Counted taking.world (length rest)
Reach-Counted_example = Reach-Counted (omega arith) taking.reach
