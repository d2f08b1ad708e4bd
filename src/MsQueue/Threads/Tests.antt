-- ===== src/MsQueue/Threads/Tests.antt =====
-- Two producers and the consumer on a lock-free queue whose dummy node stands at 16.
use coremu.Common.{ℕ, ◌≡◌, refl, true, false, some, inl, inr, [], ◌∷◌, ◌++◌, arith}
use coremu.Memory.{Ptr}
use coremu.Chain.{Cells}
use coremu.MsQueue.{tagged, node}
use coremu.MsQueue.Threads
use coremu.MsQueue.Threads.{
  Producer, Consumer, World, Quiet, reclaim, produce, consume, Reach, begin, later,
}
use coremu.MsQueue.Threads.Inv.{taken, values}
use coremu.MsQueue.Threads.Safety.{
  Linked, IsSafe, ms_received-prefix, ms_Reach-IsSafe, ms_null-empty,
}

record Run : Type 0 where
  world : World
  reach : Reach false 16 world

-- Producer 1 has read the tail, and producer 0 links the value 5.
abbrev linking : Run
linking = record {
  world = _;
  reach =
      later
        (later
          (later
            (later
              (later
                (later (later begin (produce 1 (Threads.Produce.make 48 6 0 (omega arith) refl)))
                  (produce 1 Threads.Produce.read_tail))
                (produce 0 (Threads.Produce.make 32 5 0 (omega arith) refl)))
              (produce 0 Threads.Produce.read_tail))
            (produce 0 (Threads.Produce.read_next _ refl)))
          (produce 0 (Threads.Produce.agree refl)))
        (produce 0 (Threads.Produce.link _ refl refl refl));
}

-- The consumer finds the tail behind, helps, and tries again.
abbrev helping : Run
helping = record {
  world = _;
  reach =
      later
        (later
          (later
            (later (later linking.reach (consume Threads.Consume.start))
              (consume Threads.Consume.read_tail))
            (consume (Threads.Consume.read_next _ refl)))
          (consume (Threads.Consume.agree refl)))
        (consume (Threads.Consume.help refl (omega arith)));
}

-- It takes the value and frees the node whose address producer 1 still holds.
abbrev taking : Run
taking = record {
  world = _;
  reach =
      later
        (later
          (later
            (later
              (later
                (later (later helping.reach (consume Threads.Consume.start))
                  (consume Threads.Consume.read_tail))
                (consume (Threads.Consume.read_next _ refl)))
              (consume (Threads.Consume.agree refl)))
            (consume (Threads.Consume.value _ (omega arith) refl)))
          (consume (Threads.Consume.move refl)))
        (consume Threads.Consume.free);
}

abbrev finding_out : Run
finding_out = record {
  world = _;
  reach =
      later
        (later (later taking.reach (consume Threads.Consume.dec)) (consume Threads.Consume.start))
        (consume Threads.Consume.read_tail);
}

-- The next access of producer 1 is to a block that was freed.
late_reader :
    (taking.world.producers 1 ≡ Producer.got_tail 48 6 (tagged 16 0))
    × (taking.world.shared.gone 16 ≡ true)
late_reader = (refl, refl)

-- A value is sent and received, and the block of the old dummy node goes back to the allocator.
abbrev received_one : Run
received_one = record {
  world = _;
  reach =
      later
        (later
          (later
            (later
              (later
                (later
                  (later
                    (later
                      (later
                        (later
                          (later
                            (later
                              (later
                                (later
                                  (later begin
                                    (produce 0 (Threads.Produce.make 32 5 0 (omega arith) refl)))
                                  (produce 0 Threads.Produce.read_tail))
                                (produce 0 (Threads.Produce.read_next _ refl)))
                              (produce 0 (Threads.Produce.agree refl)))
                            (produce 0 (Threads.Produce.link _ refl refl refl)))
                          (produce 0 Threads.Produce.swing))
                        (produce 0 Threads.Produce.inc))
                      (consume Threads.Consume.start))
                    (consume Threads.Consume.read_tail))
                  (consume (Threads.Consume.read_next _ refl)))
                (consume (Threads.Consume.agree refl)))
              (consume (Threads.Consume.value _ (omega arith) refl)))
            (consume (Threads.Consume.move refl)))
          (consume Threads.Consume.free))
        (consume Threads.Consume.dec);
}

received_one-Quiet : Quiet received_one.world
received_one-Quiet = record { producers_quiet = λ i. ground arith; consumer_quiet = refl }

-- A second producer is given that block.
abbrev used_again : Run
used_again = record {
  world = _;
  reach =
      later (later received_one.reach (reclaim (inr received_one-Quiet)))
        (produce 1 (Threads.Produce.make 16 7 0 (omega arith) refl));
}

ms_received-prefix_example :
    let w = used_again.world in
    (c : Ptr × ℕ) × (xs : Cells ℕ) × (w.shared.queue.head.ptr ≡ c.0)
    × Linked w.shared.mem (c ∷ xs)
    × (w.sent ≡ w.received ++ (taken w.consumer ++ values xs))
ms_received-prefix_example = ms_received-prefix (omega arith) used_again.reach

ms_Reach-IsSafe_example : IsSafe taking.world
ms_Reach-IsSafe_example = ms_Reach-IsSafe (omega arith) taking.reach

ms_null-empty_example : finding_out.world.sent ≡ finding_out.world.received
ms_null-empty_example =
    ms_null-empty (tagged 32 1) (tagged 32 1) _ (omega arith) finding_out.reach refl refl refl

record Reused : Type 0 where
  world : World
  reach : Reach true 16 world

-- Producer 1 is about to link the value 6 behind the node at 16, when producer 0 links 5 there.
abbrev overtaken : Reused
overtaken = record {
  world = _;
  reach =
      later
        (later
          (later
            (later
              (later
                (later
                  (later
                    (later
                      (later
                        (later begin (produce 1 (Threads.Produce.make 48 6 0 (omega arith) refl)))
                        (produce 1 Threads.Produce.read_tail))
                      (produce 1 (Threads.Produce.read_next _ refl)))
                    (produce 1 (Threads.Produce.agree refl)))
                  (produce 0 (Threads.Produce.make 32 5 0 (omega arith) refl)))
                (produce 0 Threads.Produce.read_tail))
              (produce 0 (Threads.Produce.read_next _ refl)))
            (produce 0 (Threads.Produce.agree refl)))
          (produce 0 (Threads.Produce.link _ refl refl refl)))
        (produce 0 Threads.Produce.swing);
}

-- The consumer takes 5 and frees the node at 16, and producer 2 is given its block.
abbrev reusing : Reused
reusing = record {
  world = _;
  reach =
      later
        (later
          (later
            (later
              (later
                (later
                  (later
                    (later
                      (later (later overtaken.reach (consume Threads.Consume.start))
                        (consume Threads.Consume.read_tail))
                      (consume (Threads.Consume.read_next _ refl)))
                    (consume (Threads.Consume.agree refl)))
                  (consume (Threads.Consume.value _ (omega arith) refl)))
                (consume (Threads.Consume.move refl)))
              (consume Threads.Consume.free))
            (consume Threads.Consume.dec))
          (reclaim (inl refl)))
        (produce 2 (Threads.Produce.make 16 7 0 (omega arith) refl));
}

-- Producer 1 links 6 behind it.
abbrev stray : Reused
stray = record {
  world = _;
  reach = later reusing.reach (produce 1 (Threads.Produce.link _ refl refl refl));
}

-- The value 6 is linked and not returned, and nothing stands behind the head of the queue.
stray_value :
    (stray.world.sent ≡ 5 ∷ 6 ∷ [])
    × (stray.world.received ≡ 5 ∷ [])
    × (stray.world.shared.queue.head.ptr ≡ 32)
    × (stray.world.shared.mem 32 ≡ some (node (tagged 0 0) 5))
stray_value = (refl, refl, refl, refl)
