-- ===== src/Atomic/Tests.antt =====
-- incl/atomic-template.h: the theorems at words of eight bits.
use coremu.Common.{◌≡◌, refl}
use coremu.Atomic.{
  bit_testandset, bit_testandreset, atomic_compare_exchange16b, atomic_exchange,
  atomic_compare_exchange,
}

swap_test :
    (atomic_exchange 3 5 ≡ (3, 5))
    × (atomic_compare_exchange 3 3 5 ≡ (3, 5))
    × (atomic_compare_exchange 4 3 5 ≡ (4, 4))
unfolding atomic_exchange atomic_compare_exchange
swap_test = (refl, refl, refl)

bits_test :
    (bit_testandset 5 1 ≡ (0, 7))
    × (bit_testandset 5 2 ≡ (1, 5))
    × (bit_testandreset 7 1 ≡ (1, 5))
    × (atomic_compare_exchange16b (3, 4) 3 4 5 6 ≡ (1, (5, 6)))
    × (atomic_compare_exchange16b (3, 4) 3 5 5 6 ≡ (0, (3, 4)))
unfolding bit_testandset bit_testandreset atomic_compare_exchange16b
bits_test = (refl, refl, refl, refl, refl)
