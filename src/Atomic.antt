-- ===== src/Atomic.antt =====
-- incl/atomic-template.h and incl/coremu-atomic.h: the atomic operations, each one step on a word of
-- `w` bits: what it returns and what it leaves in memory.
pub mod Sums
mod Tests
use coremu.Common.{◌/◌, ◌&&◌, ℕ, ◌+◌, ◌-◌, ◌%◌, ◌^◌, ◌==◌, if◌then◌else◌}

module _ (w : ℕ) where
  unfoldable pub atomic_inc : ℕ → ℕ
  atomic_inc p = (p + 1) % 2 ^ w

  unfoldable pub atomic_dec : ℕ → ℕ
  atomic_dec p = (p + 2 ^ w - 1) % 2 ^ w

  unfoldable pub atomic_add : ℕ → ℕ → ℕ
  atomic_add addr val = (addr + val) % 2 ^ w

  unfoldable pub atomic_xadd : ℕ → ℕ → ℕ × ℕ
  atomic_xadd addr val = (addr, (addr + val) % 2 ^ w)

unfoldable pub atomic_exchange : ℕ → ℕ → ℕ × ℕ
atomic_exchange p val = (p, val)

unfoldable pub atomic_compare_exchange : ℕ → ℕ → ℕ → ℕ × ℕ
atomic_compare_exchange addr oldval newval = (addr, if addr == oldval then newval else addr)

-- `atomic_compare_exchange16b` on the two words of a pointer with its tag: the flag and what is left.
unfoldable pub atomic_compare_exchange16b : ℕ × ℕ → ℕ → ℕ → ℕ → ℕ → ℕ × (ℕ × ℕ)
atomic_compare_exchange16b (lo, hi) rax rdx rbx rcx =
    if lo == rax && hi == rdx then (1, (rbx, rcx)) else (0, (lo, hi))

-- `bit_testandset` and `bit_testandreset` on the bit `off` of the word itself, which is less than 32.
unfoldable pub bit_testandset : ℕ → ℕ → ℕ × ℕ
bit_testandset base off = if base / 2 ^ off % 2 == 0 then (0, base + 2 ^ off) else (1, base)

unfoldable pub bit_testandreset : ℕ → ℕ → ℕ × ℕ
bit_testandreset base off = if base / 2 ^ off % 2 == 0 then (0, base) else (1, base - 2 ^ off)
