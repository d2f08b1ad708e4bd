-- ===== src/Checksum.antt =====
-- bios/seabios/src/util.c: the sum of the bytes of a buffer.
use coremu.Common.{ℕ, ◌+◌, ◌-◌, ◌%◌, ◌<◌, ◌≡◌, List, [], ◌∷◌, ◌++◌, arith}

-- The loop of `checksum_far`, from a sum of bytes on.
abbrev pub sum_bytes : ℕ → List ℕ → ℕ
sum_bytes sum [] = sum
sum_bytes sum (b ∷ bs) = sum_bytes ((sum + b) % 256) bs

unfoldable pub checksum_of : List ℕ → ℕ
checksum_of buf = sum_bytes 0 buf

unfoldable pub total : List ℕ → ℕ
total [] = 0
total (b ∷ bs) = b + total bs

pub sum_bytes-total : (s : ℕ) (bs : List ℕ) → s < 256 → sum_bytes s bs ≡ (s + total bs) % 256
unfolding total
sum_bytes-total s [] h = omega (arith, h)
sum_bytes-total s (b ∷ bs) h = omega (arith, sum_bytes-total ((s + b) % 256) bs (omega arith))

-- A byte that is reduced by the sum makes the sum 0.
pub balanced : (c rest : ℕ) → (rest + (c + (256 - (rest + c) % 256)) % 256) % 256 ≡ 0
balanced c rest = omega arith

pub total-append : (bs cs : List ℕ) → total (bs ++ cs) ≡ total bs + total cs
unfolding total
total-append [] cs = omega arith
total-append (b ∷ bs) cs = omega (arith, total-append bs cs)

-- Bytes with what their sum lacks behind them.
pub checksum-closes : (bs : List ℕ) → checksum_of (bs ++ ((256 - checksum_of bs) % 256 ∷ [])) ≡ 0
unfolding checksum_of total
checksum-closes bs =
    let lacks = (256 - checksum_of bs) % 256 in
    omega (
      arith,
      sum_bytes-total 0 bs (omega arith),
      sum_bytes-total 0 (bs ++ (lacks ∷ [])) (omega arith),
      total-append bs (lacks ∷ []),
      balanced 0 (total bs),
    )
