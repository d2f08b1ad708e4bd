-- ===== src/Tools/Processors.antt =====
-- utils/monitor.c: counting the processors in /proc/stat.
use coremu.Common.{
  ℕ, zero, suc, ◌+◌, ◌≡◌, refl, ap, ◌∙◌, true, false, none, some, List, [], ◌∷◌, ◌++◌, arith,
  length, All, if_true, if_false,
}
use coremu.Common.Int.{pos, ◌-ℤ◌}
use coremu.Tools.{is_cpu, count_loop, count_processor}

count_loop-counts :
    (cpus : List (List ℕ)) (other : List ℕ) (lines : List (List ℕ)) (fuel procs : ℕ)
    (buffer : List ℕ)
    → All (λ line. is_cpu line ≡ true) cpus
    → is_cpu other ≡ false
    → count_loop (length cpus + suc fuel) procs buffer (cpus ++ other ∷ lines)
      ≡ some (procs + length cpus)
unfolding count_loop
count_loop-counts [] other lines fuel procs buffer all not =
    ap (λ k. count_loop k procs buffer (other ∷ lines)) (zero_plus (suc fuel))
    ∙ (if_false (is_cpu other) _ (some procs) not ∙ ap some (plus_zero procs))
  where
    zero_plus : (k : ℕ) → 0 + k ≡ k
    zero_plus k = omega arith

    plus_zero : (k : ℕ) → k ≡ k + 0
    plus_zero k = omega arith
count_loop-counts (cpu ∷ cpus) other lines fuel procs buffer all not =
    ap (λ k. count_loop k procs buffer (cpu ∷ (cpus ++ other ∷ lines)))
      (carry (length cpus) (suc fuel))
    ∙ (if_true (is_cpu cpu) _ (some procs) all.0
        ∙ (count_loop-counts cpus other lines fuel (suc procs) cpu all.1 not
            ∙ ap some (over procs (length cpus))))
  where
    carry : (a b : ℕ) → suc a + b ≡ suc (a + b)
    carry a b = omega arith

    over : (a b : ℕ) → suc a + b ≡ a + suc b
    over a b = omega arith

-- When /proc/stat starts with lines of processors and then has another line, `count_processor` returns
-- after as many rounds as these are, with one less than the processor lines, since the first is the sum
-- of the others.
pub count_processor-counts :
    (cpus : List (List ℕ)) (other : List ℕ) (lines : List (List ℕ)) (fuel : ℕ) (junk : List ℕ)
    → All (λ line. is_cpu line ≡ true) cpus
    → is_cpu other ≡ false
    → count_processor (length cpus + suc fuel) junk (cpus ++ other ∷ lines)
      ≡ some (pos (length cpus) -ℤ pos 1)
unfolding count_processor
count_processor-counts cpus other lines fuel junk all not =
    rw (count_loop-counts cpus other lines fuel 0 junk all not, zero_plus (length cpus)) refl
  where
    zero_plus : (k : ℕ) → 0 + k ≡ k
    zero_plus k = omega arith

count_loop-hangs :
    (fuel procs : ℕ) (buffer : List ℕ) (lines : List (List ℕ))
    → is_cpu buffer ≡ true
    → All (λ line. is_cpu line ≡ true) lines
    → count_loop fuel procs buffer lines ≡ none
unfolding count_loop
count_loop-hangs zero procs buffer lines b all = refl
count_loop-hangs (suc fuel) procs buffer [] b all =
    if_true (is_cpu buffer) _ (some procs) b ∙ count_loop-hangs fuel (suc procs) buffer [] b all
count_loop-hangs (suc fuel) procs buffer (line ∷ lines) b all =
    if_true (is_cpu line) _ (some procs) all.0
    ∙ count_loop-hangs fuel (suc procs) line lines all.0 all.1

-- When every line is one of a processor, `count_processor` never returns: at the end of the file the
-- buffer keeps the last line.
count_processor-hangs :
    (fuel : ℕ) (junk line : List ℕ) (lines : List (List ℕ))
    → is_cpu line ≡ true
    → All (λ l. is_cpu l ≡ true) lines
    → count_processor fuel junk (line ∷ lines) ≡ none
unfolding count_processor count_loop
count_processor-hangs fuel junk line lines first all = rw (hangs fuel) refl
  where
    hangs : (k : ℕ) → count_loop k 0 junk (line ∷ lines) ≡ none
    hangs zero = refl
    hangs (suc k) =
        if_true (is_cpu line) _ (some 0) first ∙ count_loop-hangs k 1 line lines first all
