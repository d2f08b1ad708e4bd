-- ===== src/Lifecycle/Threads.antt =====
-- main/core.c: the threads that `coremu_run_all_cores` creates, and how they find their cores.
use coremu.Common.{
  ℕ, zero, suc, ◌+◌, ◌<◌, ◌≤◌, ◌≡◌, refl, ap, ◌∙◌, subst, Option, some, List, [], ◌∷◌, ◌==◌, arith,
  length, get_elem?, some_inj, ℕ_discrete, if_false, ==_ne,
}
use coremu.Types.{Effect, create}
use coremu.Queue.{QueueImpl}
use coremu.System.{Cpu, find_thread}
use coremu.Lifecycle.{create_all}

module _ (impl : QueueImpl) (W : Type 0) where
  abbrev pub threaded : (ℕ → ℕ) → ℕ → List (Cpu impl W) → List (Cpu impl W)
  threaded t i [] = []
  threaded t i (core ∷ cores) = record core { thread = t i } ∷ threaded t (suc i) cores

  pub create_all-runs :
      (created : ℕ → Option ℕ) (t : ℕ → ℕ) (i : ℕ) (cores : List (Cpu impl W)) (es : List Effect)
      → ((j : ℕ) → i ≤ j → j < i + length cores → created j ≡ some (t j))
      → (es' : List Effect) × (create_all impl W created i cores es
          ≡ some (threaded t i cores, es'))
  unfolding create_all
  create_all-runs created t i [] es ok = (es, refl)
  create_all-runs created t i (core ∷ cores) es ok =
      let (es', runs) =
        create_all-runs created t (suc i) cores (create (t i) core.opaque ∷ es)
          (λ j le lt. ok j (omega (arith, le)) (omega (arith, lt))) in
      (es', rw (ok i (omega arith) (omega arith), runs) refl)

  length-threaded :
      (t : ℕ → ℕ) (i : ℕ) (cores : List (Cpu impl W)) → length (threaded t i cores) ≡ length cores
  length-threaded t i [] = refl
  length-threaded t i (core ∷ cores) = ap suc (length-threaded t (suc i) cores)

  pub get_elem?-threaded :
      (t : ℕ → ℕ) (i j : ℕ) (cores : List (Cpu impl W)) {core : Cpu impl W}
      → get_elem? cores j ≡ some core
      → get_elem? (threaded t i cores) j ≡ some (record core { thread = t (i + j) })
  get_elem?-threaded t i j [] at = cc
  get_elem?-threaded t i zero (c ∷ cores) {core} at =
      subst (λ k. some (record c { thread = t i }) ≡ some (record core { thread = t k }))
        (omega arith) (ap (λ (d : Cpu impl W). some (record d { thread = t i })) (some_inj at))
  get_elem?-threaded t i (suc j) (c ∷ cores) {core} at =
      subst (λ k. get_elem? (threaded t (suc i) cores) j ≡ some (record core { thread = t k }))
        (shifted i j) (get_elem?-threaded t (suc i) j cores at)
    where
      shifted : (a b : ℕ) → suc a + b ≡ a + suc b
      shifted a b = omega arith

  pub find_thread-threaded :
      (t : ℕ → ℕ) (i j : ℕ) (cores : List (Cpu impl W))
      → ((a b : ℕ) → a < i + length cores → b < i + length cores → t a ≡ t b → a ≡ b)
      → i ≤ j
      → j < i + length cores
      → find_thread impl W (t j) i (threaded t i cores) ≡ some j
  unfolding find_thread
  find_thread-threaded t i j [] inj le lt = absurd (omega (arith, le, lt))
  find_thread-threaded t i j (c ∷ cores) inj le lt = elim (ℕ_discrete i j) [
    | yes e ↦ ground (arith, ap t e, e)
    | no ne ↦
        if_false (t i == t j) (some i) (find_thread impl W (t j) (suc i) (threaded t (suc i) cores))
          (==_ne (t i) (t j) (λ same. ne (inj i j (omega arith) lt same)))
        ∙ find_thread-threaded t (suc i) j cores
            (λ a b la lb. inj a b (omega (arith, la)) (omega (arith, lb))) (omega (arith, le, ne))
            (omega (arith, lt))
  ]
