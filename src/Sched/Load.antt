-- ===== src/Sched/Load.antt =====
-- main/sched.c: threads for each processor of the host.
use coremu.Common.{
  ℕ, ◌+◌, ◌-◌, ◌*◌, ◌/◌, ◌%◌, ◌<◌, ◌≤◌, ◌≡◌, ◌↔◌, refl, sym, ◌∙◌, Bool-cases, inl, inr, ==_iff,
  true, false, some, arith, ◌==◌, dec_lt, leb→le, le→leb, if◌then◌else◌,
}
use native.Mathlib.Nat.{div-add-mod, mod-lt, mod-add-mod, mod-eq_of_lt, mod_self}
use coremu.Sched.{coremu_get_thrs_per_core, coremu_physical_core_enough_p, topology_bind_core}

ceil_bounds : (h c t r : ℕ) → r < h → h * t + r ≡ h + c - 1 → (c ≤ t * h) × (t * h < c + h)
ceil_bounds h c t r p e = (omega arith, omega arith)

mul_cancel : (t u h : ℕ) → t * h < u * h + h → t ≤ u
mul_cancel t u h p = elim (dec_lt u t) [
  | yes q ↦ absurd (omega (arith, product u t h q))
  | no q ↦ omega arith
]
  where
    product : (a b c : ℕ) → a < b → a * c + c ≤ b * c
    product a b c l = grind arith

mul_le_one : (t h c : ℕ) → t ≤ 1 → c ≤ t * h → c ≤ h
mul_le_one t h c p q = grind arith

-- On a host with a processor, `coremu_get_thrs_per_core` returns the least number of threads for
-- each processor that places all cores, and that is at most 1 exactly when
-- `coremu_physical_core_enough_p` says that the processors are enough.
pub thrs_per_core-least :
    (host cpus : ℕ)
    → 0 < host
    → (t : ℕ) × (coremu_get_thrs_per_core host cpus ≡ some t)
      × (cpus ≤ t * host)
      × ((u : ℕ) → cpus ≤ u * host → t ≤ u)
      × ((coremu_physical_core_enough_p host cpus ≡ true) ↔ (t ≤ 1))
unfolding coremu_get_thrs_per_core coremu_physical_core_enough_p
thrs_per_core-least host cpus p = (
  t,
  rw nonzero refl,
  bounds.0,
  least,
  (
    λ e. least 1 (omega (arith, leb→le cpus host e)),
    λ q. le→leb cpus host (mul_le_one t host cpus q bounds.0),
  ),
)
  where
    t : ℕ
    t = (host + cpus - 1) / host

    nonzero : (host == 0) ≡ false
    nonzero = ground arith

    bounds : (cpus ≤ t * host) × (t * host < cpus + host)
    bounds =
        ceil_bounds host cpus t ((host + cpus - 1) % host) (mod-lt _ p)
          (div-add-mod (host + cpus - 1) host)

    least : (u : ℕ) → cpus ≤ u * host → t ≤ u
    least u q = mul_cancel t u host (omega (arith, bounds.1))

wrap_next : (r m : ℕ) → r < m → (r + 1) % m ≡ (if r + 1 == m then 0 else r + 1)
wrap_next r m p = elim (Bool-cases (r + 1 == m)) [
  | inl e ↦ rw (e, (==_iff (r + 1) m).0 e) (mod_self m)
  | inr ne ↦ rw ne (mod-eq_of_lt ground arith)
]

mod_next : (n m : ℕ) → 0 < m → (n + 1) % m ≡ (if n % m + 1 == m then 0 else n % m + 1)
mod_next n m p = sym (mod-add-mod n m 1) ∙ wrap_next (n % m) m (mod-lt n p)

-- Binding a core to a processor that exists, with cores that follow one another on processors that
-- do, round the host: the index is in range, and the next core's is the next or the first.
pub topology_bind_core-round :
    (cores serial : ℕ)
    → 0 < cores
    → (i j : ℕ) × (topology_bind_core cores serial ≡ some i)
      × (topology_bind_core cores (serial + 1) ≡ some j)
      × (i < cores)
      × (j ≡ (if i + 1 == cores then 0 else i + 1))
unfolding topology_bind_core
topology_bind_core-round cores serial p = (
  serial % cores,
  (serial + 1) % cores,
  rw nonzero refl,
  rw nonzero refl,
  mod-lt serial p,
  mod_next serial cores p,
)
  where
    nonzero : (cores == 0) ≡ false
    nonzero = ground arith
