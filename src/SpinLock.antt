-- ===== src/SpinLock.antt =====
-- incl/coremu-spinlock.h: the test-and-set lock, over a lock word kept where `get_lock` and
-- `set_lock` say.
use coremu.Common.{ℕ, zero, suc, ◌==◌, if◌then◌else◌}
use coremu.Memory.{Cmd, ok, spinning, pure, ◌>>=◌}

-- `lock; cmpxchgl %2, %0` with 0 expected and 1 to store: the new lock word, and what EAX holds.
unfoldable pub testandset : ℕ → ℕ × ℕ
testandset lock = if lock == 0 then (1, 0) else (lock, lock)

module _ {C R : Type 0} (get_lock : R → ℕ) (set_lock : ℕ → R → R) where
  testandset_cmd : Cmd C R ℕ
  unfolding testandset
  testandset_cmd s =
      let (lock, readval) = testandset (get_lock s.glob) in
      ok readval (record s { glob = set_lock lock s.glob })

  -- `while (__testandset(lock));` with fuel.
  unfoldable pub coremu_spin_lock : ℕ → Cmd C R (Unit {0})
  unfolding testandset_cmd
  coremu_spin_lock zero s = spinning
  coremu_spin_lock (suc fuel) s =
      (do readval ← testandset_cmd; if readval == 0 then pure tt else coremu_spin_lock fuel) s

  abbrev pub coremu_spin_unlock : Cmd C R (Unit {0})
  coremu_spin_unlock s = ok tt (record s { glob = set_lock 0 s.glob })
