-- ===== src/MsQueue/Untagged.antt =====
-- main/ms-queue.c: the nodes without their tags, as a chain, and the shape of a queue that no thread
-- is changing.
use coremu.Common.{
  ℕ, ◌%◌, ◌≡◌, refl, ap, ◌∙◌, true, false, ◌∷◌, Option, none, some, Bool, fun_ext, some_inj,
  if◌then◌else◌, ◌==◌, length, All,
}
use coremu.Memory.{Ptr, Mem, Store, write, Points}
use coremu.Chain.{Cells, last, Chain}
use coremu.LockQueue
use coremu.LockQueue.{incq, decq}
use coremu.MsQueue.{tagged, Node, node, Queue}

-- A node without its tag, and memory seen so.
abbrev pub untagged : Option Node → Option LockQueue.Node
untagged none = none
untagged (some n) = some (LockQueue.node n.next.ptr n.value)

abbrev pub untag : Mem Node → Mem LockQueue.Node
untag m a = untagged (m a)

abbrev pub IsAligned : Cells ℕ → Type 0
IsAligned xs = All (λ (c : Ptr × ℕ). c.0 % 16 ≡ 0) xs

-- The queue holds `xs` behind the dummy node `d`, at aligned addresses.
pub record IsQueue (s : Store Node Queue) (d : Ptr × ℕ) (xs : Cells ℕ) : Type 0 where
  pub chain : Chain LockQueue.node (untag s.mem) (d ∷ xs)
  pub head : s.glob.head.ptr ≡ d.0
  pub tail : s.glob.tail.ptr ≡ (last d xs).0
  pub count : s.glob.count ≡ length xs
  pub aligned : IsAligned (d ∷ xs)

pub untag-write :
    (m : Mem Node) (p : Ptr) (c : Option Node)
    → untag (write m p c) ≡ write (untag m) p (untagged c)
untag-write m p c = fun_ext λ a. here a (a == p)
  where
    here :
        (a : Ptr) (b : Bool)
        → untagged (if b then c else m a) ≡ (if b then untagged c else untag m a)
    here a true = refl
    here a false = refl

-- A node behind its untagged form.
pub Points-untag :
    {m : Mem Node} {p q : Ptr} {v : ℕ}
    → Points (untag m) p (LockQueue.node q v)
    → (k : ℕ) × Points m p (node (tagged q k) v)
Points-untag {m} {p} {q} {v} at = found (m p) refl at.holds
  where
    pair : {a b : Ptr} {c d : ℕ} → a ≡ b → c ≡ d → ◌≡◌ {A = Ptr × ℕ} (a, c) (b, d)
    pair e f = cc

    tag_back : (n : Node) → n.next.ptr ≡ q → n.value ≡ v → n ≡ node (tagged q n.next.count) v
    tag_back n e f = ap (λ (c : Ptr × ℕ). node (tagged c.0 n.next.count) c.1) (pair e f)

    found :
        (c : Option Node)
        → m p ≡ c
        → untagged c ≡ some (LockQueue.node q v)
        → (k : ℕ) × Points m p (node (tagged q k) v)
    found none e h = cc
    found (some n) e h = (
      n.next.count,
      record {
        ne_null = at.ne_null;
        holds =
            e
            ∙ ap some (
                tag_back n (ap (λ (l : LockQueue.Node). l.next) (some_inj h))
                  (ap (λ (l : LockQueue.Node). l.value) (some_inj h)));
      },
    )
