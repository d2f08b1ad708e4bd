-- ===== src/Kbd/Queue.antt =====
-- bios/seabios/src/kbd.c: what the callers of the keyboard services see is a queue of bounded length.
use coremu.Common.{
  ℕ, suc, ◌+◌, ◌<◌, ◌≡◌, ◌≢◌, refl, sym, ap, ap₂, ◌∙◌, subst, Bool, true, false, not, ◌&&◌, ◌||◌,
  Option, none, some, List, [], ◌∷◌, ◌++◌, length, ltb, ◌==◌, ==_iff, if◌then◌else◌, if_true,
  if_false, Bool-cases, inl, inr, arith,
}
use coremu.Kbd.{Bda, Bregs, next, enqueue_key, take_key, dequeue_key}
use coremu.Kbd.Ring.{
  IsValid, Key, window, count, contents, length-contents, stored-IsValid, taken-IsValid,
  contents-stored, contents-taken, full_iff, count-zero,
}

-- A call of a keyboard service: a key is typed (or stored by function 05h), read, or looked at.
pub data Call : Type 0 where
  store : ℕ → ℕ → Call
  read : Call
  look : Call

-- What it answers: whether there was room, and the key that was found.
pub data Answer : Type 0 where
  room : ℕ → Answer
  found : Option Key → Answer

-- How a stored key is shown to a caller that knows extended keys.
abbrev pub shown : Key → Key
shown (s, a) = (s, if (a == 0xf0 && not (s == 0)) || (a == 0xe0 && not true) then 0 else a)

abbrev pub no_regs : Bregs
no_regs = record { ah = 0; al = 0; bx = 0; ch = 0; cl = 0; zf = false }

-- The key of a register set that a service returned, unless the zero flag says that there was none.
abbrev key_of : Bregs → Option Key
key_of regs = if regs.zf then none else some (regs.ah, regs.al)

-- The services on the data area. A read of the empty buffer, which would wait, answers with no key.
abbrev answer_read : Bda → Option (Bregs × Bda) → Answer × Bda
answer_read bda none = (found none, bda)
answer_read bda (some (regs, bda')) = (found (key_of regs), bda')

unfoldable pub answer : Call → Bda → Answer × Bda
unfolding enqueue_key dequeue_key
answer (store s a) bda = let (ret, bda') = enqueue_key s a bda in (room ret, bda')
answer read bda = answer_read bda (dequeue_key [] true true no_regs bda)
answer look bda = answer_read bda (dequeue_key [] false true no_regs bda)

-- The specification: a queue of fewer than `cap` keys.
unfoldable pub spec : ℕ → Call → List Key → Answer × List Key
spec cap (store s a) ks =
    if ltb (suc (length ks)) cap then (room 1, ks ++ ((s, a) ∷ [])) else (room 0, ks)
spec cap read [] = (found none, [])
spec cap read (k ∷ ks) = (found (some (shown k)), ks)
spec cap look [] = (found none, [])
spec cap look (k ∷ ks) = (found (some (shown k)), k ∷ ks)

abbrev pub run : List Call → Bda → List Answer
run [] bda = []
run (c ∷ cs) bda = let (a, bda') = answer c bda in a ∷ run cs bda'

abbrev pub run_spec : ℕ → List Call → List Key → List Answer
run_spec cap [] ks = []
run_spec cap (c ∷ cs) ks = let (a, ks') = spec cap c ks in a ∷ run_spec cap cs ks'

-- One call: the same answer, and afterwards the buffer is valid and holds the queue of the
-- specification.
abbrev Agrees : ℕ → Call → Bda → Type 0
Agrees cap c bda =
    ((answer c bda).0 ≡ (spec cap c (contents bda)).0)
    × (contents (answer c bda).1 ≡ (spec cap c (contents bda)).1)
    × IsValid cap (answer c bda).1

agree :
    {cap : ℕ} (c : Call) (bda : Bda) {b' : Bda} {x : Answer}
    → answer c bda ≡ (x, b')
    → spec cap c (contents bda) ≡ (x, contents b')
    → IsValid cap b'
    → Agrees cap c bda
agree {cap} c bda e f v = (
  ap (λ (r : Answer × Bda). r.0) e ∙ sym (ap (λ (r : Answer × List Key). r.0) f),
  ap (λ (r : Answer × Bda). contents r.1) e ∙ sym (ap (λ (r : Answer × List Key). r.1) f),
  subst (λ (r : Answer × Bda). IsValid cap r.1) (sym e) v,
)

module _ {cap : ℕ} {bda : Bda} (v : IsValid cap bda) where
  open bda use {kbd_buf_head, kbd_buf_tail}

  store-Agrees : (s a : ℕ) → Agrees cap (store s a) bda
  unfolding answer spec enqueue_key
  store-Agrees s a = elim (Bool-cases (next kbd_buf_tail bda == kbd_buf_head)) [
    | inl b ↦
        agree (store s a) bda
          (ap (λ (r : ℕ × Bda). (room r.0, r.1))
            (if_true (next kbd_buf_tail bda == kbd_buf_head) _ _ b))
          (if_false (ltb (suc (length (contents bda))) cap) _ _ (short true b)) v
    | inr b ↦
        agree (store s a) bda
          (ap (λ (r : ℕ × Bda). (room r.0, r.1))
            (if_false (next kbd_buf_tail bda == kbd_buf_head) _ _ b))
          (if_true (ltb (suc (length (contents bda))) cap) _ _ (short false b)
            ∙ ap (λ ks. (room 1, ks)) (sym (contents-stored v s a (apart b))))
          (stored-IsValid v s a)
  ]
    where
      short :
          (b : Bool)
          → (next kbd_buf_tail bda == kbd_buf_head) ≡ b
          → ltb (suc (length (contents bda))) cap ≡ not b
      short b e = ground (arith, length-contents bda, full_iff v, e)

      apart : (next kbd_buf_tail bda == kbd_buf_head) ≡ false → next kbd_buf_tail bda ≢ kbd_buf_head
      apart b e = ground (arith, b, e)

  apart : (kbd_buf_head == kbd_buf_tail) ≡ false → kbd_buf_head ≢ kbd_buf_tail
  apart b e = ground (arith, b, e)

  dequeue-waits :
      (incr : Bool)
      → (kbd_buf_head == kbd_buf_tail) ≡ true
      → dequeue_key [] incr true no_regs bda
        ≡ (if incr then none else some (record no_regs { zf = true }, bda))
  unfolding dequeue_key
  dequeue-waits incr b = if_true (kbd_buf_head == kbd_buf_tail) _ _ b

  dequeue-takes :
      (incr : Bool)
      → (kbd_buf_head == kbd_buf_tail) ≡ false
      → dequeue_key [] incr true no_regs bda ≡ some (take_key incr true no_regs bda)
  unfolding dequeue_key
  dequeue-takes incr b = if_false (kbd_buf_head == kbd_buf_tail) _ _ b

  empty : kbd_buf_head ≡ kbd_buf_tail → contents bda ≡ []
  empty e = ap (window bda kbd_buf_head) (count-zero v e)

  read-Agrees : Agrees cap read bda
  unfolding answer spec dequeue_key take_key
  read-Agrees = elim (Bool-cases (kbd_buf_head == kbd_buf_tail)) [
    | inl b ↦
        let nothing = empty ((==_iff kbd_buf_head kbd_buf_tail).0 b) in
        agree read bda (ap (answer_read bda) (dequeue-waits true b))
          (ap (spec cap read) nothing ∙ ap (λ ks. (found none, ks)) (sym nothing)) v
    | inr b ↦
        agree read bda (ap (answer_read bda) (dequeue-takes true b))
          (ap (spec cap read) (contents-taken v (apart b))) (taken-IsValid v)
  ]

  look-Agrees : Agrees cap look bda
  unfolding answer spec dequeue_key take_key
  look-Agrees = elim (Bool-cases (kbd_buf_head == kbd_buf_tail)) [
    | inl b ↦
        let nothing = empty ((==_iff kbd_buf_head kbd_buf_tail).0 b) in
        agree look bda (ap (answer_read bda) (dequeue-waits false b))
          (ap (spec cap look) nothing ∙ ap (λ ks. (found none, ks)) (sym nothing)) v
    | inr b ↦
        let one = contents-taken v (apart b) in
        agree look bda (ap (answer_read bda) (dequeue-takes false b))
          (ap (spec cap look) one
            ∙ ap
                (λ ks.
                  (found (some (shown (bda.bytes (kbd_buf_head + 1), bda.bytes kbd_buf_head))), ks))
                (sym one))
          v
  ]

pub answer-Agrees : {cap : ℕ} (c : Call) {bda : Bda} → IsValid cap bda → Agrees cap c bda
answer-Agrees (store s a) v = store-Agrees v s a
answer-Agrees read v = read-Agrees v
answer-Agrees look v = look-Agrees v

-- On a buffer that has room for `cap` keys and stands at whole keys, any sequence of stores, reads and
-- looks is answered as by a queue of the stored keys, first in first out, that takes a key as long as
-- fewer than `cap - 1` are in it: no key is lost, invented or overwritten, and a full buffer refuses.
pub run_refines :
    {cap : ℕ} (cs : List Call) {bda : Bda}
    → IsValid cap bda
    → run cs bda ≡ run_spec cap cs (contents bda)
run_refines [] v = refl
run_refines {cap} (c ∷ cs) {bda} v =
    let (same, kept, v') = answer-Agrees c v in
    ap₂ ◌∷◌ same (run_refines cs v' ∙ ap (run_spec cap cs) kept)

-- As long as there is room, a key is stored behind the others.
pub enqueue-appends :
    {cap : ℕ} {bda : Bda}
    → IsValid cap bda
    → (s a : ℕ) → suc (count bda) < cap
    → contents (enqueue_key s a bda).1 ≡ contents bda ++ ((s, a) ∷ [])
unfolding answer spec
enqueue-appends {cap} {bda} v s a free =
    (store-Agrees v s a).1
    ∙ ap (λ (r : Answer × List Key). r.1)
        (if_true (ltb (suc (length (contents bda))) cap) _ _
          (ground (arith, free, length-contents bda)))
