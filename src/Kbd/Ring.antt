-- ===== src/Kbd/Ring.antt =====
-- bios/seabios/src/kbd.c: the keyboard buffer holds a queue of keys.
use coremu.Common.{
  ℕ, zero, suc, ◌+◌, ◌-◌, ◌*◌, ◌/◌, ◌%◌, ◌^◌, ◌≤◌, ◌<◌, ◌≡◌, ◌≢◌, refl, sym, ap, ap₂, ◌∙◌, not,
  List, [], ◌∷◌, ◌++◌, length, ltb, leb, ◌==◌, if◌then◌else◌, arith, ◌⊎◌,
}
use coremu.Kbd.{Bda, next, set_byte}

-- The buffer has room for `cap` pairs of bytes, and head and tail stand at pairs.
pub record IsValid (cap : ℕ) (bda : Bda) : Type 0 where
  pub size : bda.kbd_buf_end_offset ≡ bda.kbd_buf_start_offset + 2 * cap
  pub small : bda.kbd_buf_end_offset < 2 ^ 16
  pub head_low : bda.kbd_buf_start_offset ≤ bda.kbd_buf_head
  pub head_high : bda.kbd_buf_head < bda.kbd_buf_end_offset
  pub tail_low : bda.kbd_buf_start_offset ≤ bda.kbd_buf_tail
  pub tail_high : bda.kbd_buf_tail < bda.kbd_buf_end_offset
  pub head_even : (bda.kbd_buf_head - bda.kbd_buf_start_offset) % 2 ≡ 0
  pub tail_even : (bda.kbd_buf_tail - bda.kbd_buf_start_offset) % 2 ≡ 0

-- A scan code and an ASCII code.
abbrev pub Key : Type 0
Key = ℕ × ℕ

-- The `n` keys from position `p` on.
abbrev pub window : Bda → ℕ → ℕ → List Key
window bda p zero = []
window bda p (suc n) = (bda.bytes (p + 1), bda.bytes p) ∷ window bda (next p bda) n

abbrev pub count : Bda → ℕ
count bda =
    if leb bda.kbd_buf_head bda.kbd_buf_tail
    then (bda.kbd_buf_tail - bda.kbd_buf_head) / 2
    else (bda.kbd_buf_tail + (bda.kbd_buf_end_offset - bda.kbd_buf_start_offset) - bda.kbd_buf_head)
      / 2

abbrev pub contents : Bda → List Key
contents bda = window bda bda.kbd_buf_head (count bda)

length-window : (bda : Bda) (p n : ℕ) → length (window bda p n) ≡ n
length-window bda p zero = refl
length-window bda p (suc n) = ap suc (length-window bda (next p bda) n)

-- The next position is a pair of the buffer again, two further or back at the start.
next_lem :
    {cap : ℕ} {bda : Bda} (p : ℕ)
    → IsValid cap bda
    → bda.kbd_buf_start_offset ≤ p
    → p < bda.kbd_buf_end_offset
    → (p - bda.kbd_buf_start_offset) % 2 ≡ 0
    → next p bda ≡ (if p + 2 == bda.kbd_buf_end_offset then bda.kbd_buf_start_offset else p + 2)
next_lem p v l h e = ground (arith, v.size, v.small)

-- The data area after a key was stored.
abbrev pub stored : ℕ → ℕ → Bda → Bda
stored s a bda = record bda {
  bytes = set_byte (bda.kbd_buf_tail + 1) s (set_byte bda.kbd_buf_tail a bda.bytes);
  kbd_buf_tail = next bda.kbd_buf_tail bda;
}

module _ {cap : ℕ} {bda : Bda} (v : IsValid cap bda) where
  open bda use {kbd_buf_start_offset, kbd_buf_end_offset, kbd_buf_head, kbd_buf_tail}

  pub stored-IsValid : (s a : ℕ) → IsValid cap (stored s a bda)
  stored-IsValid s a = record {
    size = v.size;
    small = v.small;
    head_low = v.head_low;
    head_high = v.head_high;
    head_even = v.head_even;
    tail_low = ground (arith, step, v.size, v.tail_low);
    tail_high = ground (arith, step, v.size, v.tail_low, v.tail_high, v.tail_even);
    tail_even = ground (arith, step, v.size, v.tail_low, v.tail_even);
  }
    where
      step : next kbd_buf_tail bda ≡ (
          if kbd_buf_tail + 2 == kbd_buf_end_offset then kbd_buf_start_offset else kbd_buf_tail + 2)
      step = next_lem kbd_buf_tail v v.tail_low v.tail_high v.tail_even

  pub taken-IsValid : IsValid cap (record bda { kbd_buf_head = next kbd_buf_head bda })
  taken-IsValid = record {
    size = v.size;
    small = v.small;
    tail_low = v.tail_low;
    tail_high = v.tail_high;
    tail_even = v.tail_even;
    head_low = ground (arith, step, v.size, v.head_low);
    head_high = ground (arith, step, v.size, v.head_low, v.head_high, v.head_even);
    head_even = ground (arith, step, v.size, v.head_low, v.head_even);
  }
    where
      step : next kbd_buf_head bda ≡ (
          if kbd_buf_head + 2 == kbd_buf_end_offset then kbd_buf_start_offset else kbd_buf_head + 2)
      step = next_lem kbd_buf_head v v.head_low v.head_high v.head_even

  count-stored :
      (s a : ℕ) → next kbd_buf_tail bda ≢ kbd_buf_head → count (stored s a bda) ≡ suc (count bda)
  count-stored s a ne = ground (
    arith, v.size, v.small, v.head_low, v.head_high, v.tail_low, v.tail_high, v.head_even,
    v.tail_even,
  )

  count-taken :
      kbd_buf_head ≢ kbd_buf_tail
      → suc (count (record bda { kbd_buf_head = next kbd_buf_head bda })) ≡ count bda
  count-taken ne = ground (
    arith, v.size, v.small, v.head_low, v.head_high, v.tail_low, v.tail_high, v.head_even,
    v.tail_even,
  )

  pub full_iff : (next kbd_buf_tail bda == kbd_buf_head) ≡ not (ltb (suc (count bda)) cap)
  full_iff = ground (
    arith, v.size, v.small, v.head_low, v.head_high, v.tail_low, v.tail_high, v.head_even,
    v.tail_even,
  )

  count_lt : count bda < cap
  count_lt = ground (
    arith, v.size, v.small, v.head_low, v.head_high, v.tail_low, v.tail_high, v.head_even,
    v.tail_even,
  )

  at_tail :
      (kbd_buf_head + 2 * count bda ≡ kbd_buf_tail)
      ⊎ (kbd_buf_head + 2 * count bda ≡ kbd_buf_tail + 2 * cap)
  at_tail = ground (
    arith, v.size, v.small, v.head_low, v.head_high, v.tail_low, v.tail_high, v.head_even,
    v.tail_even,
  )

  pub count-zero : kbd_buf_head ≡ kbd_buf_tail → count bda ≡ 0
  count-zero e = ground (arith, e)

-- The pair of bytes at a position after a key was stored.
pair_at : (ℕ → ℕ) → ℕ → Key
pair_at bytes p = (bytes (p + 1), bytes p)

pair_at-stored_self :
    (s a p : ℕ) (bda : Bda) → p ≡ bda.kbd_buf_tail → pair_at (stored s a bda).bytes p ≡ (s, a)
unfolding pair_at
pair_at-stored_self s a p bda e = ground (arith, e)

pair_at-stored_ne :
    (s a p : ℕ) (bda : Bda)
    → (p + 1 < bda.kbd_buf_tail) ⊎ (bda.kbd_buf_tail + 1 < p)
    → pair_at (stored s a bda).bytes p ≡ pair_at bda.bytes p
unfolding pair_at
pair_at-stored_ne s a p bda far = ground (arith, far)

-- Storing a key behind a window extends the window by it.
window-stored :
    {cap : ℕ} {bda : Bda} (s a p n : ℕ)
    → IsValid cap bda
    → bda.kbd_buf_start_offset ≤ p
    → p < bda.kbd_buf_end_offset
    → (p - bda.kbd_buf_start_offset) % 2 ≡ 0
    → n < cap
    → (p + 2 * n ≡ bda.kbd_buf_tail) ⊎ (p + 2 * n ≡ bda.kbd_buf_tail + 2 * cap)
    → window (stored s a bda) p (suc n) ≡ window bda p n ++ ((s, a) ∷ [])
unfolding pair_at
window-stored {cap} {bda} s a p zero v l h e c at =
    ap (λ k. k ∷ []) (pair_at-stored_self s a p bda (ground (arith, at, v.size, v.tail_low)))
window-stored {cap} {bda} s a p (suc n) v l h e c at =
    ap₂ ◌∷◌
      (pair_at-stored_ne s a p bda
        (ground (arith, at, e, v.size, v.tail_low, v.tail_high, v.tail_even)))
      (window-stored s a (next p bda) n v (ground (arith, step, v.size, l))
        (ground (arith, step, v.size, l, h, e)) (ground (arith, step, v.size, l, e))
        (omega (arith, c)) (ground (arith, step, at, v.size, l, h, e, v.tail_low, v.tail_high)))
  where
    step :
        next p bda ≡ (if p + 2 == bda.kbd_buf_end_offset then bda.kbd_buf_start_offset else p + 2)
    step = next_lem p v l h e

pub length-contents : (bda : Bda) → length (contents bda) ≡ count bda
length-contents bda = length-window bda bda.kbd_buf_head (count bda)

module _ {cap : ℕ} {bda : Bda} (v : IsValid cap bda) where
  pub contents-stored :
      (s a : ℕ)
      → next bda.kbd_buf_tail bda ≢ bda.kbd_buf_head
      → contents (stored s a bda) ≡ contents bda ++ ((s, a) ∷ [])
  contents-stored s a ne =
      ap (window (stored s a bda) bda.kbd_buf_head) (count-stored v s a ne)
      ∙ window-stored s a bda.kbd_buf_head (count bda) v v.head_low v.head_high v.head_even
          (count_lt v) (at_tail v)

  pub contents-taken :
      bda.kbd_buf_head ≢ bda.kbd_buf_tail
      → contents bda
        ≡ (bda.bytes (bda.kbd_buf_head + 1), bda.bytes bda.kbd_buf_head)
          ∷ contents (record bda { kbd_buf_head = next bda.kbd_buf_head bda })
  contents-taken ne = ap (window bda bda.kbd_buf_head) (sym (count-taken v ne))
