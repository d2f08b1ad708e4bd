-- ===== src/Printf/Buffer.antt =====
-- bios/seabios/src/output.c: printing into a buffer.
use coremu.Common.{
  ℕ, zero, suc, ◌+◌, ◌-◌, ◌≤◌, ◌<◌, ◌≡◌, refl, sym, ap, ◌∙◌, true, false, Option, none, some, List,
  [], ◌∷◌, ◌++◌, length, take, All, min, leb, ◌==◌, if◌then◌else◌, if_true, if_false, Bool-cases,
  inl, inr, arith,
}
use coremu.Printf.{bvprintf}
use coremu.Printf.Total.{IsWord, bvprintf_returns}

-- `struct snprintfinfo` and the memory.
pub record SnprintfInfo : Type 0 where
  pub str : ℕ
  pub end_ : ℕ
  pub bytes : ℕ → ℕ

abbrev pub store : ℕ → ℕ → (ℕ → ℕ) → ℕ → ℕ
store a c bytes x = if x == a then c else bytes x

unfoldable pub putc_str : SnprintfInfo → ℕ → SnprintfInfo
putc_str info c =
    if leb info.end_ info.str
    then info
    else record info { str = info.str + 1; bytes = store info.str c info.bytes }

-- The characters that the format gives, one after the other.
unfoldable pub put_all : SnprintfInfo → List ℕ → SnprintfInfo
unfolding putc_str
put_all info [] = info
put_all info (c ∷ cs) = put_all (putc_str info c) cs

-- What is returned, and the memory afterwards, when the format gives the characters `out`.
unfoldable pub finish : ℕ → ℕ → (ℕ → ℕ) → List ℕ → ℕ × (ℕ → ℕ)
unfolding put_all
finish str size bytes out =
    let sinfo = put_all (record { str = str; end_ = str + size; bytes = bytes }) out in
    let end_ = if leb sinfo.end_ sinfo.str then sinfo.end_ - 1 else sinfo.str in
    (end_ - str, store end_ 0 sinfo.bytes)

abbrev pub print_to : ℕ → ℕ → (ℕ → ℕ) → Option (List ℕ) → Option (ℕ × (ℕ → ℕ))
print_to str size bytes none = none
print_to str size bytes (some out) = some (finish str size bytes out)

-- `snprintf` of a format and its arguments; nothing if the format is not printed.
unfoldable pub snprintf : (ℕ → List ℕ) → ℕ → ℕ → List ℕ → List ℕ → (ℕ → ℕ) → Option (ℕ × (ℕ → ℕ))
unfolding finish
snprintf strings str size fmt args bytes =
    if size == 0
    then some (0, bytes)
    else print_to str size bytes (bvprintf strings (length fmt) fmt args)

-- Memory with a text in it.
abbrev pub written : ℕ → List ℕ → (ℕ → ℕ) → ℕ → ℕ
written a [] bytes x = bytes x
written a (c ∷ cs) bytes x = if x == a then c else written (a + 1) cs bytes x

written-store :
    (a k c x : ℕ) (cs : List ℕ) (bytes : ℕ → ℕ)
    → a < k
    → written k cs (store a c bytes) x ≡ (if x == a then c else written k cs bytes x)
written-store a k c x [] bytes h = refl
written-store a k c x (d ∷ cs) bytes h =
    ground (arith, h, written-store a (k + 1) c x cs bytes (omega (arith, h)))

store-written :
    (a k v x : ℕ) (cs : List ℕ) (bytes : ℕ → ℕ)
    → k ≤ length cs
    → store (a + k) v (written a (take (suc k) cs) bytes) x
      ≡ written a (take k cs ++ (v ∷ [])) bytes x
store-written a zero v x [] bytes h = ap (λ b. if x == b then v else bytes x) (omega arith)
store-written a zero v x (c ∷ cs) bytes h = ground arith
store-written a (suc k) v x [] bytes h = absurd (omega (arith, h))
store-written a (suc k) v x (c ∷ cs) bytes h =
    ground (arith, store-written (a + 1) k v x cs bytes (omega (arith, h)))

-- A character that there is room for, or not.
putc_str-full :
    (info : SnprintfInfo) (c : ℕ) → leb info.end_ info.str ≡ true → putc_str info c ≡ info
unfolding putc_str
putc_str-full info c h = if_true (leb info.end_ info.str) _ _ h

abbrev put_one : SnprintfInfo → ℕ → SnprintfInfo
put_one info c = record info { str = info.str + 1; bytes = store info.str c info.bytes }

putc_str-stored :
    (info : SnprintfInfo) (c : ℕ)
    → leb info.end_ info.str ≡ false
    → putc_str info c ≡ put_one info c
unfolding putc_str
putc_str-stored info c h = if_false (leb info.end_ info.str) _ _ h

put_all-end : (info : SnprintfInfo) (cs : List ℕ) → (put_all info cs).end_ ≡ info.end_
unfolding put_all
put_all-end info [] = refl
put_all-end info (c ∷ cs) =
    put_all-end (putc_str info c) cs ∙ elim (Bool-cases (leb info.end_ info.str)) [
      | inl b ↦ ap (λ (i : SnprintfInfo). i.end_) (putc_str-full info c b)
      | inr b ↦ ap (λ (i : SnprintfInfo). i.end_) (putc_str-stored info c b)
    ]

put_all-str :
    (info : SnprintfInfo) (cs : List ℕ)
    → info.str ≤ info.end_
    → (put_all info cs).str ≡ info.str + min (length cs) (info.end_ - info.str)
unfolding put_all
put_all-str info [] h = omega arith
put_all-str info (c ∷ cs) h = elim (Bool-cases (leb info.end_ info.str)) [
  | inl b ↦
      ap (λ i. (put_all i cs).str) (putc_str-full info c b)
      ∙ (put_all-str info cs h ∙ ground (arith, h, b))
  | inr b ↦
      ap (λ i. (put_all i cs).str) (putc_str-stored info c b)
      ∙ (put_all-str (put_one info c) cs (ground (arith, b)) ∙ ground (arith, h, b))
]

take-nil : (n : ℕ) → take {A = ℕ} n [] ≡ []
take-nil zero = refl
take-nil (suc n) = refl

take-cons : (m n c : ℕ) (cs : List ℕ) → n ≡ suc m → take n (c ∷ cs) ≡ c ∷ take m cs
take-cons m n c cs e = ap (λ k. take k (c ∷ cs)) e

put_all-bytes :
    (info : SnprintfInfo) (cs : List ℕ) (x : ℕ)
    → (put_all info cs).bytes x ≡ written info.str (take (info.end_ - info.str) cs) info.bytes x
unfolding put_all
put_all-bytes info [] x =
    ap (λ l. written info.str l info.bytes x) (sym (take-nil (info.end_ - info.str)))
put_all-bytes info (c ∷ cs) x = elim (Bool-cases (leb info.end_ info.str)) [
  | inl b ↦
      let none_left : info.end_ - info.str ≡ 0 = ground (arith, b) in
      ap (λ i. (put_all i cs).bytes x) (putc_str-full info c b)
      ∙ (put_all-bytes info cs x
          ∙ (ap (λ n. written info.str (take n cs) info.bytes x) none_left
              ∙ sym (ap (λ n. written info.str (take n (c ∷ cs)) info.bytes x) none_left)))
  | inr b ↦
      ap (λ i. (put_all i cs).bytes x) (putc_str-stored info c b)
      ∙ (put_all-bytes (put_one info c) cs x
          ∙ (written-store info.str (info.str + 1) c x (take (info.end_ - (info.str + 1)) cs)
                info.bytes (omega arith)
              ∙ sym (
                  ap (λ l. written info.str l info.bytes x)
                    (take-cons (info.end_ - (info.str + 1)) (info.end_ - info.str) c cs
                      (ground (arith, b))))))
]

take-all : (n : ℕ) (cs : List ℕ) → take (length cs) cs ≡ take (length cs + n) cs
take-all n [] = sym (take-nil (0 + n))
take-all n (c ∷ cs) =
    ap (λ l. c ∷ l) (take-all n cs)
    ∙ sym (take-cons (length cs + n) (suc (length cs) + n) c cs (omega arith))

-- The part of the text that fits, with one character more if there is one.
fitting :
    (size k : ℕ) (out : List ℕ)
    → 0 < size
    → k ≡ size
    → take k out ≡ take (suc (min (length out) (size - 1))) out
fitting size k out h e = elim (Bool-cases (leb (size - 1) (length out))) [
  | inl b ↦
      let same : k ≡ suc (min (length out) (size - 1)) = ground (arith, h, e, b) in
      ap (λ n. take n out) same
  | inr b ↦
      let long : k ≡ length out + (size - length out) = ground (arith, e, b) in
      let short : length out + 1 ≡ suc (min (length out) (size - 1)) = ground (arith, b) in
      ap (λ n. take n out) long
      ∙ (sym (take-all (size - length out) out) ∙ (take-all 1 out ∙ ap (λ n. take n out) short))
]

module _ (str size : ℕ) (bytes : ℕ → ℕ) (out : List ℕ) (h : 0 < size) where
  start : SnprintfInfo
  start = record { str = str; end_ = str + size; bytes = bytes }

  last : ℕ
  last =
      if leb (put_all start out).end_ (put_all start out).str
      then (put_all start out).end_ - 1
      else (put_all start out).str

  last_lem : last ≡ str + min (length out) (size - 1)
  unfolding last start
  last_lem = ground (arith, put_all-end start out, put_all-str start out (omega arith), h)

  count_lem : (finish str size bytes out).0 ≡ min (length out) (size - 1)
  unfolding finish last start
  count_lem = omega (arith, last_lem)

  text_lem :
      (x : ℕ)
      → (finish str size bytes out).1 x
        ≡ written str (take (min (length out) (size - 1)) out ++ (0 ∷ [])) bytes x
  unfolding finish last start
  text_lem x =
      ap (λ e. store e 0 (put_all start out).bytes x) last_lem
      ∙ (ap (λ y. if x == str + min (length out) (size - 1) then 0 else y)
            (put_all-bytes start out x)
          ∙ (ap (λ t. store (str + min (length out) (size - 1)) 0 (written str t bytes) x)
                (fitting size (str + size - str) out h (omega arith))
              ∙ store-written str (min (length out) (size - 1)) 0 x out bytes (omega arith)))

-- snprintf with arguments of 32 bits and a buffer that is not empty stores as many of the characters of
-- the format as fit with a NUL behind them, and the NUL, changes no other byte, and returns how many
-- characters it stored.
pub snprintf_lem :
    (strings : ℕ → List ℕ) (str size : ℕ) (fmt args : List ℕ) (bytes : ℕ → ℕ)
    → 0 < size
    → All IsWord args
    → (out : List ℕ) × (n : ℕ) × (bytes' : ℕ → ℕ) × (bvprintf strings (length fmt) fmt args
        ≡ some out)
      × (snprintf strings str size fmt args bytes ≡ some (n, bytes'))
      × (n ≡ min (length out) (size - 1))
      × ((x : ℕ) → bytes' x ≡ written str (take n out ++ (0 ∷ [])) bytes x)
unfolding snprintf
snprintf_lem strings str size fmt args bytes h w =
    let (out, e) = bvprintf_returns strings (length fmt) fmt args (omega arith) w in
    (
      out,
      (finish str size bytes out).0,
      (finish str size bytes out).1,
      e,
      if_false (size == 0) _ _ (ground (arith, h)) ∙ ap (print_to str size bytes) e,
      count_lem str size bytes out h,
      λ x.
          text_lem str size bytes out h x
          ∙ ap (λ n. written str (take n out ++ (0 ∷ [])) bytes x)
              (sym (count_lem str size bytes out h)),
    )
