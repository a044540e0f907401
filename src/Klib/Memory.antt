-- ===== src/Klib/Memory.antt =====
-- `memset`, `memcpy` and `memmove` of kernel/klib.c on one memory, by address.
use zrhos.Base.{
  ℕ, zero, suc, ◌+◌, ◌-◌, ◌%◌, ◌≤◌, ◌≡◌, ◌⊎◌, refl, sym, ap, ◌∙◌, Bool, true, false, ◌&&◌, arith,
  ◌==◌, leb, ltb, if◌then◌else◌, Bool-cases, inl, inr,
}

abbrev pub Mem : Type 0
Mem = ℕ → ℕ

abbrev pub write : Mem → ℕ → ℕ → Mem
write m p x a = if p == a then x else m a

-- `c % 256`, as a byte; `c` is not negative.
unfoldable pub memset : ℕ → ℕ → ℕ → Mem → Mem
memset s c zero m = m
memset s c (suc n) m = memset (s + 1) c n (write m s (c % 256))

unfoldable pub memcpy : ℕ → ℕ → ℕ → Mem → Mem
memcpy out in_ zero m = m
memcpy out in_ (suc n) m = memcpy (out + 1) (in_ + 1) n (write m out (m in_))

abbrev pub chunk : ℕ
chunk = 1024

-- The loop of `memmove` with `n` bytes to go; `buf` is the address of the static buffer. A round
-- takes one byte at least, so `n` rounds end it.
unfoldable pub memmove_loop : ℕ → ℕ → ℕ → ℕ → ℕ → Mem → Mem
memmove_loop zero buf dst src n m = m
memmove_loop (suc rounds) buf dst src n m =
    let len = if ltb chunk n then chunk else n in
    let rest =
      memmove_loop rounds buf (dst + len) (src + len) (n - len)
        (memcpy dst buf len (memcpy buf src len m)) in
    if n == 0 then m else rest

unfoldable pub memmove : ℕ → ℕ → ℕ → ℕ → Mem → Mem
memmove buf dst src n m = memmove_loop n buf dst src n m

-- The address lies in the `n` bytes from `p` on.
abbrev pub inside : ℕ → ℕ → ℕ → Bool
inside p n a = leb p a && ltb a (p + n)

-- What a copy is to do.
abbrev pub copied : ℕ → ℕ → ℕ → Mem → Mem
copied dst src n m a = if inside dst n a then m (src + (a - dst)) else m a

-- `memset` writes the byte to its range and nothing else.
pub memset-inside :
    (s c n : ℕ) (m : Mem) (a : ℕ) → memset s c n m a ≡ (if inside s n a then c % 256 else m a)
unfolding memset
memset-inside s c zero m a = ground arith
memset-inside s c (suc n) m a = ground (arith, memset-inside (s + 1) c n (write m s (c % 256)) a)

-- `memcpy`, which goes upwards, copies its range when the target does not start inside the source
-- behind its first byte.
pub memcpy-copied :
    (out in_ n : ℕ) (m : Mem) (a : ℕ)
    → (out ≤ in_) ⊎ (in_ + n ≤ out)
    → memcpy out in_ n m a ≡ copied out in_ n m a
unfolding memcpy
memcpy-copied out in_ zero m a h = ground arith
memcpy-copied out in_ (suc n) m a h =
    ground (arith, memcpy-copied (out + 1) (in_ + 1) n (write m out (m in_)) a (ground arith))

-- Two ranges without a common address.
abbrev pub Apart : ℕ → ℕ → ℕ → ℕ → Type 0
Apart p n q k = (p + n ≤ q) ⊎ (q + k ≤ p)

-- One round: a piece through the buffer.
round-copied :
    (buf dst src len : ℕ) (m : Mem) (a : ℕ)
    → len ≤ chunk
    → Apart buf chunk dst len
    → Apart buf chunk src len
    → inside buf chunk a ≡ false
    → memcpy dst buf len (memcpy buf src len m) a ≡ copied dst src len m a
round-copied buf dst src len m a small d s out =
    memcpy-copied dst buf len (memcpy buf src len m) a (ground arith)
    ∙ elim (Bool-cases (inside dst len a)) [
      | inl t ↦ ground (arith, memcpy-copied buf src len m (buf + (a - dst)) (ground arith))
      | inr f ↦ ground (arith, memcpy-copied buf src len m a (ground arith))
    ]

-- The state of the loop after a round of `len` bytes.
abbrev after : ℕ → ℕ → ℕ → ℕ → ℕ → Mem → ℕ → Mem
after rounds buf dst src n m len =
    memmove_loop rounds buf (dst + len) (src + len) (n - len)
      (memcpy dst buf len (memcpy buf src len m))

memmove_loop-after :
    (rounds buf dst src n : ℕ) (m : Mem) (len : ℕ)
    → (n == 0) ≡ false
    → (if ltb chunk n then chunk else n) ≡ len
    → memmove_loop (suc rounds) buf dst src n m ≡ after rounds buf dst src n m len
unfolding memmove_loop
memmove_loop-after rounds buf dst src n m len f e =
    ap (λ b. if b then m else after rounds buf dst src n m (if ltb chunk n then chunk else n)) f
    ∙ ap (after rounds buf dst src n m) e

memmove_loop-zero :
    (buf dst src n : ℕ) (m : Mem) (a : ℕ)
    → n ≡ 0
    → memmove_loop zero buf dst src n m a ≡ copied dst src n m a
unfolding memmove_loop
memmove_loop-zero buf dst src n m a e = ground arith

memmove_loop-none :
    (rounds buf dst src n : ℕ) (m : Mem) (a : ℕ)
    → (n == 0) ≡ true
    → memmove_loop (suc rounds) buf dst src n m a ≡ copied dst src n m a
unfolding memmove_loop
memmove_loop-none rounds buf dst src n m a t = ground arith

-- A round, then the rest of the range, is the whole range.
copied-copied :
    (dst src n len : ℕ) (m m' : Mem) (a : ℕ)
    → len ≤ n
    → (dst ≤ src) ⊎ (src + n ≤ dst) ⊎ (len ≡ n)
    → m' a ≡ copied dst src len m a
    → (inside (dst + len) (n - len) a ≡ true
        → m' (src + (a - dst)) ≡ copied dst src len m (src + (a - dst)))
    → copied (dst + len) (src + len) (n - len) m' a ≡ copied dst src n m a
copied-copied dst src n len m m' a le way here there =
    elim (Bool-cases (inside (dst + len) (n - len) a)) [
      | inl t ↦
          let at_source : src + len + (a - (dst + len)) ≡ src + (a - dst) = ground arith in
          let one : copied (dst + len) (src + len) (n - len) m' a
              ≡ m' (src + len + (a - (dst + len))) =
            ap (λ b. if b then m' (src + len + (a - (dst + len))) else m' a) t in
          let untouched : inside dst len (src + (a - dst)) ≡ false = ground arith in
          let whole : inside dst n a ≡ true = ground arith in
          one
          ∙ ap m' at_source
          ∙ there t
          ∙ ap (λ b. if b then m (src + ((src + (a - dst)) - dst)) else m (src + (a - dst)))
              untouched
          ∙ sym (ap (λ b. if b then m (src + (a - dst)) else m a) whole)
      | inr f ↦
          let same : inside dst len a ≡ inside dst n a = ground arith in
          ap (λ b. if b then m' (src + len + (a - (dst + len))) else m' a) f
          ∙ here
          ∙ ap (λ b. if b then m (src + (a - dst)) else m a) same
    ]

one_round :
    (rounds buf dst src n : ℕ) (m : Mem) (a len : ℕ)
    → (n == 0) ≡ false
    → (if ltb chunk n then chunk else n) ≡ len
    → len ≤ chunk
    → len ≤ n
    → Apart buf chunk dst n
    → Apart buf chunk src n
    → (dst ≤ src) ⊎ (src + n ≤ dst) ⊎ (len ≡ n)
    → inside buf chunk a ≡ false
    → after rounds buf dst src n m len a
      ≡ copied (dst + len) (src + len) (n - len) (memcpy dst buf len (memcpy buf src len m)) a
    → memmove_loop (suc rounds) buf dst src n m a ≡ copied dst src n m a
one_round rounds buf dst src n m a len f e small le d s way out rest =
    let near_d : Apart buf chunk dst len = ground arith in
    let near_s : Apart buf chunk src len = ground arith in
    ap (λ m. m a) (memmove_loop-after rounds buf dst src n m len f e)
    ∙ rest
    ∙ copied-copied dst src n len m (memcpy dst buf len (memcpy buf src len m)) a le way
        (round-copied buf dst src len m a small near_d near_s out)
        (λ t. round-copied buf dst src len m (src + (a - dst)) small near_d near_s (ground arith))

memmove_loop-copied :
    (rounds buf dst src n : ℕ) (m : Mem) (a : ℕ)
    → n ≤ rounds
    → Apart buf chunk dst n
    → Apart buf chunk src n
    → (dst ≤ src) ⊎ (src + n ≤ dst) ⊎ (n ≤ chunk)
    → inside buf chunk a ≡ false
    → memmove_loop rounds buf dst src n m a ≡ copied dst src n m a
memmove_loop-copied zero buf dst src n m a le d s way out =
    memmove_loop-zero buf dst src n m a (omega arith)
memmove_loop-copied (suc rounds) buf dst src n m a le d s way out = elim (Bool-cases (n == 0)) [
  | inl t ↦ memmove_loop-none rounds buf dst src n m a t
  | inr f ↦ elim (Bool-cases (ltb chunk n)) [
    | inl t ↦
        one_round rounds buf dst src n m a chunk f (ap (λ b. if b then chunk else n) t)
          (omega arith) (ground arith) d s (ground arith) out
          (memmove_loop-copied rounds buf (dst + chunk) (src + chunk) (n - chunk) _ a (ground arith)
            (ground arith) (ground arith) (ground arith) out)
    | inr g ↦
        one_round rounds buf dst src n m a n f (ap (λ b. if b then chunk else n) g) (ground arith)
          (omega arith) d s (inr (inr refl)) out
          (memmove_loop-copied rounds buf (dst + n) (src + n) (n - n) _ a (ground arith)
            (ground arith) (ground arith) (inr (inr (omega arith))) out)
  ]
]

-- `memmove` copies its range, outside the static buffer, when that buffer is apart from both ranges,
-- and the target does not start inside the source behind its first byte or the range fits the
-- buffer.
pub memmove-copied :
    (buf dst src n : ℕ) (m : Mem) (a : ℕ)
    → Apart buf chunk dst n
    → Apart buf chunk src n
    → (dst ≤ src) ⊎ (src + n ≤ dst) ⊎ (n ≤ chunk)
    → inside buf chunk a ≡ false
    → memmove buf dst src n m a ≡ copied dst src n m a
unfolding memmove
memmove-copied buf dst src n m a d s way out =
    memmove_loop-copied n buf dst src n m a (omega arith) d s way out
