-- ===== src/Klib/Strings.antt =====
-- `strlen`, `strcpy`, `strncpy` and `strcat` of kernel/klib.c. A pointer is the bytes of its object
-- from where it points on; `none` is an access behind the object.
use zrhos.Base.{
  ℕ, zero, suc, ◌-◌, ◌≤◌, ◌<◌, ◌≡◌, refl, ap, ◌∙◌, Bool, true, false, Option, none, some, List, [],
  ◌∷◌, ◌++◌, arith, ◌==◌, if◌then◌else◌, length, take, drop, All, set, dec_lt, ◌⊎◌, inl, inr,
}

unfoldable pub strlen : List ℕ → Option ℕ
strlen [] = none
strlen (c ∷ p) =
    let rest = strlen p in
    if c == 0 then some 0 else elim rest [ none ↦ none | some n ↦ some (suc n) ]

-- The object that `dst` points into, after the copy.
unfoldable pub strcpy : List ℕ → List ℕ → Option (List ℕ)
strcpy dst [] = none
strcpy [] (c ∷ src) = none
strcpy (d ∷ dst) (c ∷ src) =
    let rest = strcpy dst src in
    if c == 0 then some (0 ∷ dst) else elim rest [ none ↦ none | some m ↦ some (c ∷ m) ]

-- The loop of `strncpy` with `n` bytes to go; the flag says that it ended with `i == n`.
unfoldable pub strncpy_loop : List ℕ → List ℕ → ℕ → Option (List ℕ × Bool)
strncpy_loop dst [] n = none
strncpy_loop dst (c ∷ src) zero = some (dst, true)
strncpy_loop [] (c ∷ src) (suc n) = none
strncpy_loop (d ∷ dst) (c ∷ src) (suc n) =
    let rest = strncpy_loop dst src n in
    if c == 0
    then some (0 ∷ dst, false)
    else elim rest [ none ↦ none | some (m, full) ↦ some (c ∷ m, full) ]

-- `if(i==n) dst[n-1] = '\0'`, where `n` is one more than the argument.
unfoldable pub strncpy_end : ℕ → Option (List ℕ × Bool) → Option (List ℕ)
strncpy_end n none = none
strncpy_end n (some (m, full)) = some (if full then set m n 0 else m)

-- With `n` 0 the last write is before `dst`, which is `none` here.
unfoldable pub strncpy : List ℕ → List ℕ → ℕ → Option (List ℕ)
strncpy dst src zero = none
strncpy dst src (suc n) = strncpy_end n (strncpy_loop dst src (suc n))

unfoldable pub strcat : List ℕ → List ℕ → Option (List ℕ)
strcat [] src = none
strcat (d ∷ dst) src =
    let rest = strcat dst src in
    if d == 0 then strcpy (d ∷ dst) src else elim rest [ none ↦ none | some m ↦ some (d ∷ m) ]

-- A string: bytes other than 0, with a 0 behind them.
abbrev pub NonZero : List ℕ → Type 0
NonZero s = All (λ c. 0 < c) s

-- `strlen` counts the bytes before the first 0.
pub strlen-length : (s r : List ℕ) → NonZero s → strlen (s ++ (0 ∷ r)) ≡ some (length s)
unfolding strlen
strlen-length [] r nz = refl
strlen-length (c ∷ s) r (h, nz) = ground (arith, strlen-length s r nz)

-- `strcpy` into an object with room writes the string and its 0, and leaves the rest.
pub strcpy-append :
    (dst s r : List ℕ)
    → NonZero s
    → length s < length dst
    → strcpy dst (s ++ (0 ∷ r)) ≡ some (s ++ (0 ∷ drop (suc (length s)) dst))
unfolding strcpy
strcpy-append [] s r nz lt = absurd (omega arith)
strcpy-append (d ∷ dst) [] r nz lt = refl
strcpy-append (d ∷ dst) (c ∷ s) r (h, nz) lt =
    ground (arith, strcpy-append dst s r nz (omega arith))

-- `strcat` on an object that holds the string `d` and has room writes the other string behind it.
pub strcat-append :
    (d e s r : List ℕ)
    → NonZero d
    → NonZero s
    → length s ≤ length e
    → strcat (d ++ (0 ∷ e)) (s ++ (0 ∷ r)) ≡ some (d ++ (s ++ (0 ∷ drop (length s) e)))
unfolding strcat
strcat-append [] e s r nd ns le = strcpy-append (0 ∷ e) s r ns (omega arith)
strcat-append (c ∷ d) e s r (h, nd) ns le = ground (arith, strcat-append d e s r nd ns le)

strncpy_loop-short :
    (dst s r : List ℕ) (n : ℕ)
    → NonZero s
    → length s < n
    → n ≤ length dst
    → strncpy_loop dst (s ++ (0 ∷ r)) n ≡ some (s ++ (0 ∷ drop (suc (length s)) dst), false)
unfolding strncpy_loop
strncpy_loop-short dst s r zero nz lt le = absurd (omega arith)
strncpy_loop-short [] s r (suc n) nz lt le = absurd (omega arith)
strncpy_loop-short (d ∷ dst) [] r (suc n) nz lt le = refl
strncpy_loop-short (d ∷ dst) (c ∷ s) r (suc n) (h, nz) lt le =
    ground (arith, strncpy_loop-short dst s r n nz (omega arith) (omega arith))

strncpy_loop-long :
    (dst s r : List ℕ) (n : ℕ)
    → NonZero s
    → n ≤ length s
    → n ≤ length dst
    → strncpy_loop dst (s ++ (0 ∷ r)) n ≡ some (take n s ++ drop n dst, true)
unfolding strncpy_loop
strncpy_loop-long dst [] r zero nz le lt = refl
strncpy_loop-long dst (c ∷ s) r zero nz le lt = refl
strncpy_loop-long dst [] r (suc n) nz le lt = absurd (omega arith)
strncpy_loop-long [] (c ∷ s) r (suc n) nz le lt = absurd (omega arith)
strncpy_loop-long (d ∷ dst) (c ∷ s) r (suc n) (h, nz) le lt =
    ground (arith, strncpy_loop-long dst s r n nz (omega arith) (omega arith))

set-append :
    (s e : List ℕ) (n : ℕ) → n < length s → set (take (suc n) s ++ e) n 0 ≡ take n s ++ (0 ∷ e)
set-append [] e n lt = absurd (omega arith)
set-append (c ∷ s) e zero lt = refl
set-append (c ∷ s) e (suc n) lt = ap (λ l. c ∷ l) (set-append s e n (omega arith))

pred : (n : ℕ) → n ≡ suc n - 1
pred n = omega arith

-- `strncpy` with `n > 0` and room for `n` bytes writes the string cut to `n - 1` bytes, when it is
-- not shorter, and a 0.
pub strncpy-take :
    (dst s r : List ℕ) (n : ℕ)
    → NonZero s
    → 0 < n
    → n ≤ length dst
    → ((length s < n)
        × (strncpy dst (s ++ (0 ∷ r)) n ≡ some (s ++ (0 ∷ drop (suc (length s)) dst))))
      ⊎ ((n ≤ length s)
          × (strncpy dst (s ++ (0 ∷ r)) n ≡ some (take (n - 1) s ++ (0 ∷ drop n dst))))
unfolding strncpy strncpy_end
strncpy-take dst s r zero nz pos le = absurd (omega arith)
strncpy-take dst s r (suc n) nz pos le = elim (dec_lt (length s) (suc n)) [
  | yes short ↦ inl (short, ap (strncpy_end n) (strncpy_loop-short dst s r (suc n) nz short le))
  | no long ↦ inr (
    omega arith,
    ap (strncpy_end n) (strncpy_loop-long dst s r (suc n) nz (omega arith) le)
        ∙ ap some (set-append s (drop (suc n) dst) n (omega arith))
        ∙ ap (λ m. some (take m s ++ (0 ∷ drop (suc n) dst))) (pred n),
  )
]
