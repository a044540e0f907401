-- ===== src/Sh/Lexer/Length.antt =====
-- `gettoken` moves on.
use zrhos.Base.{
  List-cases, ℕ, suc, ◌≤◌, ◌<◌, ◌≡◌, refl, sym, ap, ◌∙◌, true, false, List, [], ◌∷◌, ◌==◌, arith,
  Bool-cases, inl, inr, length, subst,
}
use zrhos.Sh.Lexer.{
  strchr, whitespace, singles, greater, skip_space, in_word, span_word, after_greater, scan_token,
  gettoken, starts, peek,
}

pub length-skip_space : (s : List ℕ) → length (skip_space s) ≤ length s
unfolding skip_space
length-skip_space [] = omega arith
length-skip_space (c ∷ s) = ground (arith, length-skip_space s)

-- The first byte that is left is no space.
pub skip_space-head :
    (s : List ℕ) (c : ℕ) (r : List ℕ) → skip_space s ≡ c ∷ r → strchr whitespace c ≡ false
unfolding skip_space
skip_space-head [] c r h = absurd (omega (arith, ap length h))
skip_space-head (x ∷ s) c r h = elim (Bool-cases (strchr whitespace x)) [
  | inl y ↦ skip_space-head s c r (ground arith)
  | inr n ↦ ground arith
]

pub skip_space_idem : (s : List ℕ) → skip_space (skip_space s) ≡ skip_space s
unfolding skip_space
skip_space_idem [] = refl
skip_space_idem (c ∷ s) = ground (arith, skip_space_idem s)

length-span_word : (s : List ℕ) → length (span_word s).1 ≤ length s
unfolding span_word
length-span_word [] = omega arith
length-span_word (c ∷ s) = ground (arith, length-span_word s)

span_word-in_word :
    (c : ℕ) (s : List ℕ) → in_word c ≡ true → length (span_word (c ∷ s)).1 < suc (length s)
unfolding span_word
span_word-in_word c s h = ground (arith, length-span_word s)

length-after_greater : (s : List ℕ) → length (after_greater s).rest ≤ length s
length-after_greater [] = omega arith
length-after_greater (c ∷ s) = ground arith

-- What is no space and no symbol is in a word.
in_word-other :
    (c : ℕ)
    → strchr whitespace c ≡ false
    → strchr singles c ≡ false
    → (c == greater) ≡ false
    → in_word c ≡ true
unfolding strchr
in_word-other c w s g = ground arith

length-scan_token :
    (c : ℕ) (r : List ℕ)
    → strchr whitespace c ≡ false
    → length (scan_token (c ∷ r)).rest < suc (length r)
unfolding scan_token
length-scan_token c r w = elim (Bool-cases (strchr singles c)) [
  | inl y ↦ ground arith
  | inr n ↦ elim (Bool-cases (c == greater)) [
    | inl y ↦ ground (arith, length-after_greater r)
    | inr g ↦ ground (arith, span_word-in_word c r (in_word-other c w n g))
  ]
]

-- What `gettoken` leaves of a line that does not start with a space.
step : (t : List ℕ) → List ℕ
step t = skip_space (scan_token t).rest

step-shorter :
    (c : ℕ) (r : List ℕ) → strchr whitespace c ≡ false → length (step (c ∷ r)) < suc (length r)
unfolding step
step-shorter c r w =
    omega (arith, length-scan_token c r w, length-skip_space (scan_token (c ∷ r)).rest)

-- A token of a line that is not empty shortens it.
pub gettoken-shorter :
    (s : List ℕ) (c : ℕ) (r : List ℕ)
    → skip_space s ≡ c ∷ r
    → length (gettoken s).rest < suc (length r)
unfolding gettoken step
gettoken-shorter s c r h =
    subst (λ t. length (step t) < suc (length r)) (sym h)
      (step-shorter c r (skip_space-head s c r h))

-- After `peek` has found one of its bytes, `gettoken` shortens the line.
pub peek-gettoken :
    (toks s : List ℕ) → (peek toks s).0 ≡ true → length (gettoken (peek toks s).1).rest < length s
unfolding peek
peek-gettoken toks s h = elim (List-cases (skip_space s)) [
  | inl e ↦ absurd (ground (arith, ap (starts toks) e))
  | inr (c, r, e) ↦ omega (
    arith,
    gettoken-shorter (skip_space s) c r (skip_space_idem s ∙ e),
    ap length e,
    length-skip_space s,
  )
]

-- So does a token that is not the end.
pub gettoken-end :
    (s : List ℕ) → ((gettoken s).ret == 0) ≡ false → length (gettoken s).rest < length s
unfolding gettoken scan_token
gettoken-end s h = elim (List-cases (skip_space s)) [
  | inl e ↦ absurd (ground (arith, ap (λ t. (scan_token t).ret) e))
  | inr (c, r, e) ↦ omega (arith, gettoken-shorter s c r e, ap length e, length-skip_space s)
]

pub length-gettoken : (s : List ℕ) → length (gettoken s).rest ≤ length s
unfolding gettoken scan_token skip_space
length-gettoken s = elim (List-cases (skip_space s)) [
  | inl e ↦ omega (arith, ap (λ t. length (skip_space (scan_token t).rest)) e)
  | inr (c, r, e) ↦ omega (arith, gettoken-shorter s c r e, ap length e, length-skip_space s)
]
