-- ===== src/Klib/Numbers.antt =====
-- `itoa` and `atoi` of kernel/klib.c.
use zrhos.Base.{
  append-nil, ℕ, zero, suc, ◌+◌, ◌-◌, ◌*◌, ◌/◌, ◌%◌, ◌^◌, ◌≤◌, ◌<◌, ◌≡◌, refl, sym, ap, ◌∙◌, Bool,
  true, false, ◌&&◌, List, [], ◌∷◌, ◌++◌, arith, ◌==◌, leb, if◌then◌else◌, Bool-cases, inl, inr,
  append_assoc,
}
use zrhos.Base.Int.{ℤ, pos, negsuc}

-- The characters '0', '9', ' ' and '-'.
abbrev pub zero_char : ℕ
zero_char = 48

abbrev pub nine_char : ℕ
nine_char = 57

abbrev pub space_char : ℕ
space_char = 32

abbrev pub minus_char : ℕ
minus_char = 45

-- The loop `while(i>0)`, then the copy from the last digit to the first. One digit goes in a round,
-- so `i` rounds are enough.
unfoldable pub digits_loop : ℕ → ℕ → List ℕ
digits_loop zero i = []
digits_loop (suc fuel) i =
    let rest = digits_loop fuel (i / 10) in
    if i == 0 then [] else rest ++ ((i % 10 + zero_char) ∷ [])

-- "-214748364"
abbrev pub int_min_text : List ℕ
int_min_text = 45 ∷ 50 ∷ 49 ∷ 52 ∷ 55 ∷ 52 ∷ 56 ∷ 51 ∷ 54 ∷ 52 ∷ []

-- The characters that `itoa` stores before the final 0. `negsuc n` is -(n + 1).
unfoldable pub itoa : ℤ → List ℕ
itoa (pos zero) = zero_char ∷ []
itoa (pos (suc n)) = digits_loop (suc n) (suc n)
itoa (negsuc n) = if suc n == 2 ^ 31 then int_min_text else minus_char ∷ digits_loop (suc n) (suc n)

unfoldable pub skip_spaces : List ℕ → List ℕ
skip_spaces [] = []
skip_spaces (c ∷ s) = if c == space_char then skip_spaces s else c ∷ s

abbrev pub is_digit : ℕ → Bool
is_digit c = leb zero_char c && leb c nine_char

-- The loop of `atoi` with the value so far, in 32 bits.
unfoldable pub atoi_loop : ℕ → List ℕ → ℕ
atoi_loop x [] = x
atoi_loop x (c ∷ s) =
    let rest = atoi_loop ((x * 10 + c - zero_char) % 2 ^ 32) s in if is_digit c then rest else x

-- The text is up to the final 0; the result is the pattern of an `int`.
unfoldable pub atoi : List ℕ → ℕ
atoi s = atoi_loop 0 (skip_spaces s)

digits_loop-nil : (i : ℕ) → digits_loop zero i ≡ []
unfolding digits_loop
digits_loop-nil i = refl

atoi_loop-nil : (x : ℕ) → atoi_loop x [] ≡ x
unfolding atoi_loop
atoi_loop-nil x = refl

atoi-zero : atoi (itoa (pos 0)) ≡ 0
unfolding atoi itoa skip_spaces atoi_loop
atoi-zero = refl

skip_spaces-digit : (c : ℕ) (s : List ℕ) → is_digit c ≡ true → skip_spaces (c ∷ s) ≡ c ∷ s
unfolding skip_spaces
skip_spaces-digit c s d =
    let other : (c == space_char) ≡ false = ground arith in
    ap (λ b. if b then skip_spaces s else c ∷ s) other

-- One round in front of what follows.
digits_loop-suc :
    (fuel i : ℕ) (s : List ℕ)
    → (i == 0) ≡ false
    → digits_loop (suc fuel) i ++ s ≡ digits_loop fuel (i / 10) ++ ((i % 10 + zero_char) ∷ s)
unfolding digits_loop
digits_loop-suc fuel i s f =
    ap (λ c. (if c then [] else digits_loop fuel (i / 10) ++ ((i % 10 + zero_char) ∷ [])) ++ s) f
    ∙ append_assoc (digits_loop fuel (i / 10)) ((i % 10 + zero_char) ∷ []) s

digits_loop-zero : (fuel i : ℕ) (s : List ℕ) → (i == 0) ≡ true → digits_loop (suc fuel) i ++ s ≡ s
unfolding digits_loop
digits_loop-zero fuel i s t =
    ap (λ c. (if c then [] else digits_loop fuel (i / 10) ++ ((i % 10 + zero_char) ∷ [])) ++ s) t

digit_step :
    (i : ℕ) (s : List ℕ)
    → i < 2 ^ 31
    → atoi_loop (i / 10) ((i % 10 + zero_char) ∷ s) ≡ atoi_loop i s
unfolding atoi_loop
digit_step i s lt =
    let digit : is_digit (i % 10 + zero_char) ≡ true = ground arith in
    ap
      (λ c.
        if c
        then atoi_loop ((i / 10 * 10 + (i % 10 + zero_char) - zero_char) % 2 ^ 32) s
        else i / 10)
      digit
    ∙ ap (λ x. atoi_loop x s) (omega arith)

-- The digits of `i` read as `i`, whatever stands behind them.
atoi_loop-digits :
    (fuel i : ℕ) (s : List ℕ)
    → i ≤ fuel
    → i < 2 ^ 31
    → atoi_loop 0 (digits_loop fuel i ++ s) ≡ atoi_loop i s
atoi_loop-digits zero i s le lt =
    ap (λ l. atoi_loop 0 (l ++ s)) (digits_loop-nil i) ∙ ap (λ x. atoi_loop x s) (omega arith)
atoi_loop-digits (suc fuel) i s le lt = elim (Bool-cases (i == 0)) [
  | inl t ↦ ap (atoi_loop 0) (digits_loop-zero fuel i s t) ∙ ap (λ x. atoi_loop x s) (ground arith)
  | inr f ↦
      ap (atoi_loop 0) (digits_loop-suc fuel i s f)
      ∙ atoi_loop-digits fuel (i / 10) ((i % 10 + zero_char) ∷ s) (ground arith) (omega arith)
      ∙ digit_step i s lt
]

skip_spaces-digits :
    (fuel i c : ℕ) (s : List ℕ)
    → is_digit c ≡ true
    → skip_spaces (digits_loop fuel i ++ (c ∷ s)) ≡ digits_loop fuel i ++ (c ∷ s)
skip_spaces-digits zero i c s d =
    ap (λ l. skip_spaces (l ++ (c ∷ s))) (digits_loop-nil i)
    ∙ skip_spaces-digit c s d
    ∙ sym (ap (λ l. l ++ (c ∷ s)) (digits_loop-nil i))
skip_spaces-digits (suc fuel) i c s d = elim (Bool-cases (i == 0)) [
  | inl t ↦
      let is = digits_loop-zero fuel i (c ∷ s) t in
      ap skip_spaces is ∙ skip_spaces-digit c s d ∙ sym is
  | inr f ↦
      let is = digits_loop-suc fuel i (c ∷ s) f in
      ap skip_spaces is
      ∙ skip_spaces-digits fuel (i / 10) (i % 10 + zero_char) (c ∷ s) (ground arith)
      ∙ sym is
]

-- A positive `int` has a last digit.
itoa-digits :
    (n : ℕ) → itoa (pos (suc n)) ≡ digits_loop n (suc n / 10) ++ ((suc n % 10 + zero_char) ∷ [])
unfolding itoa
itoa-digits n =
    sym (append-nil (digits_loop (suc n) (suc n))) ∙ digits_loop-suc n (suc n) [] (ground arith)

-- `atoi` reads back what `itoa` writes for an `int` that is not negative.
pub atoi-itoa : (n : ℕ) → n < 2 ^ 31 → atoi (itoa (pos n)) ≡ n
unfolding atoi
atoi-itoa zero lt = atoi-zero
atoi-itoa (suc n) lt =
    let d : List ℕ = (suc n % 10 + zero_char) ∷ [] in
    ap (λ s. atoi_loop 0 (skip_spaces s)) (itoa-digits n)
    ∙ ap (atoi_loop 0)
        (skip_spaces-digits n (suc n / 10) (suc n % 10 + zero_char) [] (ground arith))
    ∙ atoi_loop-digits n (suc n / 10) d (omega arith) (omega arith)
    ∙ digit_step (suc n) [] lt
    ∙ atoi_loop-nil (suc n)
