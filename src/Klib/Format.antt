-- ===== src/Klib/Format.antt =====
-- `vsprintf` of kernel/klib.c. `kernel_debug` is 1 and never changes.
use zrhos.Base.{
  ℕ, zero, suc, ◌+◌, ◌-◌, ◌/◌, ◌%◌, ◌^◌, subst, Bool-cases, inl, inr, arith, ◌≡◌, refl, ap, ◌∙◌,
  false, Option, none, some, List, [], ◌∷◌, ◌++◌, ◌==◌, ltb, if◌then◌else◌, drop,
}
use zrhos.Base.Int.{ℤ, pos, negsuc}
use zrhos.Klib.Numbers.{itoa, digits_loop}
use zrhos.Klib.Numerals.{value, IsNumeral, numeral, numeral-IsNumeral}

-- An argument: an `int`, a string up to its final 0, or an `unsigned long`.
pub data Arg : Type 0 where
  int_arg : ℤ → Arg
  string_arg : List ℕ → Arg
  long_arg : ℕ → Arg

abbrev pub percent : ℕ
percent = 37

abbrev pub hex_digit : ℕ → ℕ
hex_digit n = if ltb n 10 then n + 48 else n + 97 - 10

-- The loop `while (i > 0)` of `%p`, and the copy from the last digit to the first.
unfoldable pub hex_loop : ℕ → ℕ → List ℕ
hex_loop zero i = []
hex_loop (suc rounds) i =
    let rest = hex_loop rounds (i / 16) in if i == 0 then [] else rest ++ (hex_digit (i % 16) ∷ [])

abbrev pub prepend : List ℕ → Option (List ℕ) → Option (List ℕ)
prepend l none = none
prepend l (some m) = some (l ++ m)

-- The text for one argument; an argument of another type than the directive wants is `none`.
abbrev pub show_int : List Arg → Option (List ℕ) → Option (List ℕ)
show_int (int_arg z ∷ args) after = prepend (itoa z) after
show_int _ after = none

abbrev pub show_string : List Arg → Option (List ℕ) → Option (List ℕ)
show_string (string_arg s ∷ args) after = prepend s after
show_string _ after = none

abbrev pub show_pointer : List Arg → Option (List ℕ) → Option (List ℕ)
show_pointer (long_arg n ∷ args) after = prepend (48 ∷ 120 ∷ hex_loop n n) after
show_pointer _ after = none

-- The character behind '%'. `after` goes on behind the argument, `same` without one.
abbrev pub directive : ℕ → List Arg → Option (List ℕ) → Option (List ℕ) → Option (List ℕ)
directive d args after same =
    if d == 100
    then show_int args after
    else if d == 115
    then show_string args after
    else if d == 112
    then show_pointer args after
    else same

-- The characters before the final 0, for a format up to its final 0. With a '%' at its end the loop
-- runs on behind the format, which is `none`.
unfoldable pub vsprintf : List ℕ → List Arg → Option (List ℕ)
vsprintf [] args = some []
vsprintf (c ∷ []) args = if c == percent then none else some (c ∷ [])
vsprintf (c ∷ d ∷ p) args =
    let next = vsprintf (d ∷ p) args in
    let after = vsprintf p (drop 1 args) in
    let same = vsprintf p args in
    if c == percent then directive d args after same else prepend (c ∷ []) next

-- What a format stands for: characters that are printed as they are, and arguments.
pub data Piece : Type 0 where
  literal : (c : ℕ) → (c == percent) ≡ false → Piece
  decimal : ℤ → Piece
  string : List ℕ → Piece
  pointer : ℕ → Piece

pub format_of : List Piece → List ℕ
format_of [] = []
format_of (literal c h ∷ ps) = c ∷ format_of ps
format_of (decimal z ∷ ps) = percent ∷ 100 ∷ format_of ps
format_of (string s ∷ ps) = percent ∷ 115 ∷ format_of ps
format_of (pointer n ∷ ps) = percent ∷ 112 ∷ format_of ps

pub args_of : List Piece → List Arg
args_of [] = []
args_of (literal c h ∷ ps) = args_of ps
args_of (decimal z ∷ ps) = int_arg z ∷ args_of ps
args_of (string s ∷ ps) = string_arg s ∷ args_of ps
args_of (pointer n ∷ ps) = long_arg n ∷ args_of ps

text_of : List Piece → List ℕ
text_of [] = []
text_of (literal c h ∷ ps) = c ∷ text_of ps
text_of (decimal z ∷ ps) = itoa z ++ text_of ps
text_of (string s ∷ ps) = s ++ text_of ps
text_of (pointer n ∷ ps) = (48 ∷ 120 ∷ hex_loop n n) ++ text_of ps

vsprintf-literal :
    (c : ℕ) (p : List ℕ) (args : List Arg)
    → (c == percent) ≡ false
    → vsprintf (c ∷ p) args ≡ prepend (c ∷ []) (vsprintf p args)
unfolding vsprintf
vsprintf-literal c [] args f = ap (λ b. if b then none else some (c ∷ [])) f
vsprintf-literal c (d ∷ p) args f =
    ap
      (λ b.
        if b
        then directive d args (vsprintf p (drop 1 args)) (vsprintf p args)
        else prepend (c ∷ []) (vsprintf (d ∷ p) args))
      f

vsprintf-text_of : (ps : List Piece) → vsprintf (format_of ps) (args_of ps) ≡ some (text_of ps)
unfolding format_of args_of text_of vsprintf
vsprintf-text_of [] = refl
vsprintf-text_of (literal c h ∷ ps) =
    vsprintf-literal c (format_of ps) (args_of ps) h ∙ ap (prepend (c ∷ [])) (vsprintf-text_of ps)
vsprintf-text_of (decimal z ∷ ps) = ap (prepend (itoa z)) (vsprintf-text_of ps)
vsprintf-text_of (string s ∷ ps) = ap (prepend s) (vsprintf-text_of ps)
vsprintf-text_of (pointer n ∷ ps) = ap (prepend (48 ∷ 120 ∷ hex_loop n n)) (vsprintf-text_of ps)

-- The characters of the decimal and of the hexadecimal digits, and their values.
abbrev pub dec_char : ℕ → ℕ
dec_char n = n + 48

abbrev pub dec_value : ℕ → ℕ
dec_value c = c - 48

abbrev pub hex_value : ℕ → ℕ
hex_value c = if ltb c 58 then c - 48 else c - 87

-- What is printed for a piece: a number in its digits, with a '-' or behind "0x"; the text for INT_MIN lacks its
-- last digit, and the pointer 0 has none.
pub IsText : Piece → List ℕ → Type 0
IsText (literal c h) t = t ≡ c ∷ []
IsText (decimal (pos zero)) t = t ≡ 48 ∷ []
IsText (decimal (pos (suc n))) t = IsNumeral 10 dec_char dec_value (suc n) t
IsText (decimal (negsuc n)) t =
    (ds : List ℕ) × (t ≡ 45 ∷ ds)
    × IsNumeral 10 dec_char dec_value (if suc n == 2 ^ 31 then 214748364 else suc n) ds
IsText (string s) t = t ≡ s
IsText (pointer n) t = (ds : List ℕ) × (t ≡ 48 ∷ 120 ∷ ds) × IsNumeral 16 hex_digit hex_value n ds

pub IsTextOf : List Piece → List ℕ → Type 0
IsTextOf [] t = t ≡ []
IsTextOf (p ∷ ps) t = (l m : List ℕ) × (t ≡ l ++ m) × IsText p l × IsTextOf ps m

digits_loop-numeral : (fuel i : ℕ) → numeral 10 dec_char dec_value fuel i ≡ digits_loop fuel i
unfolding numeral digits_loop
digits_loop-numeral zero i = refl
digits_loop-numeral (suc fuel) i =
    ap (λ l. if i == 0 then [] else l ++ ((i % 10 + 48) ∷ [])) (digits_loop-numeral fuel (i / 10))

hex_loop-numeral : (fuel i : ℕ) → numeral 16 hex_digit hex_value fuel i ≡ hex_loop fuel i
unfolding numeral hex_loop
hex_loop-numeral zero i = refl
hex_loop-numeral (suc fuel) i =
    ap (λ l. if i == 0 then [] else l ++ (hex_digit (i % 16) ∷ [])) (hex_loop-numeral fuel (i / 16))

digits-IsNumeral : (n : ℕ) → IsNumeral 10 dec_char dec_value n (digits_loop n n)
digits-IsNumeral n = subst (IsNumeral 10 dec_char dec_value n) (digits_loop-numeral n n) (
    numeral-IsNumeral 10 dec_char dec_value (λ i. omega arith) (λ i g. ground arith)
      (λ i. omega arith) (λ r lt. omega arith) n n (omega arith))

hex-IsNumeral : (n : ℕ) → IsNumeral 16 hex_digit hex_value n (hex_loop n n)
hex-IsNumeral n = subst (IsNumeral 16 hex_digit hex_value n) (hex_loop-numeral n n) (
    numeral-IsNumeral 16 hex_digit hex_value (λ i. omega arith) (λ i g. ground arith)
      (λ i. omega arith) (λ r lt. ground arith) n n (omega arith))

int_min-IsNumeral :
    IsNumeral 10 dec_char dec_value 214748364 (50 ∷ 49 ∷ 52 ∷ 55 ∷ 52 ∷ 56 ∷ 51 ∷ 54 ∷ 52 ∷ [])
unfolding value
int_min-IsNumeral = (
  refl,
  (
    (omega arith, refl),
    (
      (omega arith, refl),
      (
        (omega arith, refl),
        (
          (omega arith, refl),
          (
            (omega arith, refl),
            (
              (omega arith, refl),
              ((omega arith, refl), ((omega arith, refl), ((omega arith, refl), tt))),
            ),
          ),
        ),
      ),
    ),
  ),
  refl,
)

itoa-IsText : (z : ℤ) → IsText (decimal z) (itoa z)
unfolding itoa IsText
itoa-IsText (pos zero) = refl
itoa-IsText (pos (suc n)) = digits-IsNumeral (suc n)
itoa-IsText (negsuc n) = elim (Bool-cases (suc n == 2 ^ 31)) [
  | inl y ↦ rw y (50 ∷ 49 ∷ 52 ∷ 55 ∷ 52 ∷ 56 ∷ 51 ∷ 54 ∷ 52 ∷ [], refl, int_min-IsNumeral)
  | inr g ↦ rw g (digits_loop (suc n) (suc n), refl, digits-IsNumeral (suc n))
]

text_of-IsTextOf : (ps : List Piece) → IsTextOf ps (text_of ps)
unfolding text_of IsTextOf IsText
text_of-IsTextOf [] = refl
text_of-IsTextOf (literal c h ∷ ps) = (c ∷ [], text_of ps, refl, refl, text_of-IsTextOf ps)
text_of-IsTextOf (decimal z ∷ ps) = (itoa z, text_of ps, refl, itoa-IsText z, text_of-IsTextOf ps)
text_of-IsTextOf (string s ∷ ps) = (s, text_of ps, refl, refl, text_of-IsTextOf ps)
text_of-IsTextOf (pointer n ∷ ps) = (
  48 ∷ 120 ∷ hex_loop n n,
  text_of ps,
  refl,
  (hex_loop n n, refl, hex-IsNumeral n),
  text_of-IsTextOf ps,
)

-- `vsprintf` on the format and the arguments of any list of pieces writes their texts in order: a character or
-- a string as it is, an `int` in its decimal digits with a '-' when it is negative, except that the last digit of
-- INT_MIN is missing, and a pointer as "0x" with its hexadecimal digits; no number starts with a 0 but 0 itself.
pub vsprintf-IsTextOf :
    (ps : List Piece)
    → (t : List ℕ) × (vsprintf (format_of ps) (args_of ps) ≡ some t) × IsTextOf ps t
vsprintf-IsTextOf ps = (text_of ps, vsprintf-text_of ps, text_of-IsTextOf ps)
