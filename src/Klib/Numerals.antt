-- ===== src/Klib/Numerals.antt =====
-- What the digits of a number are in a base, whatever loop writes them.
use zrhos.Base.{
  ℕ, zero, suc, ◌+◌, ◌*◌, ◌/◌, ◌%◌, ◌≤◌, ◌<◌, ◌≡◌, refl, sym, ap, ◌∙◌, Bool, false, List, [], ◌∷◌,
  ◌++◌, ◌==◌, if◌then◌else◌, All, arith, Bool-cases, List-cases, inl, inr,
}

module _ (base : ℕ) (char digit : ℕ → ℕ) where
  -- The number that the characters stand for, behind those of `x`.
  unfoldable pub value : ℕ → List ℕ → ℕ
  value x [] = x
  value x (c ∷ l) = value (x * base + digit c) l

  abbrev pub IsDigit : ℕ → Type 0
  IsDigit c = (digit c < base) × (char (digit c) ≡ c)

  abbrev pub starts_zero : List ℕ → Bool
  starts_zero [] = false
  starts_zero (c ∷ l) = digit c == 0

  -- `l` has digits only, they stand for `n`, and the first one is not 0.
  abbrev pub IsNumeral : ℕ → List ℕ → Type 0
  IsNumeral n l = (value 0 l ≡ n) × All IsDigit l × (starts_zero l ≡ false)

  -- The loop from the last digit, and the copy in the other direction.
  unfoldable pub numeral : ℕ → ℕ → List ℕ
  numeral zero i = []
  numeral (suc fuel) i =
      let rest = numeral fuel (i / base) in if i == 0 then [] else rest ++ (char (i % base) ∷ [])

  value-append : (x : ℕ) (l m : List ℕ) → value x (l ++ m) ≡ value (value x l) m
  unfolding value
  value-append x [] m = refl
  value-append x (c ∷ l) m = value-append (x * base + digit c) l m

  value-one : (x c : ℕ) → value x (c ∷ []) ≡ x * base + digit c
  unfolding value
  value-one x c = refl

  value-nil : (x : ℕ) → value x [] ≡ x
  unfolding value
  value-nil x = refl

  All-append : (l : List ℕ) (c : ℕ) → All IsDigit l → IsDigit c → All IsDigit (l ++ (c ∷ []))
  All-append [] c h d = (d, tt)
  All-append (x ∷ l) c (here, h) d = (here, All-append l c h d)

  module _ (split : (i : ℕ) → i / base * base + i % base ≡ i)
      (less : (i : ℕ) → (i == 0) ≡ false → i / base < i) (small : (i : ℕ) → i % base < base)
      (back : (r : ℕ) → r < base → digit (char r) ≡ r) where
    numeral-value : (fuel i : ℕ) → i ≤ fuel → value 0 (numeral fuel i) ≡ i
    unfolding numeral
    numeral-value zero i le = value-nil 0 ∙ omega arith
    numeral-value (suc fuel) i le = elim (Bool-cases (i == 0)) [
      | inl y ↦ rw y (value-nil 0 ∙ ground arith)
      | inr g ↦
          let lt = less i g in
          rw g (
            value-append 0 (numeral fuel (i / base)) (char (i % base) ∷ [])
            ∙ value-one (value 0 (numeral fuel (i / base))) (char (i % base))
            ∙ ap (λ x. x * base + digit (char (i % base)))
                (numeral-value fuel (i / base) (omega (arith, lt)))
            ∙ ap (λ x. i / base * base + x) (back (i % base) (small i))
            ∙ split i)
    ]

    numeral-IsDigit : (fuel i : ℕ) → All IsDigit (numeral fuel i)
    unfolding numeral
    numeral-IsDigit zero i = tt
    numeral-IsDigit (suc fuel) i = elim (Bool-cases (i == 0)) [
      | inl y ↦ rw y tt
      | inr g ↦
          let r = back (i % base) (small i) in
          let lt = small i in
          rw g (
            All-append (numeral fuel (i / base)) (char (i % base)) (numeral-IsDigit fuel (i / base))
              (omega (arith, r, lt), ap char r))
    ]

    numeral-starts : (fuel i : ℕ) → i ≤ fuel → starts_zero (numeral fuel i) ≡ false
    unfolding numeral
    numeral-starts zero i le = refl
    numeral-starts (suc fuel) i le = elim (Bool-cases (i == 0)) [
      | inl y ↦ rw y refl
      | inr g ↦
          let lt = less i g in
          let before = numeral-value fuel (i / base) (omega (arith, lt)) in
          let first = numeral-starts fuel (i / base) (omega (arith, lt)) in
          rw g (elim (List-cases (numeral fuel (i / base))) [
            | inl e ↦
                let high : 0 ≡ i / base = sym (ap (value 0) e ∙ value-nil 0) ∙ before in
                let low = ap (λ x. x * base + i % base) high ∙ split i in
                let r = back (i % base) (small i) in rw e (ground (arith, g, low, r))
            | inr (c, l, e) ↦ rw e (sym (ap starts_zero e) ∙ first)
          ])
    ]

    pub numeral-IsNumeral : (fuel i : ℕ) → i ≤ fuel → IsNumeral i (numeral fuel i)
    numeral-IsNumeral fuel i le =
        (numeral-value fuel i le, numeral-IsDigit fuel i, numeral-starts fuel i le)
