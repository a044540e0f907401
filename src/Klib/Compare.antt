-- ===== src/Klib/Compare.antt =====
-- `strcmp` and `strncmp` of kernel/klib.c.
use zrhos.Base.{
  Bool-cases, inl, inr, get_or, ap₂, ◌≢◌, drop, sym, ℕ_discrete, ℕ, zero, suc, ◌<◌, ◌≡◌, ◌↔◌, refl,
  ap, ◌∙◌, Bool, true, false, not, ◌&&◌, Option, none, some, List, [], ◌∷◌, ◌++◌, arith, ◌==◌,
  if◌then◌else◌, take,
}
use zrhos.Base.Int.{ℤ, pos, sub_ℕ}
use zrhos.Klib.Strings.{NonZero}

-- The part behind the loops, at the bytes where they end.
abbrev pub difference : ℕ → ℕ → ℤ
difference a b = if (a == 0) && (b == 0) then pos 0 else sub_ℕ a b

-- The test of the loops.
abbrev pub continues : ℕ → ℕ → Bool
continues a b = not (b == 0) && (not (a == 0) && (a == b))

unfoldable pub strcmp : List ℕ → List ℕ → Option ℤ
strcmp [] t = none
strcmp (a ∷ s) [] = none
strcmp (a ∷ s) (b ∷ t) =
    let rest = strcmp s t in if continues a b then rest else some (difference a b)

-- `n-->0` is the last test of the loop.
unfoldable pub strncmp : List ℕ → List ℕ → ℕ → Option ℤ
strncmp [] t n = none
strncmp (a ∷ s) [] n = none
strncmp (a ∷ s) (b ∷ t) zero = some (difference a b)
strncmp (a ∷ s) (b ∷ t) (suc n) =
    let rest = strncmp s t n in if continues a b then rest else some (difference a b)

sub_ℕ-zero : (a b : ℕ) → (sub_ℕ a b ≡ pos 0) → a ≡ b
sub_ℕ-zero zero zero h = refl
sub_ℕ-zero (suc a) zero h = cc
sub_ℕ-zero zero (suc b) h = cc
sub_ℕ-zero (suc a) (suc b) h = ap suc (sub_ℕ-zero a b h)

sub_ℕ-self : (a : ℕ) → sub_ℕ a a ≡ pos 0
sub_ℕ-self zero = refl
sub_ℕ-self (suc a) = sub_ℕ-self a

difference-zero : (a b : ℕ) → (difference a b ≡ pos 0) ↔ (a ≡ b)
difference-zero a b = elim (Bool-cases ((a == 0) && (b == 0))) [
  | inl t ↦ (λ h. ground arith, λ e. ap (λ c. if c then pos 0 else sub_ℕ a b) t)
  | inr f ↦
      let is : difference a b ≡ sub_ℕ a b = ap (λ c. if c then pos 0 else sub_ℕ a b) f in
      (λ h. sub_ℕ-zero a b (sym is ∙ h), λ e. is ∙ ap (sub_ℕ a) (sym e) ∙ sub_ℕ-self a)
]

stops : (a b : ℕ) → a ≢ b → continues a b ≡ false
stops a b ne = ground arith

goes_on : (a b : ℕ) → 0 < a → a ≡ b → continues a b ≡ true
goes_on a b h e = ground arith

-- What is claimed of a comparison: it has a result, which is 0 exactly when `P` holds.
abbrev pub IsZeroIff : Type 0 → Option ℤ → Type 0
IsZeroIff P o = (z : ℤ) × (o ≡ some z) × ((z ≡ pos 0) ↔ P)

abbrev front : List ℕ → ℕ
front s = get_or s 0 0

-- Two lists that the comparison tells apart at once.
apart :
    (a b : ℕ) (s t : List ℕ) (o : Option ℤ)
    → a ≢ b
    → front s ≡ a
    → front t ≡ b
    → o ≡ some (difference a b)
    → IsZeroIff (s ≡ t) o
apart a b s t o ne es et is = (
  difference a b,
  is,
  (λ h. absurd (ne ((difference-zero a b).0 h)), λ e. absurd (ne (sym es ∙ ap front e ∙ et))),
)

more :
    (a b : ℕ) (s t : List ℕ) (o o' : Option ℤ)
    → a ≡ b
    → o ≡ o'
    → IsZeroIff (s ≡ t) o'
    → IsZeroIff ((a ∷ s) ≡ (b ∷ t)) o
more a b s t o o' same e (z, is, iff) =
    (z, e ∙ is, (λ h. ap₂ (λ x l. x ∷ l) same (iff.0 h), λ h. iff.1 (ap (drop 1) h)))

-- `strcmp` of two strings answers 0 exactly when they are equal.
pub strcmp-zero :
    (s t r q : List ℕ)
    → NonZero s
    → NonZero t
    → IsZeroIff (s ≡ t) (strcmp (s ++ (0 ∷ r)) (t ++ (0 ∷ q)))
unfolding strcmp
strcmp-zero [] [] r q ns nt = (pos 0, refl, (λ h. refl, λ e. refl))
strcmp-zero [] (b ∷ t) r q ns (hb, nt) = apart 0 b [] (b ∷ t) _ (omega arith) refl refl (
    ap (λ c. if c then strcmp r (t ++ (0 ∷ q)) else some (difference 0 b))
      (stops 0 b (omega arith)))
strcmp-zero (a ∷ s) [] r q (ha, ns) nt = apart a 0 (a ∷ s) [] _ (omega arith) refl refl (
    ap (λ c. if c then strcmp (s ++ (0 ∷ r)) q else some (difference a 0))
      (stops a 0 (omega arith)))
strcmp-zero (a ∷ s) (b ∷ t) r q (ha, ns) (hb, nt) = elim (ℕ_discrete a b) [
  | yes same ↦
      more a b s t _ _ same
        (ap (λ c. if c then strcmp (s ++ (0 ∷ r)) (t ++ (0 ∷ q)) else some (difference a b))
          (goes_on a b ha same))
        (strcmp-zero s t r q ns nt)
  | no other ↦ apart a b (a ∷ s) (b ∷ t) _ other refl refl (
      ap (λ c. if c then strcmp (s ++ (0 ∷ r)) (t ++ (0 ∷ q)) else some (difference a b))
        (stops a b other))
]

-- `strncmp` of two strings answers 0 exactly when their first `n + 1` bytes are equal: it looks at
-- one byte too many.
pub strncmp-zero :
    (s t r q : List ℕ) (n : ℕ)
    → NonZero s
    → NonZero t
    → IsZeroIff (take (suc n) s ≡ take (suc n) t) (strncmp (s ++ (0 ∷ r)) (t ++ (0 ∷ q)) n)
unfolding strncmp
strncmp-zero [] [] r q zero ns nt = (pos 0, refl, (λ h. refl, λ e. refl))
strncmp-zero [] [] r q (suc n) ns nt = (pos 0, refl, (λ h. refl, λ e. refl))
strncmp-zero [] (b ∷ t) r q zero ns (hb, nt) = apart 0 b [] (b ∷ []) _ (omega arith) refl refl refl
strncmp-zero [] (b ∷ t) r q (suc n) ns (hb, nt) =
    apart 0 b [] (b ∷ take (suc n) t) _ (omega arith) refl refl (
      ap (λ c. if c then strncmp r (t ++ (0 ∷ q)) n else some (difference 0 b))
        (stops 0 b (omega arith)))
strncmp-zero (a ∷ s) [] r q zero (ha, ns) nt = apart a 0 (a ∷ []) [] _ (omega arith) refl refl refl
strncmp-zero (a ∷ s) [] r q (suc n) (ha, ns) nt =
    apart a 0 (a ∷ take (suc n) s) [] _ (omega arith) refl refl (
      ap (λ c. if c then strncmp (s ++ (0 ∷ r)) q n else some (difference a 0))
        (stops a 0 (omega arith)))
strncmp-zero (a ∷ s) (b ∷ t) r q zero (ha, ns) (hb, nt) = elim (ℕ_discrete a b) [
  | yes same ↦
      (difference a b, refl, (λ h. ap (λ x. x ∷ []) same, λ h. (difference-zero a b).1 same))
  | no other ↦ apart a b (a ∷ []) (b ∷ []) _ other refl refl refl
]
strncmp-zero (a ∷ s) (b ∷ t) r q (suc n) (ha, ns) (hb, nt) = elim (ℕ_discrete a b) [
  | yes same ↦
      more a b (take (suc n) s) (take (suc n) t) _ _ same
        (ap (λ c. if c then strncmp (s ++ (0 ∷ r)) (t ++ (0 ∷ q)) n else some (difference a b))
          (goes_on a b ha same))
        (strncmp-zero s t r q n ns nt)
  | no other ↦ apart a b (a ∷ take (suc n) s) (b ∷ take (suc n) t) _ other refl refl (
      ap (λ c. if c then strncmp (s ++ (0 ∷ r)) (t ++ (0 ∷ q)) n else some (difference a b))
        (stops a b other))
]
