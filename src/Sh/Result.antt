-- ===== src/Sh/Result.antt =====
-- How a parsing function ends: with a value, with the exit of `panic`, or not within its fuel.
pub data Result {ℓ} (A : Type ℓ) : Type ℓ where
  ok : A → Result A
  panics : Result A
  out_of_fuel : Result A

infixl 5 ◌>>=◌
abbrev pub ◌>>=◌ {ℓ κ} : {A : Type ℓ} {B : Type κ} → Result A → (A → Result B) → Result B
ok a >>= f = f a
panics >>= f = panics
out_of_fuel >>= f = out_of_fuel
