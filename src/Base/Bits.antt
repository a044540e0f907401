-- ===== src/Base/Bits.antt =====
-- Single bits of a byte: the masks `1 << k` of the free map, checked on every value.
use Prim.Native.Nat.{ℕ, zero, suc, ◌-◌, ◌^◌, ◌<◌, bit_and, bit_or}
use mathlib.Core.Path.{◌≡◌, refl}
use mathlib.Core.Bool.{Bool, true, false, not, ◌&&◌}
use native.Mathlib.Omega.{arith}
use native.Mathlib.Decide.{dec_le}
use mathlib.Core.Logic.{inl, inr}
use zrhos.Base.Tests.{Bool-cases, ◌==◌, if◌then◌else◌, ltb}

-- `(x & (1 << k)) != 0`
abbrev pub has_bit : ℕ → ℕ → Bool
has_bit x k = not (bit_and x (2 ^ k) == 0)

-- `x | (1 << k)`
abbrev pub with_bit : ℕ → ℕ → ℕ
with_bit x k = bit_or x (2 ^ k)

-- `x & ~(1 << k)`, where the complement is that of an `unsigned int`
abbrev pub without_bit : ℕ → ℕ → ℕ
without_bit x k = bit_and x (2 ^ 32 - 1 - 2 ^ k)

-- A test that holds of every number below a limit.
every : (ℕ → Bool) → ℕ → Bool
every test zero = true
every test (suc limit) = let below = every test limit in if test limit then below else false

every-at : (test : ℕ → Bool) (k limit : ℕ) → k < limit → every test limit ≡ true → test k ≡ true
unfolding every
every-at test k zero lt t = absurd (omega arith)
every-at test k (suc limit) lt t = elim (dec_le limit k) [
  | yes top ↦
      let here : k ≡ limit = omega arith in
      rw here (elim (Bool-cases (test limit)) [
        | inl yes_here ↦ yes_here
        | inr no_here ↦ absurd (ground arith)
      ])
  | no under ↦ every-at test k limit (omega arith) (ground arith)
]

eqb : Bool → Bool → Bool
eqb true b = b
eqb false b = not b

eqb_sound : (a b : Bool) → eqb a b ≡ true → a ≡ b
unfolding eqb
eqb_sound true b h = ground arith
eqb_sound false b h = ground arith

and_left : (a b : Bool) → a && b ≡ true → a ≡ true
and_left a b h = ground arith

and_right : (a b : Bool) → a && b ≡ true → b ≡ true
and_right a b h = ground arith

lt_of_ltb : (a : ℕ) → ltb a 256 ≡ true → a < 256
lt_of_ltb a h = ground arith

set_row : ℕ → ℕ → ℕ → Bool
set_row x k j =
    eqb (has_bit (with_bit x k) j) (if k == j then true else has_bit x j) && ltb (with_bit x k) 256

clear_row : ℕ → ℕ → ℕ → Bool
clear_row x k j =
    eqb (has_bit (without_bit x k) j) (if k == j then false else has_bit x j)
    && ltb (without_bit x k) 256

set_table : every (λ x. every (λ k. every (set_row x k) 8) 8) 256 ≡ true
unfolding every set_row eqb
set_table = refl

clear_table : every (λ x. every (λ k. every (clear_row x k) 8) 8) 256 ≡ true
unfolding every clear_row eqb
clear_table = refl

module _ (x k j : ℕ) (hx : x < 256) (hk : k < 8) (hj : j < 8) where
  set_row-true : set_row x k j ≡ true
  set_row-true = every-at (set_row x k) j 8 hj (
      every-at (λ k. every (set_row x k) 8) k 8 hk
        (every-at (λ x. every (λ k. every (set_row x k) 8) 8) x 256 hx set_table))

  clear_row-true : clear_row x k j ≡ true
  clear_row-true = every-at (clear_row x k) j 8 hj (
      every-at (λ k. every (clear_row x k) 8) k 8 hk
        (every-at (λ x. every (λ k. every (clear_row x k) 8) 8) x 256 hx clear_table))

  pub has_bit-with_bit : has_bit (with_bit x k) j ≡ (if k == j then true else has_bit x j)
  unfolding set_row
  has_bit-with_bit = eqb_sound _ _ (and_left _ _ set_row-true)

  pub has_bit-without_bit : has_bit (without_bit x k) j ≡ (if k == j then false else has_bit x j)
  unfolding clear_row
  has_bit-without_bit = eqb_sound _ _ (and_left _ _ clear_row-true)

module _ (x k : ℕ) (hx : x < 256) (hk : k < 8) where
  pub with_bit-lt : with_bit x k < 256
  unfolding set_row
  with_bit-lt = lt_of_ltb (with_bit x k) (and_right _ _ (set_row-true x k 0 hx hk (omega arith)))

  pub without_bit-lt : without_bit x k < 256
  unfolding clear_row
  without_bit-lt =
      lt_of_ltb (without_bit x k) (and_right _ _ (clear_row-true x k 0 hx hk (omega arith)))
