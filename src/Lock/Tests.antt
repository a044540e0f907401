-- ===== src/Lock/Tests.antt =====
-- Runs of the locks, and the theorems at concrete states.
use zrhos.Base.{ℕ, ◌≡◌, ◌≢◌, refl, true, false, some, List, [], ◌∷◌}
use zrhos.Base.Int.{pos, negsuc}
use zrhos.Lock.Semaphore.{
  Semaphore, Acquired, Released, lm_P, lm_V, take_tail, lm_P-acquire, lm_V-release,
}
use zrhos.Lock.Nesting.{Cpu, Nest, done, bracket}
use zrhos.Lock.Spin.{
  Place, inside, panicked, owns, step, holding, move, mutual_exclusion, never_panics,
}
use zrhos.Lock.Spin

abbrev free : Semaphore
free = record { value = pos 1; queue = [] }

-- task 7 holds the unit, 8 and then 9 wait
abbrev crowded : Semaphore
crowded = record { value = negsuc 1; queue = 9 ∷ 8 ∷ [] }

crowd : (lm_P 9 (lm_P 8 (lm_P 7 free).0).0).0 ≡ crowded
unfolding lm_P
crowd = refl

wakes_eight : lm_V crowded ≡ some (record { value = negsuc 0; queue = 9 ∷ [] }, some 8)
unfolding lm_V take_tail
wakes_eight = refl

lm_P-acquire_example : Acquired 10 crowded
lm_P-acquire_example = lm_P-acquire 10 crowded refl

lm_V-release_example : Released crowded
lm_V-release_example = lm_V-release crowded refl

abbrev running : Cpu
running = record { noff = 0; intena = false; intr = true }

abbrev nested : Nest
nested = bracket (bracket done done) (bracket done done)

-- CPU 1 takes the lock; CPU 0 spins
abbrev contended : List ℕ
contended = 0 ∷ 1 ∷ 1 ∷ 1 ∷ 0 ∷ []

contended_lem : (Spin.run contended).place 1 ≡ inside
unfolding Spin.run move step holding
contended_lem = refl

owner : owns ((Spin.run contended).place 1) ≡ true
unfolding Spin.run move step holding
owner = refl

mutual_exclusion_example : ◌≡◌ {A = ℕ} 1 1
mutual_exclusion_example = mutual_exclusion contended 1 1 owner owner

never_panics_example : (Spin.run contended).place 0 ≢ panicked
never_panics_example = never_panics contended 0
