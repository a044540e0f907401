-- ===== src/Lock/Spin.antt =====
-- `lm_lock`, `lm_unlock` and `holding` of kernel/lock.c: one spin lock and any number of CPUs. Each
-- atomic access is a step, and the CPUs step in any order.
use zrhos.Base.{
  ℕ, ◌≡◌, ◌≢◌, refl, Bool, true, false, ◌&&◌, Option, none, some, arith, ◌==◌, if◌then◌else◌, List,
}

-- `lm_lock_t`; `cpu` is `none` for -1.
pub record Lock : Type 0 where
  pub locked : Bool
  pub cpu : Option ℕ

-- Where a CPU stands. `panicked` is the loop in `panic`.
pub data Place : Type 0 where
  outside : Place
  spinning : Place
  swapped : Place
  inside : Place
  unlocking : Place
  panicked : Place

abbrev pub is_cpu : Option ℕ → ℕ → Bool
is_cpu none i = false
is_cpu (some j) i = j == i

unfoldable pub holding : Lock → ℕ → Bool
holding l i = l.locked && is_cpu l.cpu i

-- `lm_lock_init`
abbrev pub lm_lockinit : Lock
lm_lockinit = record { locked = false; cpu = none }

-- The next step of CPU `i`, which stands at the given place: the lock after it, and its new place.
unfoldable pub step : ℕ → Place → Lock → Lock × Place
-- `lm_lock`, up to the test that the CPU does not hold the lock already
step i outside l = (l, if holding l i then panicked else spinning)
-- one round of the atomic swap
step i spinning l = (record l { locked = true }, if l.locked then spinning else swapped)
-- `lk->cpu = cpuid()`
step i swapped l = (record l { cpu = some i }, inside)
-- `lm_unlock`, up to `lk->cpu = -1`
step i inside l = if holding l i then (record l { cpu = none }, unlocking) else (l, panicked)
-- `__sync_lock_release`
step i unlocking l = (record l { locked = false }, outside)
step i panicked l = (l, panicked)

pub record System : Type 0 where
  pub lock : Lock
  pub place : ℕ → Place

abbrev pub update : (ℕ → Place) → ℕ → Place → ℕ → Place
update f i p j = if i == j then p else f j

unfoldable pub move : ℕ → System → System
move i s = let (l, p) = step i (s.place i) s.lock in record { lock = l; place = update s.place i p }

abbrev pub init : System
init = record { lock = lm_lockinit; place = λ _. outside }

unfoldable pub run : List ℕ → System
run List.[] = init
run (List.◌∷◌ i schedule) = move i (run schedule)

-- Between the swap that takes the lock and the store that gives it back.
abbrev pub owns : Place → Bool
owns swapped = true
owns inside = true
owns unlocking = true
owns _ = false

pub record Inv (s : System) : Type 0 where
  pub unique : (i j : ℕ) → owns (s.place i) ≡ true → owns (s.place j) ≡ true → i ≡ j
  pub taken : (i : ℕ) → owns (s.place i) ≡ true → s.lock.locked ≡ true
  pub named : (i : ℕ) → s.lock.cpu ≡ some i → s.place i ≡ inside
  pub names : (i : ℕ) → s.place i ≡ inside → s.lock.cpu ≡ some i
  pub safe : (i : ℕ) → s.place i ≢ panicked

init-Inv : Inv init
init-Inv = record {
  unique = λ i j p q. cc;
  taken = λ i p. cc;
  named = λ i p. cc;
  names = λ i p. cc;
  safe = λ i p. cc;
}

-- A step of CPU `i` from a given place.
module _ {s : System} (v : Inv s) (i : ℕ) where
  after : Place → System
  after p = let (l, q) = step i p s.lock in record { lock = l; place = update s.place i q }

  after-Inv : (p : Place) → s.place i ≡ p → Inv (after p)
  unfolding after step holding
  after-Inv outside h = record {
    unique = λ j k p q. ground (arith, v.unique j k, v.named i, v.taken i);
    taken = λ j p. ground (arith, v.taken j);
    named = λ j p. ground (arith, v.named j);
    names = λ j p. ground (arith, v.names j);
    safe = λ j p. ground (arith, v.safe j, v.named i);
  }
  after-Inv panicked h = absurd (v.safe i h)
  after-Inv _ h = record {
    unique = λ j k p q. ground (
      arith,
      v.unique j k,
      v.unique i j,
      v.unique i k,
      v.names i,
      v.taken i,
      v.taken j,
      v.taken k,
    );
    taken = λ j p. ground (arith, v.taken j, v.taken i, v.names i, v.unique i j);
    named = λ j p. ground (arith, v.named j, v.taken i, v.names i, v.unique i j);
    names = λ j p. ground (arith, v.names j, v.taken i, v.taken j, v.names i, v.unique i j);
    safe = λ j p. ground (arith, v.safe j, v.taken i, v.names i, v.named i);
  }

  move-Inv : Inv (move i s)
  unfolding move after
  move-Inv = after-Inv (s.place i) refl

run-Inv : (schedule : List ℕ) → Inv (run schedule)
unfolding run
run-Inv List.[] = init-Inv
run-Inv (List.◌∷◌ i schedule) = move-Inv (run-Inv schedule) i

-- Whatever the order in which the CPUs step, two of them never own the lock at once.
pub mutual_exclusion :
    (schedule : List ℕ) (i j : ℕ)
    → owns ((run schedule).place i) ≡ true
    → owns ((run schedule).place j) ≡ true
    → i ≡ j
mutual_exclusion schedule i j = (run-Inv schedule).unique i j

-- Whatever the order of the steps, no CPU meets the panic of `lm_lock` or of `lm_unlock`.
pub never_panics : (schedule : List ℕ) (i : ℕ) → (run schedule).place i ≢ panicked
never_panics schedule i = (run-Inv schedule).safe i
