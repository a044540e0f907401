-- ===== src/Lock/Semaphore.antt =====
-- `lm_sem_init`, `lm_P` and `lm_V` of kernel/lock.c. A call runs under the lock of the semaphore up
-- to the point where the task sleeps, so it is one step. The queue is the linked list from `head`,
-- newest first; its last entry is `tail`. A task is its number. `value` is an `int`: the model is for values that
-- an `int` holds, which do not overflow.
use zrhos.Base.{
  ap, ℕ, zero, suc, ◌≡◌, refl, ap, Bool, true, false, Option, none, some, List, [], ◌∷◌, ◌++◌,
  arith, if◌then◌else◌, length,
}
use zrhos.Base.Int.{ℤ, pos, negsuc, increment, decrement, is_negative, is_at_most_zero}

pub record Semaphore : Type 0 where
  pub value : ℤ
  pub queue : List ℕ

-- `none` is the panic on a negative start.
unfoldable pub lm_sem_init : ℤ → Option Semaphore
lm_sem_init v = if is_negative v then none else some (record { value = v; queue = [] })

-- The flag says whether task `t` goes to sleep.
unfoldable pub lm_P : ℕ → Semaphore → Semaphore × Bool
lm_P t s =
    let v = decrement s.value in
    if is_negative v
    then (record { value = v; queue = t ∷ s.queue }, true)
    else (record s { value = v }, false)

-- The entry at `tail` and the list without it; `none` is a read through a null pointer.
unfoldable pub take_tail : List ℕ → Option (ℕ × List ℕ)
take_tail [] = none
take_tail (t ∷ []) = some (t, [])
take_tail (t ∷ u ∷ l) = elim (take_tail (u ∷ l)) [
  | none ↦ none
  | some (x, rest) ↦ some (x, t ∷ rest)
]

-- The task that is made RUNNABLE, if any; `none` is a fault.
unfoldable pub lm_V : Semaphore → Option (Semaphore × Option ℕ)
lm_V s =
    let v = increment s.value in
    if is_at_most_zero v
    then elim (take_tail s.queue) [
      | none ↦ none
      | some (t, rest) ↦ some (record { value = v; queue = rest }, some t)
    ]
    else some (record s { value = v }, none)

-- What a semaphore promises: units that are free, or tasks that wait in the order they came.
pub record Resource : Type 0 where
  pub free : ℕ
  pub waiting : List ℕ

unfoldable pub acquire : ℕ → Resource → Resource × Bool
acquire t (r) = elim r.free [
  | zero ↦ (record r { waiting = r.waiting ++ t ∷ [] }, true)
  | suc n ↦ (record r { free = n }, false)
]

unfoldable pub release : Resource → Resource × Option ℕ
release r = elim r.waiting [
  | [] ↦ (record r { free = suc r.free }, none)
  | t ∷ l ↦ (record r { waiting = l }, some t)
]

abbrev pub oldest_first : List ℕ → List ℕ
oldest_first [] = []
oldest_first (t ∷ l) = oldest_first l ++ t ∷ []

abbrev pub count : ℤ → ℕ
count (pos n) = n
count (negsuc n) = 0

abbrev pub resource : Semaphore → Resource
resource s = record { free = count s.value; waiting = oldest_first s.queue }

abbrev pub debt : ℤ → ℕ
debt (pos n) = 0
debt (negsuc n) = suc n

-- The value counts the waiting tasks below zero.
abbrev pub IsValid : Semaphore → Type 0
IsValid s = length s.queue ≡ debt s.value

-- `take_tail` of a list that is not empty gives its oldest entry.
record Oldest (t : ℕ) (l : List ℕ) : Type 0 where
  task : ℕ
  rest : List ℕ
  found : take_tail (t ∷ l) ≡ some (task, rest)
  in_order : oldest_first (t ∷ l) ≡ task ∷ oldest_first rest
  shorter : length rest ≡ length l

take_tail-Oldest : (t : ℕ) (l : List ℕ) → Oldest t l
unfolding take_tail
take_tail-Oldest t [] = record {
  task = t;
  rest = [];
  found = refl;
  in_order = refl;
  shorter = refl;
}
take_tail-Oldest t (u ∷ l) =
    let o = take_tail-Oldest u l in
    record {
      task = o.task;
      rest = t ∷ o.rest;
      found = rw o.found;
      in_order = ap (λ q. q ++ t ∷ []) o.in_order;
      shorter = ap suc o.shorter;
    }

abbrev pub Acquired : ℕ → Semaphore → Type 0
Acquired t s =
    IsValid (lm_P t s).0
    × (resource (lm_P t s).0 ≡ (acquire t (resource s)).0)
    × ((lm_P t s).1 ≡ (acquire t (resource s)).1)

acquire_by :
    (t : ℕ) (v : ℤ) (q : List ℕ) → length q ≡ debt v → Acquired t (record { value = v; queue = q })
unfolding lm_P acquire
acquire_by t (pos zero) [] h = (refl, refl, refl)
acquire_by t (pos zero) (x ∷ q) h = absurd (omega arith)
acquire_by t (pos (suc n)) q h = (h, refl, refl)
acquire_by t (negsuc n) q h = (ap suc h, refl, refl)

-- `lm_P` takes a free unit if there is one; otherwise the task goes behind those that wait, and sleeps.
pub lm_P-acquire : (t : ℕ) (s : Semaphore) → IsValid s → Acquired t s
lm_P-acquire t s v = acquire_by t s.value s.queue v

abbrev pub Released : Semaphore → Type 0
Released s =
    (t : Semaphore) × (lm_V s ≡ some (t, (release (resource s)).1))
    × IsValid t
    × (resource t ≡ (release (resource s)).0)

release_by : (v : ℤ) (q : List ℕ) → length q ≡ debt v → Released (record { value = v; queue = q })
unfolding lm_V release
release_by (pos n) [] h = (record { value = pos (suc n); queue = [] }, refl, refl, refl)
release_by (pos n) (x ∷ q) h = absurd (omega arith)
release_by (negsuc n) [] h = absurd (omega arith)
release_by (negsuc zero) (x ∷ q) h =
    let o = take_tail-Oldest x q in
    (
      record { value = pos 0; queue = o.rest },
      rw (o.found, o.in_order),
      omega (arith, o.shorter),
      rw o.in_order,
    )
release_by (negsuc (suc n)) (x ∷ q) h =
    let o = take_tail-Oldest x q in
    (
      record { value = negsuc n; queue = o.rest },
      rw (o.found, o.in_order),
      omega (arith, o.shorter),
      rw o.in_order,
    )

-- `lm_V` on a valid semaphore never faults: it wakes the task that has waited longest, and adds a
-- free unit when nobody waits.
pub lm_V-release : (s : Semaphore) → IsValid s → Released s
lm_V-release s v = release_by s.value s.queue v

-- A semaphore that was started at zero or more is valid and has nobody waiting.
pub lm_sem_init-IsValid : (v : ℤ) (s : Semaphore) → lm_sem_init v ≡ some s → IsValid s
unfolding lm_sem_init
lm_sem_init-IsValid (pos n) s h = ground arith
lm_sem_init-IsValid (negsuc n) s h = cc
