-- ===== src/Proc/Wait.antt =====
-- `sys_wait` finds the dead children of its task.
use zrhos.Base.{
  ap₂, ℕ, zero, suc, ◌+◌, ◌-◌, ◌≤◌, ◌<◌, ◌≡◌, ◌≢◌, refl, sym, ap, ◌∙◌, true, false, Option, none,
  some, arith, ◌==◌, if◌then◌else◌, Bool-cases, inl, inr, ℕ_discrete, Option-cases, subst, ◌⊎◌,
}
use zrhos.Proc.{
  TaskState, Task, Tasks, update, is_dead, is_zombie_of, ntask, wait_scan, wait_round, free_task,
  sleeps, again, reaped,
}
use zrhos.Proc.Zombies.{zombies, zombies-update, Signalled, one_if}

wait_scan-some :
    (rounds i t k : ℕ) (s : Tasks)
    → wait_scan rounds i t s ≡ some k
    → (k < i + rounds) × (is_zombie_of t (s k) ≡ true)
unfolding wait_scan
wait_scan-some zero i t k s h = cc
wait_scan-some (suc rounds) i t k s h = elim (Bool-cases (is_zombie_of t (s i))) [
  | inl y ↦
      let at : ◌≡◌ {A = Option ℕ} (some i) (some k) =
        sym (ap (λ b. if b then some i else wait_scan rounds (i + 1) t s) y) ∙ h in
      let same : i ≡ k = cc in (omega arith, subst (λ j. is_zombie_of t (s j) ≡ true) same y)
  | inr f ↦
      let (lt, z) =
        wait_scan-some rounds (i + 1) t k s
          (sym (ap (λ b. if b then some i else wait_scan rounds (i + 1) t s) f) ∙ h) in
      (omega arith, z)
]

wait_scan-none :
    (rounds i t j : ℕ) (s : Tasks)
    → wait_scan rounds i t s ≡ none
    → i ≤ j
    → j < i + rounds
    → is_zombie_of t (s j) ≡ false
unfolding wait_scan
wait_scan-none zero i t j s h le lt = absurd (omega arith)
wait_scan-none (suc rounds) i t j s h le lt = elim (Bool-cases (is_zombie_of t (s i))) [
  | inl y ↦
      let at : ◌≡◌ {A = Option ℕ} (some i) none =
        sym (ap (λ b. if b then some i else wait_scan rounds (i + 1) t s) y) ∙ h in
      absurd (cc)
  | inr f ↦
      let rest : wait_scan rounds (i + 1) t s ≡ none =
        sym (ap (λ b. if b then some i else wait_scan rounds (i + 1) t s) f) ∙ h in
      elim (ℕ_discrete i j) [
        | yes e ↦ subst (λ j. is_zombie_of t (s j) ≡ false) e f
        | no ne ↦ wait_scan-none rounds (i + 1) t j s rest (omega arith) (omega arith)
      ]
]

pub zombies-none :
    (n t : ℕ) (s : Tasks) → ((j : ℕ) → j < n → is_zombie_of t (s j) ≡ false) → zombies n t s ≡ 0
unfolding zombies
zombies-none zero t s h = refl
zombies-none (suc n) t s h =
    let last : one_if (is_zombie_of t (s n)) ≡ 0 = ap one_if (h n (omega arith)) in
    omega (arith, last, zombies-none n t s (λ j lt. h j (omega arith)))

zombies-some : (n t k : ℕ) (s : Tasks) → k < n → is_zombie_of t (s k) ≡ true → 0 < zombies n t s
unfolding zombies
zombies-some zero t k s lt y = absurd (omega arith)
zombies-some (suc n) t k s lt y = elim (ℕ_discrete k n) [
  | yes e ↦
      let last : one_if (is_zombie_of t (s n)) ≡ 1 =
        ap one_if (subst (λ j. is_zombie_of t (s j) ≡ true) e y) in
      omega (arith, last)
  | no ne ↦ omega (arith, zombies-some n t k s (omega arith) y)
]

-- The state after `lm_P` took a unit.
abbrev waited : ℕ → Tasks → Tasks
waited t s = update s t (record (s t) { sons = (s t).sons - 1 })

waited-zombie : (q t k : ℕ) (s : Tasks) → is_zombie_of q (waited t s k) ≡ is_zombie_of q (s k)
waited-zombie q t k s = ground arith

zombies-waited :
    (q t : ℕ) (s : Tasks) → t < ntask → zombies ntask q (waited t s) ≡ zombies ntask q s
zombies-waited q t s lt =
    omega (arith, zombies-update ntask q t s (record (s t) { sons = (s t).sons - 1 }) lt)

-- The three ways of a round.
round-cases :
    (t : ℕ) (s : Tasks)
    → (((s t).sons ≡ 0) × (wait_round t s ≡ sleeps))
      ⊎ ((0 < (s t).sons)
          × (wait_scan ntask 0 t (waited t s) ≡ none)
          × (wait_round t s ≡ again (waited t s)))
      ⊎ ((i : ℕ) × (0 < (s t).sons)
          × (wait_scan ntask 0 t (waited t s) ≡ some i)
          × (wait_round t s
              ≡ reaped i (waited t s i).id (waited t s t).xstatus (free_task i (waited t s))))
unfolding wait_round
round-cases t s = elim (Bool-cases ((s t).sons == 0)) [
  | inl y ↦ inl (ground arith, ground arith)
  | inr f ↦ elim (Option-cases (wait_scan ntask 0 t (waited t s))) [
    | inl e ↦ inr (inl (ground arith, e, ground arith))
    | inr (i, e) ↦ inr (inr (i, ground arith, e, ground arith))
  ]
]

contradiction : true ≡ false → ⊥
contradiction h = cc

-- When every zombie has left a unit with its parent, a task with a dead child does not sleep in its
-- wait: the first round frees one of its dead children and answers
-- with its number. The status that it copies out is its own, not that of the child.
pub wait_round-reaped :
    (t k : ℕ) (s : Tasks)
    → t < ntask
    → k < ntask
    → Signalled s
    → is_zombie_of t (s k) ≡ true
    → (i : ℕ) × (s' : Tasks) × (wait_round t s ≡ reaped i (s i).id (s t).xstatus s')
      × (is_zombie_of t (s i) ≡ true)
      × (is_dead (s' i).state ≡ true)
wait_round-reaped t k s lt lk h z = elim (round-cases t s) [
  | inl (empty, e) ↦ absurd (omega (arith, zombies-some ntask t k s lk z, h t))
  | inr (inl (some_left, e, r)) ↦
      let seen = wait_scan-none ntask 0 t k (waited t s) e (omega arith) (omega arith) in
      absurd (contradiction (sym z ∙ sym (waited-zombie t t k s) ∙ seen))
  | inr (inr (i, some_left, e, r)) ↦
      let (li, zi) = wait_scan-some ntask 0 t i (waited t s) e in
      (
        i,
        free_task i (waited t s),
        r ∙ ap₂ (λ a x. reaped i a x (free_task i (waited t s))) (ground arith) (ground arith),
        sym (waited-zombie t t i s) ∙ zi,
        ground arith,
      )
]

-- A round of the wait keeps that every zombie has left a unit with its parent.
pub wait_round-Signalled :
    (t : ℕ) (s : Tasks)
    → t < ntask
    → Signalled s
    → (wait_round t s ≡ sleeps)
      ⊎ ((s' : Tasks) × (wait_round t s ≡ again s') × Signalled s')
      ⊎ ((i status : ℕ) × (answer : Option ℕ) × (s' : Tasks) × (wait_round t s
            ≡ reaped i answer status s')
          × Signalled s')
wait_round-Signalled t s lt h = elim (round-cases t s) [
  | inl (empty, e) ↦ inl e
  | inr (inl (some_left, e, r)) ↦ inr (inl (waited t s, r, λ q. kept q e))
  | inr (inr (i, some_left, e, r)) ↦ inr (
      inr (
        i,
        (waited t s t).xstatus,
        (waited t s i).id,
        free_task i (waited t s),
        r,
        λ q. freed q i e some_left,
      ))
]
  where
    sons_same : (q : ℕ) → t ≢ q → (waited t s q).sons ≡ (s q).sons
    sons_same q ne = ground arith

    kept :
        (q : ℕ)
        → wait_scan ntask 0 t (waited t s) ≡ none
        → zombies ntask q (waited t s) ≤ (waited t s q).sons
    kept q e = elim (ℕ_discrete t q) [
      | yes same ↦
          subst (λ q. zombies ntask q (waited t s) ≤ (waited t s q).sons) same
            (omega (
              arith,
              zombies-none ntask t (waited t s)
                  (λ j lj. wait_scan-none ntask 0 t j (waited t s) e (omega arith) (omega arith)),
            ))
      | no ne ↦ omega (arith, zombies-waited q t s lt, h q, sons_same q ne)
    ]

    freed :
        (q i : ℕ)
        → wait_scan ntask 0 t (waited t s) ≡ some i
        → 0 < (s t).sons
        → zombies ntask q (free_task i (waited t s)) ≤ (free_task i (waited t s) q).sons
    freed q i e some_left =
        let (li, zi) = wait_scan-some ntask 0 t i (waited t s) e in
        let v : Task = record (waited t s i) { id = none; state = TaskState.dead; parent = none } in
        let count = zombies-update ntask q i (waited t s) v (omega arith) in
        let sons : (free_task i (waited t s) q).sons ≡ (waited t s q).sons = ground arith in
        elim (ℕ_discrete t q) [
          | yes same ↦
              let down : (waited t s q).sons ≡ (s q).sons - 1 = ground arith in
              let one : one_if (is_zombie_of q (waited t s i)) ≡ 1 =
                ap one_if (subst (λ q. is_zombie_of q (waited t s i) ≡ true) same zi) in
              omega (arith, zombies-waited q t s lt, h q, count, one, sons, down)
          | no ne ↦ omega (arith, zombies-waited q t s lt, h q, count, sons, sons_same q ne)
        ]
