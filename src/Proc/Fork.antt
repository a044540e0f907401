-- ===== src/Proc/Fork.antt =====
-- `sys_fork` fills a dead slot of the task table.
use zrhos.Base.{
  ℕ, zero, suc, ◌+◌, ◌≤◌, ◌<◌, ◌≡◌, sym, ap, ◌∙◌, true, false, Option, none, some, arith, ◌==◌,
  if◌then◌else◌, Bool-cases, inl, inr, ℕ_discrete, Option-cases, subst, ◌⊎◌,
}
use zrhos.Proc.{TaskState, Task, Tasks, update, is_dead, ntask, find_dead, utask_create, sys_fork}

find_dead-some :
    (rounds i k : ℕ) (s : Tasks)
    → find_dead rounds i s ≡ some k
    → (k < i + rounds) × (is_dead (s k).state ≡ true)
unfolding find_dead
find_dead-some zero i k s h = cc
find_dead-some (suc rounds) i k s h = elim (Bool-cases (is_dead (s i).state)) [
  | inl y ↦
      let at : ◌≡◌ {A = Option ℕ} (some i) (some k) =
        sym (ap (λ b. if b then some i else find_dead rounds (i + 1) s) y) ∙ h in
      let same : i ≡ k = cc in (omega arith, subst (λ j. is_dead (s j).state ≡ true) same y)
  | inr f ↦
      let (lt, z) =
        find_dead-some rounds (i + 1) k s
          (sym (ap (λ b. if b then some i else find_dead rounds (i + 1) s) f) ∙ h) in
      (omega arith, z)
]

find_dead-none :
    (rounds i j : ℕ) (s : Tasks)
    → find_dead rounds i s ≡ none
    → i ≤ j
    → j < i + rounds
    → is_dead (s j).state ≡ false
unfolding find_dead
find_dead-none zero i j s h le lt = absurd (omega arith)
find_dead-none (suc rounds) i j s h le lt = elim (Bool-cases (is_dead (s i).state)) [
  | inl y ↦
      let at : ◌≡◌ {A = Option ℕ} (some i) none =
        sym (ap (λ b. if b then some i else find_dead rounds (i + 1) s) y) ∙ h in
      absurd cc
  | inr f ↦
      let rest : find_dead rounds (i + 1) s ≡ none =
        sym (ap (λ b. if b then some i else find_dead rounds (i + 1) s) f) ∙ h in
      elim (ℕ_discrete i j) [
        | yes e ↦ subst (λ j. is_dead (s j).state ≡ false) e f
        | no ne ↦ find_dead-none rounds (i + 1) j s rest (omega arith) (omega arith)
      ]
]

-- The child as `sys_fork` leaves it.
abbrev pub child : ℕ → ℕ → Task → Task
child t pid x = record x { id = some pid; state = TaskState.runnable; parent = some t; sons = 0 }

-- `sys_fork` faults exactly when no slot is dead. Otherwise it makes a child in a slot that was dead,
-- and changes no other.
pub sys_fork-child :
    (t pid j : ℕ) (s : Tasks)
    → j < ntask
    → ((sys_fork t pid s ≡ none) × (is_dead (s j).state ≡ false))
      ⊎ ((i : ℕ) × (s' : Tasks) × (sys_fork t pid s ≡ some (i, s'))
          × (i < ntask)
          × (is_dead (s i).state ≡ true)
          × (s' j ≡ (if i == j then child t pid (s i) else s j)))
unfolding sys_fork utask_create
sys_fork-child t pid j s lt = elim (Option-cases (find_dead ntask 0 s)) [
  | inl e ↦ inl (ground arith, find_dead-none ntask 0 j s e (omega arith) (omega arith))
  | inr (i, e) ↦
      let (li, d) = find_dead-some ntask 0 i s e in
      let s1 : Tasks =
        update s i (record (s i) { id = some pid; state = TaskState.used; sons = 0 }) in
      let s2 : Tasks =
        update s1 i (record (s1 i) { state = TaskState.runnable; parent = some t }) in
      inr (i, s2, ground arith, omega arith, d, ground arith)
]
