-- ===== src/Proc/Exit.antt =====
-- What `exit`, `reparent` and `sys_fork` keep.
use zrhos.Base.{ℕ, ◌+◌, ◌≤◌, ◌<◌, ◌≡◌, sym, false, arith, inl, inr, ℕ_discrete, Option-cases, subst}
use zrhos.Proc.{
  TaskState, Task, Tasks, update, is_zombie, is_zombie_of, ntask, signal, reparent, exit,
  signal_parent,
}
use zrhos.Proc.Zombies.{
  zombies, zombies-update, zombies-signal, Signalled, one_if, one_if-le, reparent_loop-Signalled,
}

-- The task leaves its unit with its parent.
die-Signalled :
    (t status : ℕ) (s : Tasks)
    → t < ntask
    → Signalled s
    → is_zombie (s t).state ≡ false
    → Signalled (
        signal_parent
          (s t).parent
          (update s t (record (s t) { state = TaskState.zombie; xstatus = status })))
die-Signalled t status s lt h alive q =
    let v : Task = record (s t) { state = TaskState.zombie; xstatus = status } in
    let count = zombies-update ntask q t s v lt in
    let before : one_if (is_zombie_of q (s t)) ≡ 0 = ground arith in
    let sons : (update s t v q).sons ≡ (s q).sons = ground arith in
    elim (Option-cases (s t).parent) [
      | inl e ↦
          let none_here : one_if (is_zombie_of q v) ≡ 0 = ground arith in
          subst
            (λ o.
              zombies ntask q (signal_parent o (update s t v))
              ≤ (signal_parent o (update s t v) q).sons)
            (sym e) (omega (arith, count, h q))
      | inr (p, e) ↦
          subst
            (λ o.
              zombies ntask q (signal_parent o (update s t v))
              ≤ (signal_parent o (update s t v) q).sons)
            (sym e)
            (elim (ℕ_discrete p q) [
              | yes same ↦
                  let up : (signal p (update s t v) q).sons ≡ (s q).sons + 1 = ground arith in
                  omega (
                    arith,
                    zombies-signal q p (update s t v),
                    count,
                    h q,
                    one_if-le (is_zombie_of q v),
                  )
              | no other ↦
                  let none_here : one_if (is_zombie_of q v) ≡ 0 = ground arith in
                  let keeps : (signal p (update s t v) q).sons ≡ (s q).sons = ground arith in
                  omega (arith, zombies-signal q p (update s t v), count, h q)
            ])
    ]

-- When a task that is no zombie exits, every zombie still has left a unit with its parent, also the children that
-- go to task 0.
pub exit-Signalled :
    (t status : ℕ) (s : Tasks)
    → t < ntask
    → Signalled s
    → is_zombie (s t).state ≡ false
    → Signalled (exit t status s)
unfolding exit reparent
exit-Signalled t status s lt h alive =
    reparent_loop-Signalled ntask 0 t _ (omega arith) (die-Signalled t status s lt h alive)
