-- ===== src/Proc/Tests.antt =====
-- Runs of the task table, and the theorems at concrete tables.
use zrhos.Base.{
  ℕ, ◌≡◌, ◌⊎◌, refl, true, false, Option, none, some, arith, ◌==◌, if◌then◌else◌, ℕ_discrete,
}
use zrhos.Proc.{
  TaskState, Task, Tasks, update, is_dead, is_zombie_of, ntask, signal, exit, wait_round, sleeps,
  again, reaped, sys_fork, find_dead, utask_create, wakeup,
}
use zrhos.Proc.Zombies.{Signalled, zombies-update, zombies-signal, one_if, one_if-le}
use zrhos.Proc.Exit.{exit-Signalled}
use zrhos.Proc.Wait.{wait_round-reaped, wait_round-Signalled, zombies-none}
use zrhos.Proc.Fork.{child}

abbrev slot : Task
slot = record { id = none; state = TaskState.dead; chan = 0; parent = none; sons = 0; xstatus = 0 }

abbrev son : Task
son = record slot { id = some 5; state = TaskState.running; parent = some 0 }

-- task 0 has the child 1
abbrev table : Tasks
table i =
    if i == 0
    then record slot { id = some 1; state = TaskState.running }
    else if i == 1
    then son
    else slot

-- the child is dead, and has left a unit
abbrev died : Tasks
died = signal 0 (update table 1 (record son { state = TaskState.zombie; xstatus = 7 }))

forks :
    sys_fork 0 9 table
    ≡ some (
      2,
      update
          (update table 2 (record slot { id = some 9; state = TaskState.used; sons = 0 }))
          2
          (child 0 9 slot),
    )
unfolding sys_fork utask_create find_dead
forks = refl

wakes :
    (wakeup 0 33 (λ i. record son { state = TaskState.sleeping; chan = 33 }) 4).state
    ≡ TaskState.runnable
unfolding wakeup
wakes = refl

table-no_zombie : (p j : ℕ) → is_zombie_of p (table j) ≡ false
table-no_zombie p j = ground arith

table-Signalled : Signalled table
table-Signalled p = omega (arith, zombies-none ntask p table (λ j lt. table-no_zombie p j))

died-Signalled : Signalled died
died-Signalled p =
    let dead_son : Task = record son { state = TaskState.zombie; xstatus = 7 } in
    let count = zombies-update ntask p 1 table dead_son (omega arith) in
    let before = zombies-none ntask p table (λ j lt. table-no_zombie p j) in
    elim (ℕ_discrete 0 p) [
      | yes e ↦
          let up : (died p).sons ≡ 1 = ground arith in
          omega (
            arith,
            zombies-signal p 0 (update table 1 dead_son),
            count,
            before,
            one_if-le (is_zombie_of p dead_son),
          )
      | no ne ↦
          let none_here : one_if (is_zombie_of p dead_son) ≡ 0 = ground arith in
          omega (arith, zombies-signal p 0 (update table 1 dead_son), count, before, none_here)
    ]

exit-Signalled_example : Signalled (exit 1 7 table)
exit-Signalled_example = exit-Signalled 1 7 table (omega arith) table-Signalled refl

wait_round-reaped_example :
    (i : ℕ) × (s' : Tasks) × (wait_round 0 died ≡ reaped i (died i).id (died 0).xstatus s')
    × (is_zombie_of 0 (died i) ≡ true)
    × (is_dead (s' i).state ≡ true)
wait_round-reaped_example =
    wait_round-reaped 0 1 died (omega arith) (omega arith) died-Signalled refl

wait_round-Signalled_example :
    (wait_round 0 died ≡ sleeps)
    ⊎ ((s' : Tasks) × (wait_round 0 died ≡ again s') × Signalled s')
    ⊎ ((i status : ℕ) × (answer : Option ℕ) × (s' : Tasks) × (wait_round 0 died
          ≡ reaped i answer status s')
        × Signalled s')
wait_round-Signalled_example = wait_round-Signalled 0 died (omega arith) died-Signalled
