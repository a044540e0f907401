-- ===== src/Proc/Schedule/Tests.antt =====
-- Runs of the CPUs and of `sleep` and `wakeup`.
use zrhos.Base.{ℕ, ◌≡◌, refl, Bool, ◌⊎◌, true, false, none, some, List, [], ◌∷◌, arith}
use zrhos.Proc.{TaskState, Task, Tasks, update}
use zrhos.Proc.Schedule.{
  Act, computes, yields, run, start, step, move, scheduler, resume, park, find_unused, task_create,
  task_init,
}
use zrhos.Proc.Schedule.Exclusive.{executes, one_cpu}
use zrhos.Proc.Sleep
use zrhos.Proc.Sleep.Wakeups

abbrev unused : Task
unused = record {
  id = none;
  state = TaskState.dead;
  chan = 0;
  parent = none;
  sons = 0;
  xstatus = 0;
}

abbrev blank : Tasks
blank i = unused

-- The table behind the first `task_create`.
abbrev table : Tasks
table = update (task_init blank) 0 (record unused { id = some 0; state = TaskState.runnable })

created : task_create (task_init blank) ≡ some (0, table)
unfolding task_create find_unused task_init
created = refl

-- CPU 3 takes task 0, which calls `yield`; CPU 1 waits for its lock.
abbrev events : List (ℕ × Act)
events =
    (1, computes)
    ∷ (3, computes)
    ∷ (3, computes)
    ∷ (3, yields)
    ∷ (3, computes)
    ∷ (3, computes)
    ∷ (3, computes)
    ∷ (3, computes)
    ∷ []

runs : executes ((run (start table) events).place 3) 0 ≡ true
unfolding run move step scheduler resume park
runs = refl

abbrev cpu : ℕ
cpu = 3

one_cpu_example :
    ((((run (start table) events).tasks 0).state ≡ TaskState.running)
      ⊎ ((run (start table) events).holder 0 ≡ some 3))
    × (cpu ≡ cpu)
one_cpu_example = one_cpu table events 3 3 0 runs runs

-- Task 0 decides to sleep; then task 1 makes the condition hold and calls `wakeup`.
abbrev story : List (ℕ × Bool)
story =
    (1, false)
    ∷ (1, false)
    ∷ (1, false)
    ∷ (0, true)
    ∷ (0, true)
    ∷ (0, true)
    ∷ (0, true)
    ∷ (0, true)
    ∷ []

abbrev after_story : Sleep.Monitor
after_story = Sleep.run 33 (Wakeups.start 33 blank false) story

condition_holds : after_story.condition ≡ true
unfolding Sleep.run Sleep.move Sleep.step Sleep.sleep
condition_holds = refl

task_sleeps : Wakeups.waits (after_story.place 0) (after_story.tasks 0).state ≡ true
unfolding Sleep.run Sleep.move Sleep.step Sleep.sleep
task_sleeps = refl

no_lost_wakeup_example :
    (t : ℕ) × (after_story.lk ≡ some t) × (Wakeups.reaches (after_story.place t) 0 ≡ true)
no_lost_wakeup_example =
    Wakeups.no_lost_wakeup 33 blank false story 0 (λ t. refl) (omega arith) condition_holds
      task_sleeps
