-- ===== src/Proc.antt =====
-- kernel/proc.c: the task table as fork, exit, wait and sleep see it. A task is its index in `tasks`.
-- `sons` is what `lm_P` and `lm_V` make of `sons_sem`: the units that a wait can take. Each operation
-- is one step; in the source the locks of the tasks and `wait_lock` are held over its parts.
pub mod Zombies
pub mod Exit
pub mod Wait
pub mod Fork
pub mod Schedule
pub mod Sleep
mod Tests
use zrhos.Base.{
  ℕ, zero, suc, ◌+◌, ◌-◌, Bool, true, false, not, ◌&&◌, Option, none, some, ◌==◌, if◌then◌else◌,
}

pub data TaskState : Type 0 where
  running runnable sleeping dead used zombie : TaskState

-- `id` is `none` for -1.
pub record Task : Type 0 where
  pub id : Option ℕ
  pub state : TaskState
  pub chan : ℕ
  pub parent : Option ℕ
  pub sons : ℕ
  pub xstatus : ℕ

abbrev pub Tasks : Type 0
Tasks = ℕ → Task

-- `NTASK`
abbrev pub ntask : ℕ
ntask = 1010

abbrev pub update : Tasks → ℕ → Task → Tasks
update s i v j = if i == j then v else s j

abbrev pub is_dead : TaskState → Bool
is_dead dead = true
is_dead _ = false

abbrev pub is_zombie : TaskState → Bool
is_zombie zombie = true
is_zombie _ = false

abbrev pub is_sleeping : TaskState → Bool
is_sleeping sleeping = true
is_sleeping _ = false

abbrev pub is_parent : Option ℕ → ℕ → Bool
is_parent none p = false
is_parent (some q) p = q == p

unfoldable pub find_dead : ℕ → ℕ → Tasks → Option ℕ
find_dead zero i s = none
find_dead (suc rounds) i s =
    let rest = find_dead rounds (i + 1) s in if is_dead (s i).state then some i else rest

-- With the number that `alloc_pid` gives, and without the context, memory and mappings of the task;
-- `none` is the null pointer.
unfoldable pub utask_create : ℕ → Tasks → Option (ℕ × Tasks)
utask_create pid s = elim (find_dead ntask 0 s) [
  | none ↦ none
  | some i ↦ some (i, update s i (record (s i) { id = some pid; state = used; sons = 0 }))
]

-- By task `t`, without the copies of memory, registers, directory and files; `none` is a fault, since the
-- result of `utask_create` is not tested.
unfoldable pub sys_fork : ℕ → ℕ → Tasks → Option (ℕ × Tasks)
sys_fork t pid s = elim (utask_create pid s) [
  | none ↦ none
  | some (i, s') ↦ some (i, update s' i (record (s' i) { state = runnable; parent = some t }))
]

-- `lm_V` on `sons_sem`
abbrev pub signal : ℕ → Tasks → Tasks
signal p s = update s p (record (s p) { sons = (s p).sons + 1 })

-- The loop of `reparent` from task `i` on.
unfoldable pub reparent_loop : ℕ → ℕ → ℕ → Tasks → Tasks
reparent_loop zero i t s = s
reparent_loop (suc rounds) i t s =
    let s' : Tasks =
      if not (t == i) && is_parent (s i).parent t
      then signal 0 (update s i (record (s i) { parent = some 0 }))
      else s in
    reparent_loop rounds (i + 1) t s'

unfoldable pub reparent : ℕ → Tasks → Tasks
reparent t s = reparent_loop ntask 0 t s

abbrev pub signal_parent : Option ℕ → Tasks → Tasks
signal_parent none s = s
signal_parent (some p) s = signal p s

-- By task `t`, up to the switch to the scheduler.
unfoldable pub exit : ℕ → ℕ → Tasks → Tasks
exit t status s =
    reparent t
      (signal_parent (s t).parent (update s t (record (s t) { state = zombie; xstatus = status })))

-- Without the memory, mappings, files and directory of the task.
abbrev pub free_task : ℕ → Tasks → Tasks
free_task i s = update s i (record (s i) { id = none; state = dead; parent = none })

abbrev pub is_zombie_of : ℕ → Task → Bool
is_zombie_of p x = is_zombie x.state && is_parent x.parent p

unfoldable pub wait_scan : ℕ → ℕ → ℕ → Tasks → Option ℕ
wait_scan zero i t s = none
wait_scan (suc rounds) i t s =
    let rest = wait_scan rounds (i + 1) t s in if is_zombie_of t (s i) then some i else rest

-- One round of the loop of `sys_wait` by task `t`. With a child that is freed go the answer in `a0` and
-- the status for `copyout`, which is the `xstatus` of `t`.
pub data Waited : Type 0 where
  sleeps : Waited
  again : Tasks → Waited
  reaped : ℕ → (answer : Option ℕ) → (status : ℕ) → Tasks → Waited

unfoldable pub wait_round : ℕ → Tasks → Waited
wait_round t s =
    let s' : Tasks = update s t (record (s t) { sons = (s t).sons - 1 }) in
    if (s t).sons == 0 then sleeps else elim (wait_scan ntask 0 t s') [
      | none ↦ again s'
      | some i ↦ reaped i (s' i).id (s' t).xstatus (free_task i s')
    ]

-- By task `me`.
unfoldable pub wakeup : ℕ → ℕ → Tasks → Tasks
wakeup me chan s i =
    if not (i == me) && (is_sleeping (s i).state && ((s i).chan == chan))
    then record (s i) { state = runnable }
    else s i
