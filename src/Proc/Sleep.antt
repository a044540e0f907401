-- ===== src/Proc/Sleep.antt =====
-- `sleep` and `wakeup` of kernel/proc.c around a condition, as in `lm_sleeplock` and `lm_sleepunlock` of
-- kernel/lock.c, where the condition is `!lk->locked`: a task takes the spin lock `lk`, sleeps until the
-- condition holds, and takes it; another takes `lk`, makes it hold and calls `wakeup`. Each access to a
-- lock, a task or the condition is a step. The tests of the sleep lock's `pid` are left out.
pub mod Wakeups
use zrhos.Base.{
  ℕ, zero, suc, ◌+◌, Bool, true, false, not, ◌&&◌, Option, none, some, ◌==◌, if◌then◌else◌, List,
}
use zrhos.Proc.{
  TaskState, running, runnable, sleeping, dead, used, zombie, Task, Tasks, ntask, update,
  is_sleeping,
}

-- Where a task stands.
pub data Place : Type 0 where
  idle : Place
  -- `lm_lock(lk)`, `while(!condition)`, and what follows the loop
  entering : Place
  checking : Place
  taking : Place
  unlocking : Place
  -- `sleep`: `lm_lock(&t->lock)`, `lm_unlock(lk)`, the two stores, the switch, and what follows it
  locking : Place
  releasing : Place
  parking : Place
  switching : Place
  asleep : Place
  resumed : Place
  relocking : Place
  -- the other side: `lm_lock(lk)`, the condition, and `wakeup` at the entry `i`
  acquiring : Place
  filling : Place
  waking : ℕ → Place
  wake_test : ℕ → Place
  wake_set : ℕ → Place
  wake_done : ℕ → Place

-- `lk`, the condition that it protects, the tasks and the holders of their locks.
pub record Monitor : Type 0 where
  pub lk : Option ℕ
  pub condition : Bool
  pub tasks : Tasks
  pub holder : ℕ → Option ℕ
  pub place : ℕ → Place

abbrev pub is_free : Option ℕ → Bool
is_free none = true
is_free (some c) = false

abbrev pub is_runnable : TaskState → Bool
is_runnable runnable = true
is_runnable _ = false

abbrev pub set {ℓ} : {A : Type ℓ} → (ℕ → A) → ℕ → A → ℕ → A
set f i x j = if i == j then x else f j

module _ (chan : ℕ) where
  -- `sleep` by task `t`. The scheduler gives its lock back behind the switch, and takes it again for a task
  -- that is RUNNABLE.
  unfoldable pub sleep : ℕ → Place → Monitor → Monitor × Place
  sleep t locking m =
      if is_free (m.holder t)
      then (record m { holder = set m.holder t (some t) }, releasing)
      else (m, locking)
  sleep t releasing m = (record m { lk = none }, parking)
  sleep t parking m =
      let x = record (m.tasks t) { chan = chan; state = sleeping } in
      (record m { tasks = update m.tasks t x }, switching)
  sleep t switching m = (record m { holder = set m.holder t none }, asleep)
  sleep t asleep m =
      let x = record (m.tasks t) { state = running } in
      if is_free (m.holder t) && is_runnable (m.tasks t).state
      then (record m { tasks = update m.tasks t x; holder = set m.holder t (some t) }, resumed)
      else (m, asleep)
  sleep t resumed m =
      let x = record (m.tasks t) { chan = 0 } in
      (record m { tasks = update m.tasks t x; holder = set m.holder t none }, relocking)
  sleep t relocking m =
      if is_free m.lk then (record m { lk = some t }, checking) else (m, relocking)
  sleep t p m = (m, p)

  unfoldable pub wakeup : ℕ → Place → Monitor → Monitor × Place
  wakeup t (waking i) m =
      if i == ntask
      then (m, unlocking)
      else if i == t
      then (m, waking (i + 1))
      else if is_free (m.holder i)
      then (record m { holder = set m.holder i (some t) }, wake_test i)
      else (m, waking i)
  wakeup t (wake_test i) m =
      let found = is_sleeping (m.tasks i).state && ((m.tasks i).chan == chan) in
      (m, if found then wake_set i else wake_done i)
  wakeup t (wake_set i) m =
      let x = record (m.tasks i) { state = runnable } in
      (record m { tasks = update m.tasks i x }, wake_done i)
  wakeup t (wake_done i) m = (record m { holder = set m.holder i none }, waking (i + 1))
  wakeup t p m = (m, p)

  -- The next step of task `t`; the flag says which side an idle one takes.
  unfoldable pub step : ℕ → Bool → Place → Monitor → Monitor × Place
  step t waits idle m = (m, if waits then entering else acquiring)
  step t waits entering m =
      if is_free m.lk then (record m { lk = some t }, checking) else (m, entering)
  step t waits checking m = (m, if m.condition then taking else locking)
  step t waits taking m = (record m { condition = false }, unlocking)
  step t waits unlocking m = (record m { lk = none }, idle)
  step t waits acquiring m =
      if is_free m.lk then (record m { lk = some t }, filling) else (m, acquiring)
  step t waits filling m = (record m { condition = true }, waking 0)
  step t waits (waking i) m = wakeup t (waking i) m
  step t waits (wake_test i) m = wakeup t (wake_test i) m
  step t waits (wake_set i) m = wakeup t (wake_set i) m
  step t waits (wake_done i) m = wakeup t (wake_done i) m
  step t waits p m = sleep t p m

  unfoldable pub move : ℕ → Bool → Monitor → Monitor
  move t waits m = let (n, p) = step t waits (m.place t) m in record n { place = set n.place t p }

  unfoldable pub run : Monitor → List (ℕ × Bool) → Monitor
  run m List.[] = m
  run m (List.◌∷◌ (t, waits) schedule) = move t waits (run m schedule)
