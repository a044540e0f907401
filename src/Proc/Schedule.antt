-- ===== src/Proc/Schedule.antt =====
-- `scheduler`, `sched`, `yield`, `sleep`, `wakeup` and `real_entry` of kernel/proc.c, on any number of CPUs.
-- Each access to a task or to the lock of a task is a step, and the CPUs step in any order. The tasks compute,
-- yield, sleep on a channel and wake a channel, and a task without parent and children exits; `fork`, `wait`,
-- the semaphores and `kill` are not among the steps.
pub mod Exclusive
mod Tests
use zrhos.Base.{
  ℕ, zero, suc, ◌+◌, ◌-◌, ◌≡◌, ◌≢◌, refl, Bool, true, false, not, ◌&&◌, Option, none, some, ◌==◌,
  ltb, if◌then◌else◌, List,
}
use zrhos.Proc.{
  TaskState, running, runnable, sleeping, dead, used, zombie, Task, Tasks, ntask, update,
  is_sleeping,
}

-- What a task does next, of its own or by the timer interrupt.
pub data Act : Type 0 where
  computes : Act
  yields : Act
  sleeps_on : ℕ → Act
  exits : Act
  wakes : ℕ → Act

-- Where a CPU stands: in the scheduler at the entry `i` of the table, or in the task `t`.
pub data Place : Type 0 where
  -- the scheduler, at `lm_lock`, at its test, at `t->state = RUNNING` and at `lm_unlock`
  scanning : ℕ → Place
  testing : ℕ → Place
  taking : ℕ → Place
  leaving : ℕ → Place
  -- the task behind the switch, which holds its lock, and at the `lm_unlock` of it
  entered : ℕ → Place
  unlocking : ℕ → Place
  -- the code of the task
  free : ℕ → Place
  -- `yield`, `sleep` and `exit`: at `lm_lock`, behind it, at the store of the channel, at that of the
  -- state, and at the call of `sched`, or of `swtch` in `exit`
  parking : ℕ → Act → Place
  parked : ℕ → Act → Place
  storing : ℕ → Act → Place
  marking : ℕ → Act → Place
  calling : ℕ → Act → Place
  -- `wakeup` of a channel by the task, at the entry `i`
  waking : ℕ → ℕ → ℕ → Place
  wake_test : ℕ → ℕ → ℕ → Place
  wake_set : ℕ → ℕ → ℕ → Place
  wake_done : ℕ → ℕ → ℕ → Place
  -- the panic of `sched`
  panicked : Place

-- The tasks, the holders of their locks, which of them `sleep` put to sleep, and how many spin locks each
-- CPU holds. `intr_get()` is 0 while that number is not, by `push_off`.
pub record Machine : Type 0 where
  pub tasks : Tasks
  pub holder : ℕ → Option ℕ
  pub in_sleep : ℕ → Bool
  pub noff : ℕ → ℕ
  pub place : ℕ → Place

abbrev pub is_runnable : TaskState → Bool
is_runnable runnable = true
is_runnable _ = false

abbrev pub is_running : TaskState → Bool
is_running running = true
is_running _ = false

abbrev pub has_id : Option ℕ → Bool
has_id none = false
has_id (some n) = true

abbrev pub is_free : Option ℕ → Bool
is_free none = true
is_free (some c) = false

abbrev pub is_holder : Option ℕ → ℕ → Bool
is_holder none c = false
is_holder (some b) c = b == c

abbrev pub set {ℓ} : {A : Type ℓ} → (ℕ → A) → ℕ → A → ℕ → A
set f i x j = if i == j then x else f j

abbrev pub set_state : Tasks → ℕ → TaskState → Tasks
set_state s i x = update s i (record (s i) { state = x })

-- The state in which a task gives its CPU up; the other acts do not.
abbrev pub parked_state : Act → TaskState
parked_state computes = running
parked_state yields = runnable
parked_state (sleeps_on ch) = sleeping
parked_state exits = zombie
parked_state (wakes ch) = running

abbrev pub is_sleep : Act → Bool
is_sleep (sleeps_on ch) = true
is_sleep _ = false

-- `lm_lock` of task `i` by CPU `c`, where it is free, and `lm_unlock`.
abbrev pub lock : ℕ → ℕ → Machine → Machine
lock c i m = record m { holder = set m.holder i (some c); noff = set m.noff c (m.noff c + 1) }

abbrev pub unlock : ℕ → ℕ → Machine → Machine
unlock c i m = record m { holder = set m.holder i none; noff = set m.noff c (m.noff c - 1) }

-- The caller of `sleep` holds `lk`, of which the model has the count only.
abbrev pub lock_lk : ℕ → Act → Machine → Machine
lock_lk c a m = if is_sleep a then record m { noff = set m.noff c (m.noff c + 1) } else m

abbrev pub unlock_lk : ℕ → Act → Machine → Machine
unlock_lk c a m = if is_sleep a then record m { noff = set m.noff c (m.noff c - 1) } else m

abbrev pub store_chan : ℕ → Act → Tasks → Tasks
store_chan t (sleeps_on ch) s = update s t (record (s t) { chan = ch })
store_chan t a s = s

abbrev pub next : ℕ → ℕ
next i = if i + 1 == ntask then 0 else i + 1

abbrev pub next_place : ℕ → Act → Place
next_place t computes = free t
next_place t (wakes ch) = waking t ch 0
next_place t a = parking t a

-- The tests of `sched`: its task holds its lock, the CPU holds no other, the state is not RUNNING, and the
-- CPU takes no interrupts. Otherwise it panics.
unfoldable pub sched : ℕ → ℕ → Machine → Place
sched c t m =
    if not (is_holder (m.holder t) c)
    then panicked
    else if not (m.noff c == 1)
    then panicked
    else if is_running (m.tasks t).state
    then panicked
    else if m.noff c == 0
    then panicked
    else leaving t

-- The next step of CPU `c` from a place in `scheduler`; `lm_lock` waits where the lock is held.
unfoldable pub scheduler : ℕ → Place → Machine → Machine × Place
scheduler c (scanning i) m =
    if is_free (m.holder i) then (lock c i m, testing i) else (m, scanning i)
scheduler c (testing i) m =
    (m, if has_id (m.tasks i).id && is_runnable (m.tasks i).state then taking i else leaving i)
scheduler c (taking i) m = (record m { tasks = set_state m.tasks i running }, entered i)
scheduler c (leaving i) m = (unlock c i m, scanning (next i))
scheduler c p m = (m, p)

-- Behind the switch to task `t`: the end of `yield`, of `sleep`, which clears the channel, or the start of
-- `real_entry`.
unfoldable pub resume : ℕ → Place → Machine → Machine × Place
resume c (entered t) m =
    let x = m.tasks t in
    let y = if m.in_sleep t then record x { chan = 0 } else x in
    (record m { tasks = update m.tasks t y }, unlocking t)
resume c (unlocking t) m = (unlock c t m, free t)
resume c p m = (m, p)

-- `yield`, `sleep` and `exit`, up to the switch. The end of `exit` is a `swtch` without `sched`.
unfoldable pub park : ℕ → Place → Machine → Machine × Place
park c (parking t b) m = if is_free (m.holder t) then (lock c t m, parked t b) else (m, parking t b)
park c (parked t b) m = (unlock_lk c b m, storing t b)
park c (storing t b) m = (record m { tasks = store_chan t b m.tasks }, marking t b)
park c (marking t b) m = (
  record m {
    tasks = set_state m.tasks t (parked_state b);
    in_sleep = set m.in_sleep t (is_sleep b);
  },
  calling t b,
)
park c (calling t exits) m = (m, leaving t)
park c (calling t b) m = (m, sched c t m)
park c p m = (m, p)

unfoldable pub wakeup : ℕ → Place → Machine → Machine × Place
wakeup c (waking t ch i) m =
    if i == ntask
    then (m, free t)
    else if i == t
    then (m, waking t ch (i + 1))
    else if is_free (m.holder i)
    then (lock c i m, wake_test t ch i)
    else (m, waking t ch i)
wakeup c (wake_test t ch i) m =
    let found = is_sleeping (m.tasks i).state && ((m.tasks i).chan == ch) in
    (m, if found then wake_set t ch i else wake_done t ch i)
wakeup c (wake_set t ch i) m = (record m { tasks = set_state m.tasks i runnable }, wake_done t ch i)
wakeup c (wake_done t ch i) m = (unlock c i m, waking t ch (i + 1))
wakeup c p m = (m, p)

unfoldable pub step : ℕ → Act → Place → Machine → Machine × Place
step c a (scanning i) m = scheduler c (scanning i) m
step c a (testing i) m = scheduler c (testing i) m
step c a (taking i) m = scheduler c (taking i) m
step c a (leaving i) m = scheduler c (leaving i) m
step c a (entered t) m = resume c (entered t) m
step c a (unlocking t) m = resume c (unlocking t) m
step c a (free t) m = (lock_lk c a m, next_place t a)
step c a (parking t b) m = park c (parking t b) m
step c a (parked t b) m = park c (parked t b) m
step c a (storing t b) m = park c (storing t b) m
step c a (marking t b) m = park c (marking t b) m
step c a (calling t b) m = park c (calling t b) m
step c a (waking t ch i) m = wakeup c (waking t ch i) m
step c a (wake_test t ch i) m = wakeup c (wake_test t ch i) m
step c a (wake_set t ch i) m = wakeup c (wake_set t ch i) m
step c a (wake_done t ch i) m = wakeup c (wake_done t ch i) m
step c a panicked m = (m, panicked)

unfoldable pub move : ℕ → Act → Machine → Machine
move c a m = let (n, p) = step c a (m.place c) m in record n { place = set n.place c p }

-- The steps of the CPUs, the last one first, with what the task on the CPU does next.
unfoldable pub run : Machine → List (ℕ × Act) → Machine
run m List.[] = m
run m (List.◌∷◌ (c, a) schedule) = move c a (run m schedule)

-- `task_init`, without the stacks.
unfoldable pub task_init : Tasks → Tasks
task_init s i = if ltb i ntask then record (s i) { id = none; state = dead } else s i

unfoldable pub find_unused : ℕ → ℕ → Tasks → Option ℕ
find_unused zero i s = none
find_unused (suc rounds) i s =
    let rest = find_unused rounds (i + 1) s in if has_id (s i).id then rest else some i

-- `task_create`, without the entry and the context; `none` is the null pointer.
unfoldable pub task_create : Tasks → Option (ℕ × Tasks)
task_create s = elim (find_unused ntask 0 s) [
  | none ↦ none
  | some i ↦ some (i, update s i (record (s i) { id = some i; state = runnable }))
]

-- The CPUs at the start of `scheduler`, with no lock held.
abbrev pub start : Tasks → Machine
start s = record {
  tasks = s;
  holder = λ i. none;
  in_sleep = λ i. false;
  noff = λ c. 0;
  place = λ c. scanning 0;
}
