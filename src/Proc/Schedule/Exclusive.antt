-- ===== src/Proc/Schedule/Exclusive.antt =====
-- Whatever the CPUs do, a task is on one CPU at most, and `sched` does not panic.
use zrhos.Base.{
  ℕ, ◌≡◌, ◌≢◌, ◌⊎◌, inl, inr, refl, Bool, true, false, not, some, ◌==◌, if◌then◌else◌, List, arith,
  Bool-cases,
}
use zrhos.Proc.{TaskState, running, Tasks, is_sleeping}
use zrhos.Proc.Schedule.{
  Act, computes, wakes, Place, scanning, storing, marking, calling, is_sleep, is_running, testing,
  taking, leaving, entered, unlocking, free, parking, parked, waking, wake_test, wake_set,
  wake_done, panicked, Machine, is_runnable, set, step, move, run, scheduler, resume, park, wakeup,
  sched, start,
}

-- The CPU at this place holds the lock of task `i`.
abbrev pub holds : Place → ℕ → Bool
holds (testing j) i = j == i
holds (taking j) i = j == i
holds (leaving j) i = j == i
holds (entered j) i = j == i
holds (unlocking j) i = j == i
holds (parked j a) i = j == i
holds (storing j a) i = j == i
holds (marking j a) i = j == i
holds (calling j a) i = j == i
holds (wake_test t ch j) i = j == i
holds (wake_set t ch j) i = j == i
holds (wake_done t ch j) i = j == i
holds _ i = false

-- The CPU at this place executes task `i`.
abbrev pub executes : Place → ℕ → Bool
executes (entered t) i = t == i
executes (unlocking t) i = t == i
executes (free t) i = t == i
executes (parking t a) i = t == i
executes (parked t a) i = t == i
executes (storing t a) i = t == i
executes (marking t a) i = t == i
executes (calling t a) i = t == i
executes (waking t ch j) i = t == i
executes (wake_test t ch j) i = t == i
executes (wake_set t ch j) i = t == i
executes (wake_done t ch j) i = t == i
executes _ i = false

-- The task has left the state RUNNING.
abbrev has_left : Place → Bool
has_left (calling t a) = true
has_left _ = false

-- How many spin locks the CPU holds at this place.
abbrev depth : Place → ℕ
depth (scanning i) = 0
depth (free t) = 0
depth (waking t ch i) = 0
depth (parking t a) = if is_sleep a then 1 else 0
depth (parked t a) = if is_sleep a then 2 else 1
depth _ = 1

-- The test that the next write, or `sched`, relies on.
abbrev tested : Place → ℕ → TaskState → Bool
tested (taking j) i x = if j == i then is_runnable x else true
tested (wake_set t ch j) i x = if j == i then is_sleeping x else true
tested (calling t a) i x = if t == i then not (is_running x) else true
tested _ i x = true

abbrev parks : Act → Bool
parks computes = false
parks (wakes ch) = false
parks _ = true

abbrev is_fine : Place → Bool
is_fine (parking t a) = parks a
is_fine (parked t a) = parks a
is_fine (storing t a) = parks a
is_fine (marking t a) = parks a
is_fine (calling t a) = parks a
is_fine panicked = false
is_fine _ = true

pub record Inv (m : Machine) : Type 0 where
  pub locked : (c i : ℕ) → holds (m.place c) i ≡ true → m.holder i ≡ some c
  pub runs :
      (c i : ℕ)
      → executes (m.place c) i ≡ true
      → has_left (m.place c) ≡ false
      → (m.tasks i).state ≡ running
  pub alone : (b c i : ℕ) → executes (m.place b) i ≡ true → executes (m.place c) i ≡ true → b ≡ c
  pub ready : (c i : ℕ) → tested (m.place c) i (m.tasks i).state ≡ true
  pub fine : (c : ℕ) → is_fine (m.place c) ≡ true
  pub depths : (c : ℕ) → is_fine (m.place c) ≡ true → m.noff c ≡ depth (m.place c)

module _ {m : Machine} (v : Inv m) (c : ℕ) (a : Act) where
  abbrev after : Place → Machine
  after p = let (n, q) = step c a p m in record n { place = set n.place c q }

  after-Inv : (p : Place) → m.place c ≡ p → Inv (after p)
  unfolding step scheduler resume park wakeup sched
  after-Inv panicked h = absurd (ground (arith, v.fine c))
  after-Inv (marking t w) h = record {
    locked = λ b i p. ground (arith, v.locked b i, v.locked c i);
    runs = λ b i p q. ground (arith, v.runs b i, v.locked b i, v.locked c i, v.alone b c i);
    alone = λ b d i p q. ground (arith, v.alone b d i);
    ready = λ b i. ground (arith, v.ready b i, v.locked b i, v.locked c i, v.fine c, v.alone b c i);
    fine = λ b. ground (arith, v.fine b, v.fine c);
    depths = λ b f. ground (arith, v.depths b, v.depths c, v.fine c);
  }
  after-Inv (calling t w) h = record {
    locked = λ b i p. ground (arith, v.locked b i, v.locked c i);
    runs = λ b i p q. ground (arith, v.runs b i, v.locked b i, v.locked c i, v.alone b c i);
    alone = λ b d i p q. ground (arith, v.alone b d i);
    ready = λ b i. ground (arith, v.ready b i, v.locked b i, v.locked c i);
    fine = λ b. ground (arith, v.fine b, v.fine c, v.locked c t, v.ready c t, v.depths c);
    depths = λ b f. ground (arith, v.depths b, v.depths c, v.fine c, v.locked c t, v.ready c t);
  }
  after-Inv _ h = record {
    locked = λ b i p. ground (arith, v.locked b i, v.locked c i);
    runs = λ b i p q.
        ground
          (arith, v.runs b i, v.runs c i, v.locked b i, v.locked c i, v.ready c i, v.alone b c i);
    alone = λ b d i p q. ground (
      arith,
      v.alone b d i,
      v.alone b c i,
      v.alone c d i,
      v.runs b i,
      v.runs d i,
      v.locked b i,
      v.locked c i,
      v.locked d i,
      v.ready c i,
    );
    ready = λ b i. ground (arith, v.ready b i, v.locked b i, v.locked c i, v.ready c i);
    fine = λ b. ground (arith, v.fine b, v.fine c);
    depths = λ b f. ground (arith, v.depths b, v.depths c, v.fine c);
  }

  move-Inv : Inv (move c a m)
  unfolding move
  move-Inv = after-Inv (m.place c) refl

start-Inv : (s : Tasks) → Inv (start s)
start-Inv s = record {
  locked = λ c i p. cc;
  runs = λ c i p q. cc;
  alone = λ b c i p q. cc;
  ready = λ c i. refl;
  fine = λ c. refl;
  depths = λ c f. refl;
}

run-Inv : (s : Tasks) (schedule : List (ℕ × Act)) → Inv (run (start s) schedule)
unfolding run
run-Inv s List.[] = start-Inv s
run-Inv s (List.◌∷◌ (c, a) schedule) = move-Inv (run-Inv s schedule) c a

-- Whatever the order in which the CPUs step, and whatever of computing, `yield`, `sleep`, `wakeup` and the
-- exit of a task without parent and children their tasks do: no two CPUs execute the same task, and a task
-- that a CPU executes has the state RUNNING, unless that CPU holds its lock.
pub one_cpu :
    (s : Tasks) (schedule : List (ℕ × Act)) (b c i : ℕ)
    → let m = run (start s) schedule in
      executes (m.place b) i ≡ true
      → executes (m.place c) i ≡ true
      → (((m.tasks i).state ≡ running) ⊎ (m.holder i ≡ some b)) × (b ≡ c)
one_cpu s schedule b c i p q =
    let m = run (start s) schedule in
    let v = run-Inv s schedule in
    (state_or_lock (m.place b) (v.runs b i) (v.locked b i) p, v.alone b c i p q)
  where
    state_or_lock :
        {A B : Type 0} (x : Place)
        → (executes x i ≡ true → has_left x ≡ false → A)
        → (holds x i ≡ true → B)
        → executes x i ≡ true
        → A ⊎ B
    state_or_lock x f g p = elim (Bool-cases (has_left x)) [
      | inr n ↦ inl (f p n)
      | inl y ↦ inr (g (left_holds x y p))
    ]
      where
        left_holds : (x : Place) → has_left x ≡ true → executes x i ≡ true → holds x i ≡ true
        left_holds (calling t a) y p = p
        left_holds _ y p = absurd cc

-- Whatever the order of the steps, `sched` does not panic: a task calls it with its lock held, no other spin
-- lock, and another state than RUNNING.
pub sched_never_panics :
    (s : Tasks) (schedule : List (ℕ × Act)) (c : ℕ) → (run (start s) schedule).place c ≢ panicked
sched_never_panics s schedule c p = let v = run-Inv s schedule in ground (arith, v.fine c)
