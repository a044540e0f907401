-- ===== src/Proc/Sleep/Wakeups.antt =====
-- No wakeup is lost: a task that decided to sleep is seen by the next `wakeup`.
use zrhos.Base.{
  ℕ, ◌<◌, ◌≡◌, refl, Bool, true, false, Option, none, some, ◌==◌, ltb, leb, List, arith,
}
use zrhos.Proc.{TaskState, Tasks, ntask, is_sleeping}
use zrhos.Proc.Sleep.{
  Place, idle, checking, taking, unlocking, locking, releasing, parking, switching, asleep, resumed,
  filling, waking, wake_test, wake_set, wake_done, Monitor, set, sleep, wakeup, step, move, run,
}

-- Between the steps that take `lk` and give it back.
abbrev inside : Place → Bool
inside checking = true
inside taking = true
inside unlocking = true
inside locking = true
inside releasing = true
inside filling = true
inside (waking i) = true
inside (wake_test i) = true
inside (wake_set i) = true
inside (wake_done i) = true
inside _ = false

-- Task `t` at this place holds the lock of task `i`.
abbrev holds : ℕ → Place → ℕ → Bool
holds t releasing i = t == i
holds t parking i = t == i
holds t switching i = t == i
holds t resumed i = t == i
holds t (wake_test j) i = j == i
holds t (wake_set j) i = j == i
holds t (wake_done j) i = j == i
holds t _ i = false

-- The task found the condition false, and holds `lk` still.
abbrev decided : Place → Bool
decided locking = true
decided releasing = true
decided _ = false

-- The switch is behind the stores of `sleep`.
abbrev down : Place → Bool
down switching = true
down asleep = true
down _ = false

-- The task sleeps, or will without a look at the condition.
abbrev pub waits : Place → TaskState → Bool
waits parking x = true
waits switching x = is_sleeping x
waits asleep x = is_sleeping x
waits _ x = false

-- The `wakeup` at this place has task `i` before it.
abbrev pub reaches : Place → ℕ → Bool
reaches (waking j) i = leb j i
reaches (wake_test j) i = leb j i
reaches (wake_set j) i = leb j i
reaches (wake_done j) i = ltb j i
reaches _ i = false

abbrev pub in_reach : Monitor → Option ℕ → ℕ → Bool
in_reach m none i = false
in_reach m (some t) i = reaches (m.place t) i

module _ (chan : ℕ) where
  pub record Inv (m : Monitor) : Type 0 where
    pub locked : (t : ℕ) → inside (m.place t) ≡ true → m.lk ≡ some t
    pub own : (t i : ℕ) → holds t (m.place t) i ≡ true → m.holder i ≡ some t
    pub unmet : (t : ℕ) → decided (m.place t) ≡ true → m.condition ≡ false
    pub only : (t : ℕ) → is_sleeping (m.tasks t).state ≡ true → down (m.place t) ≡ true
    pub on_chan :
        (t : ℕ)
        → down (m.place t) ≡ true
        → is_sleeping (m.tasks t).state ≡ true
        → (m.tasks t).chan ≡ chan
    pub seen :
        (i : ℕ)
        → i < ntask
        → m.condition ≡ true
        → waits (m.place i) (m.tasks i).state ≡ true
        → in_reach m m.lk i ≡ true

  module _ {m : Monitor} (v : Inv m) (t : ℕ) (side : Bool) where
    abbrev after : Place → Monitor
    after p = let (n, q) = step chan t side p m in record n { place = set n.place t q }

    after-Inv : (p : Place) → m.place t ≡ p → Inv (after p)
    unfolding step sleep wakeup
    after-Inv _ h = record {
      locked = λ i p. ground (arith, v.locked i, v.locked t);
      own = λ i k p. ground (arith, v.own i k, v.own t k, v.own i t, v.own t t);
      unmet = λ i p. ground (arith, v.unmet i, v.unmet t, v.locked i, v.locked t);
      only = λ i p. ground (arith, v.only i, v.only t);
      on_chan = λ i p q. ground (arith, v.on_chan i, v.on_chan t, v.only i);
      seen = λ i lt c p. ground (
        arith,
        v.seen i,
        v.locked t,
        v.locked i,
        v.unmet t,
        v.own t i,
        v.own i i,
        v.on_chan i,
        v.only i,
      );
    }

    move-Inv : Inv (move chan t side m)
    unfolding move
    move-Inv = after-Inv (m.place t) refl

  -- No lock is held and every task is idle.
  abbrev pub start : Tasks → Bool → Monitor
  start s condition = record {
    lk = none;
    condition = condition;
    tasks = s;
    holder = λ i. none;
    place = λ t. idle;
  }

  start-Inv :
      (s : Tasks) (condition : Bool)
      → ((t : ℕ) → is_sleeping (s t).state ≡ false)
      → Inv (start s condition)
  start-Inv s condition awake = record {
    locked = λ t p. cc;
    own = λ t i p. cc;
    unmet = λ t p. cc;
    only = λ t p. absurd (ground (arith, awake t));
    on_chan = λ t p q. cc;
    seen = λ i lt c p. cc;
  }

  run-Inv :
      (s : Tasks) (condition : Bool) (schedule : List (ℕ × Bool))
      → ((t : ℕ) → is_sleeping (s t).state ≡ false)
      → Inv (run chan (start s condition) schedule)
  unfolding run
  run-Inv s condition List.[] awake = start-Inv s condition awake
  run-Inv s condition (List.◌∷◌ (t, side) schedule) awake =
      move-Inv (run-Inv s condition schedule awake) t side

  reached :
      (m : Monitor) (i : ℕ) (o : Option ℕ)
      → in_reach m o i ≡ true
      → (t : ℕ) × (o ≡ some t) × (reaches (m.place t) i ≡ true)
  reached m i none h = cc
  reached m i (some t) h = (t, refl, h)

  -- Whatever the order of the steps: while the condition holds, a task that sleeps on the channel, or has
  -- decided to, is still before a `wakeup` that goes on and holds `lk`. So when the condition holds and no
  -- task is in its critical section, no task sleeps: no wakeup is lost.
  pub no_lost_wakeup :
      (s : Tasks) (condition : Bool) (schedule : List (ℕ × Bool)) (i : ℕ)
      → ((t : ℕ) → is_sleeping (s t).state ≡ false)
      → i < ntask
      → let m = run chan (start s condition) schedule in
        m.condition ≡ true
        → waits (m.place i) (m.tasks i).state ≡ true
        → (t : ℕ) × (m.lk ≡ some t) × (reaches (m.place t) i ≡ true)
  no_lost_wakeup s condition schedule i awake lt holds_now sleeps =
      let m = run chan (start s condition) schedule in
      reached m i m.lk ((run-Inv s condition schedule awake).seen i lt holds_now sleeps)
