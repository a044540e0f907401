-- ===== src/Proc/Zombies.antt =====
-- The dead children of a task, counted.
use zrhos.Base.{
  subst, ℕ, zero, suc, ◌+◌, ◌≤◌, ◌<◌, ◌≡◌, refl, sym, ap, Bool, true, false, not, ◌&&◌, some, arith,
  ◌==◌, if◌then◌else◌, Bool-cases, inl, inr, ℕ_discrete, dec_lt,
}
use zrhos.Proc.{Task, Tasks, update, is_parent, is_zombie_of, ntask, signal, reparent_loop}

abbrev pub one_if : Bool → ℕ
one_if true = 1
one_if false = 0

-- The tasks below `n` that are zombies with parent `p`.
unfoldable pub zombies : ℕ → ℕ → Tasks → ℕ
zombies zero p s = 0
zombies (suc n) p s = zombies n p s + one_if (is_zombie_of p (s n))

zombies-above :
    (n p k : ℕ) (s : Tasks) (v : Task) → n ≤ k → zombies n p (update s k v) ≡ zombies n p s
unfolding zombies
zombies-above zero p k s v le = refl
zombies-above (suc n) p k s v le =
    let other : (k == n) ≡ false = ground arith in
    rw (zombies-above n p k s v (omega arith), other) refl

pub zombies-update :
    (n p k : ℕ) (s : Tasks) (v : Task)
    → k < n
    → zombies n p (update s k v) + one_if (is_zombie_of p (s k))
      ≡ zombies n p s + one_if (is_zombie_of p v)
unfolding zombies
zombies-update zero p k s v lt = absurd (omega arith)
zombies-update (suc n) p k s v lt = elim (Bool-cases (k == n)) [
  | inl t ↦
      let here : k ≡ n = ground arith in
      rw (zombies-above n p k s v (omega arith), t, here) (omega arith)
  | inr f ↦ let below : k < n = ground arith in rw f (omega (arith, zombies-update n p k s v below))
]

-- Every zombie has left a unit with its parent.
abbrev pub Signalled : Tasks → Type 0
Signalled s = (p : ℕ) → zombies ntask p s ≤ (s p).sons

pub one_if-le : (b : Bool) → one_if b ≤ 1
one_if-le true = omega arith
one_if-le false = omega arith

pub zombies-signal : (q p : ℕ) (s : Tasks) → zombies ntask q (signal p s) ≡ zombies ntask q s
zombies-signal q p s = elim (dec_lt p ntask) [
  | yes lt ↦ omega (arith, zombies-update ntask q p s (record (s p) { sons = (s p).sons + 1 }) lt)
  | no ge ↦ zombies-above ntask q p s (record (s p) { sons = (s p).sons + 1 }) (omega arith)
]

-- One child is moved to task 0.
pub move-Signalled :
    (k : ℕ) (s : Tasks)
    → k < ntask
    → Signalled s
    → Signalled (signal 0 (update s k (record (s k) { parent = some 0 })))
move-Signalled k s lt h p =
    let v : Task = record (s k) { parent = some 0 } in
    let count = zombies-update ntask p k s v lt in
    let sons : (update s k v p).sons ≡ (s p).sons = ground arith in
    elim (ℕ_discrete 0 p) [
      | yes e ↦
          let up : (signal 0 (update s k v) p).sons ≡ (s p).sons + 1 = ground arith in
          omega (arith, zombies-signal p 0 (update s k v), count, h p, one_if-le (is_zombie_of p v))
      | no ne ↦
          let none_here : is_zombie_of p v ≡ false = ground arith in
          let zero_here : one_if (is_zombie_of p v) ≡ 0 = ap one_if none_here in
          let same : (signal 0 (update s k v) p).sons ≡ (s p).sons = ground arith in
          omega (arith, zombies-signal p 0 (update s k v), count, h p)
    ]

pub reparent_loop-Signalled :
    (rounds i t : ℕ) (s : Tasks)
    → i + rounds ≤ ntask
    → Signalled s
    → Signalled (reparent_loop rounds i t s)
unfolding reparent_loop
reparent_loop-Signalled zero i t s le h = h
reparent_loop-Signalled (suc rounds) i t s le h =
    let moved : Tasks = signal 0 (update s i (record (s i) { parent = some 0 })) in
    let after : Bool → Tasks = λ b. reparent_loop rounds (i + 1) t (if b then moved else s) in
    elim (Bool-cases (not (t == i) && is_parent (s i).parent t)) [
      | inl y ↦
          subst (λ b. Signalled (after b)) (sym y)
            (reparent_loop-Signalled rounds (i + 1) t moved (omega arith)
              (move-Signalled i s (omega arith) h))
      | inr f ↦
          subst (λ b. Signalled (after b)) (sym f)
            (reparent_loop-Signalled rounds (i + 1) t s (omega arith) h)
    ]
