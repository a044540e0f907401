-- ===== src/Lock/Nesting.antt =====
-- `push_off` and `pop_off` of kernel/lock.c on one CPU: interrupts come back on only when every
-- `push_off` has met its `pop_off`, and only if they were on before the first.
use zrhos.Base.{
  ◌⊎◌, inr, ℕ, ◌+◌, ◌-◌, ◌<◌, ◌≡◌, refl, ◌∙◌, Bool, false, ◌&&◌, Option, none, some, List, [], ◌∷◌,
  ◌++◌, arith, if◌then◌else◌, ◌==◌, ltb,
}

-- The fields of `cpu_t` that these functions use, and the interrupt enable bit of the CPU.
pub record Cpu : Type 0 where
  pub noff : ℕ
  pub intena : Bool
  pub intr : Bool

unfoldable pub push_off : Cpu → Cpu
push_off c = record c {
  noff = c.noff + 1;
  intena = if c.noff == 0 then c.intr else c.intena;
  intr = false;
}

-- `none` is a panic.
unfoldable pub pop_off : Cpu → Option Cpu
pop_off c =
    if c.intr
    then none
    else if ltb c.noff 1
    then none
    else some (record c { noff = c.noff - 1; intr = (c.noff - 1 == 0) && c.intena })

pub data Op : Type 0 where
  push pop : Op

unfoldable pub run : List Op → Cpu → Option Cpu
run [] c = some c
run (push ∷ ops) c = run ops (push_off c)
run (pop ∷ ops) c = elim (pop_off c) [ none ↦ none | some c' ↦ run ops c' ]

-- A nest of brackets: one bracket round a nest, and what follows it.
pub data Nest : Type 0 where
  done : Nest
  bracket : (inner rest : Nest) → Nest

abbrev pub calls : Nest → List Op
calls done = []
calls (bracket inner rest) = push ∷ (calls inner ++ (pop ∷ calls rest))

-- Inside a bracket interrupts are off.
abbrev pub IsValid : Cpu → Type 0
IsValid c = 0 < c.noff → c.intr ≡ false

run-append : (xs ys : List Op) (c d : Cpu) → run xs c ≡ some d → run (xs ++ ys) c ≡ run ys d
unfolding run
run-append [] ys c d h = ground arith
run-append (push ∷ xs) ys c d h = run-append xs ys (push_off c) d h
run-append (pop ∷ xs) ys c d h = step (pop_off c) (λ c'. run-append xs ys c' d) h
  where
    step :
        (o : Option Cpu)
        → ((c' : Cpu) → run xs c' ≡ some d → run (xs ++ ys) c' ≡ run ys d)
        → ◌≡◌ {A = Option Cpu} (elim o [ none ↦ none | some c' ↦ run xs c' ]) (some d)
        → ◌≡◌ {A = Option Cpu} (elim o [ none ↦ none | some c' ↦ run (xs ++ ys) c' ]) (run ys d)
    step none ih h = cc
    step (some c') ih h = ih c' h

abbrev pub Restored : Cpu → Cpu → Type 0
Restored c d = (d.noff ≡ c.noff) × (d.intr ≡ c.intr) × ((c.noff ≡ 0) ⊎ (d.intena ≡ c.intena))

-- One bracket, from what its inside does.
pop_after :
    (c d : Cpu)
    → IsValid c
    → Restored (push_off c) d
    → (e : Cpu) × (pop_off d ≡ some e) × Restored c e
unfolding push_off pop_off
pop_after c d v (depth, off, kept) = (
  record d { noff = d.noff - 1; intr = (d.noff - 1 == 0) && d.intena },
  ground arith,
  ground arith,
)

push_off-IsValid : (c : Cpu) → IsValid (push_off c)
unfolding push_off
push_off-IsValid c h = refl

Restored-IsValid : (c d : Cpu) → IsValid c → Restored c d → IsValid d
Restored-IsValid c d v (depth, off, kept) h = ground (arith, v (omega arith))

Restored-trans : (c d e : Cpu) → Restored c d → Restored d e → Restored c e
Restored-trans c d e (p, q, k) (p', q', k') = (p' ∙ p, q' ∙ q, ground arith)

-- Matched calls never panic, leave the depth and the interrupt bit as they were, and inside an outer
-- bracket the saved bit too.
pub run-Restored :
    (b : Nest) (c : Cpu) → IsValid c → (d : Cpu) × (run (calls b) c ≡ some d) × Restored c d
unfolding run
run-Restored done c v = (c, refl, (refl, refl, inr refl))
run-Restored (bracket inner rest) c v =
    let (d, inner_ran, inner_ok) = run-Restored inner (push_off c) (push_off-IsValid c) in
    let (e, popped, outer_ok) = pop_after c d v inner_ok in
    let (f, rest_ran, rest_ok) = run-Restored rest e (Restored-IsValid c e v outer_ok) in
    (
      f,
      run-append (calls inner) (pop ∷ calls rest) (push_off c) d inner_ran
          ∙ rw (popped, run) rest_ran,
      Restored-trans c e f outer_ok rest_ok,
    )
