-- ===== src/Console/Tests.antt =====
-- Runs of the console on concrete input, and the theorems at concrete states.
use zrhos.Base.{ℕ, ◌≡◌, refl, true, false, List, [], ◌∷◌, arith, replicate, length-replicate}
use zrhos.Console.Defs.{
  Cons, Outcome, kill_line, erase_one, accept, console_intr, read_loop, console_read,
}
use zrhos.Console.Line
use zrhos.Console.Line.{Line}
use zrhos.Console.Valid.{IsValid, Refines, view}
use zrhos.Console.Refine.{console_intr-Refines}
use zrhos.Console.Read.{AnswerOf, console_read-AnswerOf}

abbrev empty : Cons
empty = record { buf = replicate 128 0; r = 0; w = 0; e = 0 }

abbrev keys : List ℕ → Cons → Cons
keys [] s = s
keys (c ∷ cs) s = keys cs (console_intr c s).0

-- "ab", a backspace, "c" and return
abbrev typed : Cons
typed = keys (97 ∷ 98 ∷ 8 ∷ 99 ∷ 13 ∷ []) empty

typed_line : view typed ≡ record { ready = 97 ∷ 99 ∷ 10 ∷ []; edit = [] }
unfolding console_intr accept erase_one
typed_line = refl

read_typed :
    console_read false (λ a. true) 1000 64 typed
    ≡ Outcome.returned 3 (record typed { r = 3 }) ((1000, 97) ∷ (1001, 99) ∷ (1002, 10) ∷ [])
unfolding console_intr accept erase_one console_read read_loop
read_typed = refl

killed_line : view (keys (97 ∷ 98 ∷ 21 ∷ 100 ∷ []) empty) ≡ record { ready = []; edit = 100 ∷ [] }
unfolding console_intr accept kill_line
killed_line = refl

empty-IsValid : IsValid empty
empty-IsValid = record {
  full_size = length-replicate {A = ℕ} 128 0;
  r_word = omega arith;
  w_word = omega arith;
  e_word = omega arith;
  room = omega arith;
  open_line = tt;
}

console_intr-Refines_example : Refines (console_intr 97 empty) (Line.key 97 (view empty))
console_intr-Refines_example = console_intr-Refines {s = empty} 97 (omega arith) empty-IsValid

half_typed-IsValid : IsValid (console_intr 13 empty).0
half_typed-IsValid = (console_intr-Refines {s = empty} 13 (omega arith) empty-IsValid).0

console_read-AnswerOf_example :
    AnswerOf
      (console_read false (λ a. true) 1000 64 (console_intr 13 empty).0)
      (Line.read_line false (λ a. true) 64 64 1000 (view (console_intr 13 empty).0).ready)
      (view (console_intr 13 empty).0).edit
console_read-AnswerOf_example =
    console_read-AnswerOf false (λ a. true) 1000 64 (console_intr 13 empty).0 half_typed-IsValid
