-- ===== src/Console/Read.antt =====
-- Reading from the console takes finished input from the front of the line.
use zrhos.Base.{
  u32, u64, not, ltb, ℕ, zero, suc, ◌+◌, ◌%◌, ◌≡◌, refl, ap, inl, inr, Bool, true, false, List, [],
  ◌∷◌, arith, ◌==◌, Bool-cases, get_or, u32, sub32,
}
use zrhos.Console.Defs.{
  Cons, console_read, Outcome, console_read, read_loop, carriage_return, ctrl_p, ctrl_u, ctrl_h,
  delete_key, ctrl_d, Event, consputc, backspace_code, newline, kill_line, erase_one, accept,
  console_intr,
}
use zrhos.Console.Defs
use zrhos.Console.Window.{window}
use zrhos.Console.Line
use zrhos.Console.Line.{Line, drop_last, rub_out}
use zrhos.Console.Valid.{view, IsValid}

abbrev pub AnswerOf : Outcome → Line.Answer → List ℕ → Type 0
AnswerOf (Outcome.returned value s copied) (Line.Answer.returned value' left copied') edit =
    IsValid s
    × (value ≡ value')
    × (view s ≡ record { ready = left; edit = edit })
    × (copied ≡ copied')
AnswerOf (Outcome.sleeping n dst s copied) (Line.Answer.sleeping n' dst' copied') edit =
    IsValid s
    × (n ≡ n')
    × (dst ≡ dst')
    × (view s ≡ record { ready = []; edit = edit })
    × (copied ≡ copied')
AnswerOf _ _ edit = ⊥

AnswerOf-cons :
    (x : ℕ × ℕ) (o : Outcome) (a : Line.Answer) (edit : List ℕ)
    → AnswerOf o a edit
    → AnswerOf (Defs.cons_copied x o) (Line.cons_copied x a) edit
AnswerOf-cons x (Outcome.returned value s copied) (Line.Answer.returned value' left copied') edit
      (v, p, q, r) =
    (v, p, q, ap (λ l. x ∷ l) r)
AnswerOf-cons x (Outcome.sleeping n dst s copied) (Line.Answer.sleeping n' dst' copied') edit
      (v, p, p', q, r) =
    (v, p, p', q, ap (λ l. x ∷ l) r)
AnswerOf-cons x (Outcome.returned value s copied) (Line.Answer.sleeping n' dst' copied') edit h =
    absurd h
AnswerOf-cons x (Outcome.sleeping n dst s copied) (Line.Answer.returned value' left copied') edit
      h =
    absurd h

-- The state after one byte is taken from the front.
module _ {s : Cons} (v : IsValid s) (m : ℕ) (some_ready : sub32 s.w s.r ≡ suc m) where
  abbrev taken : Cons
  taken = record s { r = u32 (s.r + 1) }

  one_less : sub32 taken.w taken.r ≡ m
  one_less = omega (arith, v.r_word, v.w_word)

  taken-IsValid : IsValid taken
  taken-IsValid = record {
    full_size = v.full_size;
    r_word = omega arith;
    w_word = v.w_word;
    e_word = v.e_word;
    room = omega (arith, v.r_word, v.w_word, v.room);
    open_line = v.open_line;
  }

  taken-view : view taken ≡ record { ready = window s.buf (u32 (s.r + 1)) m; edit = (view s).edit }
  taken-view =
      ap (λ (n : ℕ). let l : Line = record (view s) { ready = window s.buf (u32 (s.r + 1)) n } in l)
        one_less

  ready_split : (view s).ready ≡ get_or s.buf (s.r % 128) 0 ∷ window s.buf (u32 (s.r + 1)) m
  ready_split = ap (window s.buf s.r) some_ready

module _ (killed : Bool) (copies : ℕ → Bool) (target : ℕ) where
  -- One round of the loop, from what the later rounds do.
  read_step-AnswerOf :
      (k n dst : ℕ) {s : Cons}
      → ((dst' : ℕ) (t : Cons)
          → IsValid t
          → AnswerOf
              (read_loop killed copies target n dst' t)
              (Line.read_line killed copies target n dst' (view t).ready)
              (view t).edit)
      → IsValid s
      → sub32 s.w s.r ≡ k
      → AnswerOf
          (read_loop killed copies target (suc n) dst s)
          (Line.read_line killed copies target (suc n) dst (view s).ready)
          (view s).edit
  unfolding read_loop Line.read_line
  read_step-AnswerOf zero n dst {s} later v h =
      let none_left : (s.r == s.w) ≡ true = ground (arith, v.r_word, v.w_word) in
      let empty : view s ≡ record { ready = []; edit = (view s).edit } =
        ap (λ (j : ℕ). let l : Line = record (view s) { ready = window s.buf s.r j } in l) h in
      rw (none_left, ap (window s.buf s.r) h)
        (elim (Bool-cases killed) [
          | inl t ↦ rw t (v, refl, empty, refl)
          | inr f ↦ rw f (v, refl, refl, empty, refl)
        ])
  read_step-AnswerOf (suc m) n dst {s} later v h =
      let more : (s.r == s.w) ≡ false = ground (arith, v.r_word, v.w_word) in
      let byte : ℕ = get_or s.buf (s.r % 128) 0 in
      let rest : AnswerOf (read_loop killed copies target n (u64 (dst + 1)) (taken v m h))
          (Line.read_line killed copies target n (u64 (dst + 1)) (window s.buf (u32 (s.r + 1)) m))
          (view s).edit =
        rw (one_less v m h) at (later (u64 (dst + 1)) (taken v m h) (taken-IsValid v m h)) in
      let whole : view s
          ≡ record { ready = byte ∷ window s.buf (u32 (s.r + 1)) m; edit = (view s).edit } =
        ap (λ (l : List ℕ). let x : Line = record (view s) { ready = l } in x)
          (ready_split v m h) in
      rw (more, ready_split v m h)
        (elim (Bool-cases (byte == ctrl_d)) [
          | inl t ↦ rw t (elim (Bool-cases (ltb (suc n) target)) [
            | inl kept ↦ rw kept (v, refl, whole, refl)
            | inr eaten ↦ rw eaten (taken-IsValid v m h, refl, taken-view v m h, refl)
          ])
          | inr f ↦ rw f (elim (Bool-cases (not (copies dst))) [
            | inl fault ↦ rw fault (taken-IsValid v m h, refl, taken-view v m h, refl)
            | inr stored ↦ rw stored (elim (Bool-cases (byte == newline)) [
              | inl t ↦ rw t (taken-IsValid v m h, refl, taken-view v m h, refl)
              | inr g ↦ rw g (AnswerOf-cons (dst, byte) _ _ _ rest)
            ])
          ])
        ])

  read_loop-AnswerOf :
      (n dst : ℕ) (s : Cons)
      → IsValid s
      → AnswerOf
          (read_loop killed copies target n dst s)
          (Line.read_line killed copies target n dst (view s).ready)
          (view s).edit
  unfolding read_loop Line.read_line
  read_loop-AnswerOf zero dst s v = (v, refl, refl, refl)
  read_loop-AnswerOf (suc n) dst s v =
      read_step-AnswerOf (sub32 s.w s.r) n dst (λ dst' t. read_loop-AnswerOf n dst' t) v refl

-- `console_read` on a valid buffer keeps the buffer valid and answers as `Line.read_line` does on
-- the finished input, whatever the flag of the task, the addresses that can be written and the size.
pub console_read-AnswerOf :
    (killed : Bool) (copies : ℕ → Bool) (dst n : ℕ) (s : Cons)
    → IsValid s
    → AnswerOf
        (console_read killed copies dst n s)
        (Line.read_line killed copies (u32 n) n dst (view s).ready)
        (view s).edit
unfolding console_read
console_read-AnswerOf killed copies dst n s v = read_loop-AnswerOf killed copies (u32 n) n dst s v
