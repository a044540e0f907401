-- ===== src/Console/Refine.antt =====
-- The interrupt handler of the console behaves as a line editor.
use zrhos.Base.{
  not, ◌&&◌, ltb, ◌||◌, ℕ, ◌+◌, ◌<◌, ◌≡◌, refl, inl, inr, true, false, List, [], arith, ◌==◌,
  if◌then◌else◌, Bool-cases, length, sub32,
}
use zrhos.Console.Defs.{
  Cons, carriage_return, ctrl_p, ctrl_u, ctrl_h, delete_key, Event, newline, accept, console_intr,
}
use zrhos.Console.Window.{length-window}
use zrhos.Console.Line
use zrhos.Console.Line.{Line, drop_last, rub_out}
use zrhos.Console.Valid.{view, IsValid, Refines, kill_line-Refines, erase_one-Refines}
use zrhos.Console.Accept.{accept-Refines}

used : {s : Cons} → IsValid s → sub32 s.e s.r ≡ length (view s).ready + length (view s).edit
used {s} v = omega (
  arith,
  v.r_word,
  v.w_word,
  v.e_word,
  v.room,
  length-window s.buf s.r (sub32 s.w s.r),
  length-window s.buf s.w (sub32 s.e s.w),
)

-- The default case, with its guard.
take_in : ℕ → Cons → Cons × List Event
take_in c s =
    if not (c == 0) && ltb (sub32 s.e s.r) 128
    then accept (if c == carriage_return then newline else c) s
    else (s, [])

take_in_line : ℕ → Line → Line × List Event
take_in_line c l =
    if not (c == 0) && ltb (length l.ready + length l.edit) 128
    then Line.type (if c == carriage_return then newline else c) l
    else (l, [])

take_in-Refines :
    {s : Cons} (c : ℕ) → c < 256 → IsValid s → Refines (take_in c s) (take_in_line c (view s))
unfolding take_in take_in_line
take_in-Refines {s} c small v = elim (Bool-cases (not (c == 0) && ltb (sub32 s.e s.r) 128)) [
  | inl t ↦
      let t' : (not (c == 0) && ltb (length (view s).ready + length (view s).edit) 128) ≡ true =
        rw (used v) at t in
      rw (t, t')
        (accept-Refines v (if c == carriage_return then newline else c) (ground arith)
          (ground arith))
  | inr f ↦
      let f' : (not (c == 0) && ltb (length (view s).ready + length (view s).edit) 128) ≡ false =
        rw (used v) at f in
      rw (f, f') (v, refl, refl)
]

-- The interrupt handler does to the buffer what a key does to the line, with the same echo.
pub console_intr-Refines :
    {s : Cons} (c : ℕ) → c < 256 → IsValid s → Refines (console_intr c s) (Line.key c (view s))
unfolding console_intr Line.key take_in take_in_line
console_intr-Refines {s} c small v = elim (Bool-cases (c == ctrl_p)) [
  | inl t ↦ rw t (v, refl, refl)
  | inr f ↦ rw f (elim (Bool-cases (c == ctrl_u)) [
    | inl t ↦
        rw (t, length-window s.buf s.w (sub32 s.e s.w)) (kill_line-Refines (sub32 s.e s.w) v refl)
    | inr g ↦ rw g (elim (Bool-cases (c == ctrl_h || c == delete_key)) [
      | inl t ↦ rw t (erase_one-Refines v)
      | inr h ↦ rw h (take_in-Refines c small v)
    ])
  ])
]
