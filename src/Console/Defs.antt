-- ===== src/Console/Defs.antt =====
-- The state and the functions of kernel/console.c.
use zrhos.Base.{
  ℕ, zero, suc, ◌+◌, ◌-◌, ◌%◌, ◌^◌, Bool, not, ◌&&◌, ◌||◌, List, [], ◌∷◌, ◌++◌, ◌==◌, ltb,
  if◌then◌else◌, get_or, set, u8, u32, u64, sub32,
}

-- `cons`: the indices run on modulo 2 ^ 32, and address `buf` modulo its size.
pub record Cons : Type 0 where
  pub buf : List ℕ
  pub r : ℕ
  pub w : ℕ
  pub e : ℕ

abbrev pub input_buf_size : ℕ
input_buf_size = 128

abbrev pub backspace_code : ℕ
backspace_code = 0x100

-- `C('D')`, `C('H')`, `C('P')`, `C('U')` and the other characters that are singled out
abbrev pub ctrl_d : ℕ
ctrl_d = 4

abbrev pub ctrl_h : ℕ
ctrl_h = 8

abbrev pub newline : ℕ
newline = 10

abbrev pub carriage_return : ℕ
carriage_return = 13

abbrev pub ctrl_p : ℕ
ctrl_p = 16

abbrev pub ctrl_u : ℕ
ctrl_u = 21

abbrev pub delete_key : ℕ
delete_key = 127

-- What a call does outside `cons`, in order.
pub data Event : Type 0 where
  uart_putc : ℕ → Event
  procdump : Event
  wakeup : Event

unfoldable pub consputc : ℕ → List Event
consputc c =
    if c == backspace_code
    then uart_putc 8 ∷ uart_putc 32 ∷ uart_putc 8 ∷ []
    else uart_putc (u8 c) ∷ []

-- The loop of the kill character. Each round takes one from `e`, so `e - w` rounds end it.
unfoldable pub kill_line : ℕ → Cons → Cons × List Event
kill_line zero s = (s, [])
kill_line (suc k) s =
    let (s', out) = kill_line k (record s { e = sub32 s.e 1 }) in
    if not (s.e == s.w) && not (get_or s.buf (sub32 s.e 1 % input_buf_size) 0 == newline)
    then (s', consputc backspace_code ++ out)
    else (s, [])

unfoldable pub erase_one : Cons → Cons × List Event
erase_one s =
    if not (s.e == s.w) then (record s { e = sub32 s.e 1 }, consputc backspace_code) else (s, [])

-- The part of the default case behind its guard, with `c` already translated.
unfoldable pub accept : ℕ → Cons → Cons × List Event
accept c s =
    let s' : Cons = record s { buf = set s.buf (s.e % input_buf_size) (u8 c); e = u32 (s.e + 1) } in
    if c == newline || c == ctrl_d || sub32 s'.e s'.r == input_buf_size
    then (record s' { w = s'.e }, consputc c ++ wakeup ∷ [])
    else (s', consputc c)

unfoldable pub console_intr : ℕ → Cons → Cons × List Event
console_intr c s =
    if c == ctrl_p
    then (s, procdump ∷ [])
    else if c == ctrl_u
    then kill_line (sub32 s.e s.w) s
    else if c == ctrl_h || c == delete_key
    then erase_one s
    else if not (c == 0) && ltb (sub32 s.e s.r) input_buf_size
    then accept (if c == carriage_return then newline else c) s
    else (s, [])

-- Where a `read` stands: it has returned its value, or it sleeps with `n` bytes to go at `dst`.
-- `copied` is what it has stored since it was started or resumed, with the addresses.
pub data Outcome : Type 0 where
  returned : (value : ℕ) → Cons → (copied : List (ℕ × ℕ)) → Outcome
  sleeping : (n dst : ℕ) → Cons → (copied : List (ℕ × ℕ)) → Outcome

abbrev pub cons_copied : ℕ × ℕ → Outcome → Outcome
cons_copied x (returned v s l) = returned v s (x ∷ l)
cons_copied x (sleeping n dst s l) = sleeping n dst s (x ∷ l)

-- `killed` is the flag of the calling task, and `copies a` says whether `either_copyout` to the
-- address `a` succeeds. `target` was cut to 32 bits; `target - n` is taken in 64.
module _ (killed : Bool) (copies : ℕ → Bool) (target : ℕ) where
  unfoldable pub read_loop : ℕ → ℕ → Cons → Outcome
  read_loop zero dst s = returned (u64 target) s []
  read_loop (suc n) dst s =
      let c = get_or s.buf (s.r % input_buf_size) 0 in
      let s' : Cons = record s { r = u32 (s.r + 1) } in
      let so_far = u64 (target + 2 ^ 64 - suc n) in
      let rest = read_loop n (u64 (dst + 1)) s' in
      if s.r == s.w
      then (if killed then returned (2 ^ 64 - 1) s [] else sleeping (suc n) dst s [])
      else if c == ctrl_d
      then returned so_far (if ltb (suc n) target then s else s') []
      else if not (copies dst)
      then returned so_far s' []
      else if c == newline
      then returned (u64 (target + 2 ^ 64 - n)) s' ((dst, c) ∷ [])
      else cons_copied (dst, c) rest

unfoldable pub console_read : Bool → (ℕ → Bool) → ℕ → ℕ → Cons → Outcome
console_read killed copies dst n s = read_loop killed copies (u32 n) n dst s
