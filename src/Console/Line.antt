-- ===== src/Console/Line.antt =====
-- What the console promises of a line of input, with no indices: finished lines wait in `ready`,
-- the line being typed stands in `edit`, and together they hold at most 128 bytes.
use zrhos.Base.{
  ℕ, zero, suc, ◌+◌, ◌-◌, ◌^◌, Bool, not, ◌&&◌, ◌||◌, List, [], ◌∷◌, ◌++◌, ◌==◌, ltb, if◌then◌else◌,
  length, u8, u64,
}
use zrhos.Console.Defs.{
  Event, procdump, wakeup, consputc, input_buf_size, backspace_code, ctrl_d, ctrl_h, newline,
  carriage_return, ctrl_p, ctrl_u, delete_key,
}

pub record Line : Type 0 where
  pub ready : List ℕ
  pub edit : List ℕ

abbrev pub drop_last : List ℕ → List ℕ
drop_last [] = []
drop_last (x ∷ []) = []
drop_last (x ∷ y ∷ l) = x ∷ drop_last (y ∷ l)

-- The characters that rub `n` characters out on the screen.
abbrev pub rub_out : ℕ → List Event
rub_out zero = []
rub_out (suc n) = consputc backspace_code ++ rub_out n

unfoldable pub type : ℕ → Line → Line × List Event
type c l =
    let longer = l.edit ++ u8 c ∷ [] in
    if c == newline || c == ctrl_d || (length l.ready + length l.edit + 1 == input_buf_size)
    then (record { ready = l.ready ++ longer; edit = [] }, consputc c ++ wakeup ∷ [])
    else (record l { edit = longer }, consputc c)

unfoldable pub rub_one : Line → Line × List Event
rub_one l =
    if length l.edit == 0
    then (l, [])
    else (record l { edit = drop_last l.edit }, consputc backspace_code)

unfoldable pub key : ℕ → Line → Line × List Event
key c l =
    if c == ctrl_p
    then (l, procdump ∷ [])
    else if c == ctrl_u
    then (record l { edit = [] }, rub_out (length l.edit))
    else if c == ctrl_h || c == delete_key
    then rub_one l
    else if not (c == 0) && ltb (length l.ready + length l.edit) input_buf_size
    then type (if c == carriage_return then newline else c) l
    else (l, [])

-- What `read` gives for a queue of finished input: the value, or the bytes still wanted, with what
-- is left of the queue and what was stored.
pub data Answer : Type 0 where
  returned : (value : ℕ) → (left : List ℕ) → (copied : List (ℕ × ℕ)) → Answer
  sleeping : (n dst : ℕ) → (copied : List (ℕ × ℕ)) → Answer

abbrev pub cons_copied : ℕ × ℕ → Answer → Answer
cons_copied x (returned v q l) = returned v q (x ∷ l)
cons_copied x (sleeping n dst l) = sleeping n dst (x ∷ l)

module _ (killed : Bool) (copies : ℕ → Bool) (target : ℕ) where
  unfoldable pub read_line : ℕ → ℕ → List ℕ → Answer
  read_line zero dst q = returned (u64 target) q []
  read_line (suc n) dst [] = if killed then returned (2 ^ 64 - 1) [] [] else sleeping (suc n) dst []
  read_line (suc n) dst (c ∷ q) =
      let so_far = u64 (target + 2 ^ 64 - suc n) in
      let rest = read_line n (u64 (dst + 1)) q in
      if c == ctrl_d
      then returned so_far (if ltb (suc n) target then c ∷ q else q) []
      else if not (copies dst)
      then returned so_far q []
      else if c == newline
      then returned (u64 (target + 2 ^ 64 - n)) q ((dst, c) ∷ [])
      else cons_copied (dst, c) rest
