-- ===== src/Console/Valid.antt =====
-- The invariant of the console buffer, the line that it stands for, and rubbing out.
use zrhos.Base.{
  ℕ, zero, suc, ◌+◌, ◌%◌, ◌^◌, ◌≤◌, ◌<◌, ◌≡◌, ◌≢◌, refl, sym, ap, ◌∙◌, true, false, List, [], ◌∷◌,
  ◌++◌, arith, ◌==◌, length, All, get_or, u32, sub32,
}
use zrhos.Console.Defs.{Cons, Event, consputc, backspace_code, newline, kill_line, erase_one}
use zrhos.Console.Window.{window, length-window, window-suc}
use zrhos.Console.Line
use zrhos.Console.Line.{Line, drop_last, rub_out}

-- The part of the buffer that is finished, and the part being typed.
abbrev pub view : Cons → Line
view s = record {
  ready = window s.buf s.r (sub32 s.w s.r);
  edit = window s.buf s.w (sub32 s.e s.w);
}

-- The buffer has its size, `w` lies between `r` and `e` round the ring, at most 128 bytes apart,
-- and the line being typed holds no end of line.
pub record IsValid (s : Cons) : Type 0 where
  pub full_size : length s.buf ≡ 128
  pub r_word : s.r < 2 ^ 32
  pub w_word : s.w < 2 ^ 32
  pub e_word : s.e < 2 ^ 32
  pub room : sub32 s.w s.r + sub32 s.e s.w ≤ 128
  pub open_line : All (λ c. c ≢ newline) (window s.buf s.w (sub32 s.e s.w))

All-append {ℓ κ} :
    {A : Type ℓ} (P : A → Type κ) (xs ys : List A) → All P (xs ++ ys) → All P xs × All P ys
All-append P [] ys h = (tt, h)
All-append P (x ∷ xs) ys (p, h) = let (a, b) = All-append P xs ys h in ((p, a), b)

pub append-All {ℓ κ} :
    {A : Type ℓ} (P : A → Type κ) (xs ys : List A) → All P xs → All P ys → All P (xs ++ ys)
append-All P [] ys h k = k
append-All P (x ∷ xs) ys (p, h) k = (p, append-All P xs ys h k)

drop_last-append : (xs : List ℕ) (x : ℕ) → drop_last (xs ++ x ∷ []) ≡ xs
drop_last-append [] x = refl
drop_last-append (y ∷ []) x = refl
drop_last-append (y ∷ z ∷ l) x = ap (λ t. y ∷ t) (drop_last-append (z ∷ l) x)

-- The last byte of the line being typed, where there is one.
module _ {s : Cons} (v : IsValid s) (k : ℕ) (some_left : sub32 s.e s.w ≡ suc k) where
  abbrev shorter : Cons
  shorter = record s { e = sub32 s.e 1 }

  abbrev last_byte : ℕ
  last_byte = get_or s.buf (sub32 s.e 1 % 128) 0

  edit_split : window s.buf s.w (sub32 s.e s.w) ≡ window s.buf s.w k ++ last_byte ∷ []
  edit_split =
      let at_end : u32 (s.w + k) ≡ sub32 s.e 1 = omega (arith, v.w_word, v.e_word) in
      ap (window s.buf s.w) some_left
      ∙ (window-suc s.buf s.w k v.w_word
          ∙ ap (λ j. window s.buf s.w k ++ get_or s.buf (j % 128) 0 ∷ []) at_end)

  one_less : sub32 shorter.e s.w ≡ k
  one_less = omega (arith, v.w_word, v.e_word)

  open_parts : All (λ c. c ≢ newline) (window s.buf s.w k) × All (λ c. c ≢ newline) (last_byte ∷ [])
  open_parts =
      let whole : All (λ c. c ≢ newline) (window s.buf s.w k ++ last_byte ∷ []) =
        rw edit_split at v.open_line in
      All-append (λ c. c ≢ newline) (window s.buf s.w k) (last_byte ∷ []) whole

  shorter-IsValid : IsValid shorter
  shorter-IsValid = record {
    full_size = v.full_size;
    r_word = v.r_word;
    w_word = v.w_word;
    e_word = omega arith;
    room = omega (arith, v.w_word, v.e_word, v.room);
    open_line = rw one_less open_parts.0;
  }

-- A console state with its events does what the line with its events says.
abbrev pub Refines : Cons × List Event → Line × List Event → Type 0
Refines (s, out) (l, out') = IsValid s × (view s ≡ l) × (out ≡ out')

no_edit : (s : Cons) → sub32 s.e s.w ≡ 0 → view s ≡ record (view s) { edit = [] }
no_edit s h = ap (λ (n : ℕ). let l : Line = record (view s) { edit = window s.buf s.w n } in l) h

pub kill_line-Refines :
    (k : ℕ) {s : Cons}
    → IsValid s
    → sub32 s.e s.w ≡ k
    → Refines (kill_line k s) (record (view s) { edit = [] }, rub_out k)
unfolding kill_line
kill_line-Refines zero {s} v h = (v, no_edit s h, refl)
kill_line-Refines (suc k) {s} v h =
    let more : (s.e == s.w) ≡ false = ground arith in
    let inside : (get_or s.buf (sub32 s.e 1 % 128) 0 == newline) ≡ false =
      ground (arith, (open_parts v k h).1.0) in
    let (v', line, out) = kill_line-Refines k (shorter-IsValid v k h) (one_less v k h) in
    rw (more, inside) (v', line, ap (λ l. consputc backspace_code ++ l) out)

erase_one_by :
    (k : ℕ) {s : Cons}
    → IsValid s
    → sub32 s.e s.w ≡ k
    → Refines (erase_one s) (Line.rub_one (view s))
unfolding erase_one Line.rub_one
erase_one_by zero {s} v h =
    let none_left : (s.e == s.w) ≡ true = ground arith in
    let empty : (length (window s.buf s.w (sub32 s.e s.w)) == 0) ≡ true =
      ground (arith, length-window s.buf s.w (sub32 s.e s.w)) in
    rw (none_left, empty) (v, refl, refl)
erase_one_by (suc k) {s} v h =
    let more : (s.e == s.w) ≡ false = ground arith in
    let some_left : (length (window s.buf s.w (sub32 s.e s.w)) == 0) ≡ false =
      ground (arith, length-window s.buf s.w (sub32 s.e s.w)) in
    rw (more, some_left)
      (
        shorter-IsValid v k h,
        ap (λ (l : List ℕ). let x : Line = record (view s) { edit = l } in x)
            (ap (window s.buf s.w) (one_less v k h)
              ∙ (sym (drop_last-append (window s.buf s.w k) (last_byte v k h))
                  ∙ ap drop_last (sym (edit_split v k h)))),
        refl,
      )

pub erase_one-Refines : {s : Cons} → IsValid s → Refines (erase_one s) (Line.rub_one (view s))
erase_one-Refines {s} v = erase_one_by (sub32 s.e s.w) v refl
