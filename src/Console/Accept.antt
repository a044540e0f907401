-- ===== src/Console/Accept.antt =====
-- A byte let in by `console_intr` extends the line.
use zrhos.Base.{
  ap₂, ◌||◌, ℕ, suc, ◌+◌, ◌%◌, ◌<◌, ◌≡◌, ◌≢◌, refl, ap, ◌∙◌, inl, inr, true, false, [], ◌∷◌, ◌++◌,
  arith, ◌==◌, Bool-cases, length, set, length-set, u8, u32, sub32,
}
use zrhos.Console.Defs.{Cons, ctrl_d, newline, accept}
use zrhos.Console.Window.{window, length-window, window-append, window-set_before, window-set_end}
use zrhos.Console.Line
use zrhos.Console.Line.{Line, drop_last, rub_out}
use zrhos.Console.Valid.{view, IsValid, Refines, append-All}

-- A byte that is let in goes to the end of the line, and an end of line hands the line over.
module _ {s : Cons} (v : IsValid s) (c : ℕ) (small : c < 256) (fits : sub32 s.e s.r < 128) where
  abbrev longer : Cons
  longer = record s { buf = set s.buf (s.e % 128) (u8 c); e = u32 (s.e + 1) }

  edit_longer :
      window longer.buf s.w (sub32 longer.e s.w) ≡ window s.buf s.w (sub32 s.e s.w) ++ u8 c ∷ []
  edit_longer =
      let one : sub32 longer.e s.w ≡ suc (sub32 s.e s.w) =
        omega (arith, v.w_word, v.e_word, v.room) in
      ap (window longer.buf s.w) one
      ∙ window-set_end s.buf s.w s.e (u8 c) v.w_word v.e_word (omega (arith, v.room)) v.full_size

  ready_same : window longer.buf s.r (sub32 s.w s.r) ≡ window s.buf s.r (sub32 s.w s.r)
  ready_same =
      window-set_before s.buf s.r (sub32 s.w s.r) s.e (u8 c) v.r_word v.e_word
        (omega (arith, v.room)) fits

  used_longer : sub32 longer.e s.r ≡ length (view s).ready + length (view s).edit + 1
  used_longer = omega (
    arith,
    v.r_word,
    v.w_word,
    v.e_word,
    v.room,
    length-window s.buf s.r (sub32 s.w s.r),
    length-window s.buf s.w (sub32 s.e s.w),
  )

  longer-IsValid : u8 c ≢ newline → IsValid longer
  longer-IsValid other = record {
    full_size = length-set s.buf (s.e % 128) (u8 c) ∙ v.full_size;
    r_word = v.r_word;
    w_word = v.w_word;
    e_word = omega arith;
    room = omega (arith, v.r_word, v.w_word, v.e_word, v.room);
    open_line = rw edit_longer (
        append-All (λ c. c ≢ newline) (window s.buf s.w (sub32 s.e s.w)) (u8 c ∷ []) v.open_line
          (other, tt));
  }

  abbrev handed_over : Cons
  handed_over = record longer { w = longer.e }

  no_gap : sub32 longer.e longer.e ≡ 0
  no_gap = omega arith

  handed_over-IsValid : IsValid handed_over
  handed_over-IsValid = record {
    full_size = length-set s.buf (s.e % 128) (u8 c) ∙ v.full_size;
    r_word = v.r_word;
    w_word = omega arith;
    e_word = omega arith;
    room = omega (arith, v.r_word, v.w_word, v.e_word, v.room);
    open_line = rw no_gap tt;
  }

  handed_over-view :
      view handed_over
      ≡ record { ready = (view s).ready ++ ((view s).edit ++ u8 c ∷ []); edit = [] }
  handed_over-view =
      let parts : sub32 longer.e s.r ≡ sub32 s.w s.r + sub32 longer.e s.w =
        omega (arith, v.r_word, v.w_word, v.e_word, v.room) in
      let meet : u32 (s.r + sub32 s.w s.r) ≡ s.w = omega (arith, v.r_word, v.w_word) in
      let all : window longer.buf s.r (sub32 longer.e s.r)
          ≡ window s.buf s.r (sub32 s.w s.r) ++ (window s.buf s.w (sub32 s.e s.w) ++ u8 c ∷ []) =
        ap (window longer.buf s.r) parts
        ∙ (window-append longer.buf s.r (sub32 s.w s.r) (sub32 longer.e s.w) v.r_word
            ∙ (ap
                  (λ j.
                    window longer.buf s.r (sub32 s.w s.r)
                    ++ window longer.buf j (sub32 longer.e s.w))
                  meet
                ∙ ap₂ ◌++◌ ready_same edit_longer)) in
      let nothing : window longer.buf longer.e (sub32 longer.e longer.e) ≡ [] =
        ap (window longer.buf longer.e) no_gap in
      λ i. record { ready = all i; edit = nothing i }

  pub accept-Refines : Refines (accept c s) (Line.type c (view s))
  unfolding accept Line.type
  accept-Refines = elim (Bool-cases (c == newline || c == ctrl_d || sub32 longer.e s.r == 128)) [
    | inl t ↦
        let t' : (c == newline
              || c == ctrl_d
              || length (view s).ready + length (view s).edit + 1 == 128)
            ≡ true =
          rw used_longer at t in
        rw (t, t') (handed_over-IsValid, handed_over-view, refl)
    | inr f ↦
        let f' : (c == newline
              || c == ctrl_d
              || length (view s).ready + length (view s).edit + 1 == 128)
            ≡ false =
          rw used_longer at f in
        rw (f, f')
          (
            longer-IsValid (ground arith),
            (λ i. record { ready = ready_same i; edit = edit_longer i }),
            refl,
          )
  ]
