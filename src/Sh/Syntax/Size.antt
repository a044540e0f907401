-- ===== src/Sh/Syntax/Size.antt =====
-- The fuel that the parser needs for a line, and the length of its text.
use zrhos.Base.{ℕ, zero, suc, ◌+◌, ◌*◌, ◌≤◌, ◌<◌, List, [], ◌∷◌, length, length-append, arith}
use zrhos.Sh.Syntax.{
  spell, Word, Lexeme, bar, closing, semicolon, text, Arrow, Line, Pipeline, Part, last, before,
  single, piped, block, simple, arrow_lexemes, word_lexemes, ampersands, line_lexemes,
  pipeline_lexemes, part_lexemes,
}
use zrhos.Sh.Syntax.Parts.{words_size, words_size-pos}

-- The fuel for a line.
unfoldable mutual
  pub line_size : Line → ℕ
  line_size (last p n) = 1 + pipeline_size p + n
  line_size (before p n l) = 1 + pipeline_size p + n + line_size l

  pub pipeline_size : Pipeline → ℕ
  pipeline_size (single c) = 1 + part_size c
  pipeline_size (piped c p) = 1 + part_size c + pipeline_size p

  pub part_size : Part → ℕ
  part_size (block l rs) = 2 + line_size l + length rs
  part_size (simple rs ws) = 1 + length rs + words_size ws

pub line_size-pos : (l : Line) → 0 < line_size l
unfolding line_size
line_size-pos (last p n) = omega arith
line_size-pos (before p n l) = omega arith

pub pipeline_size-pos : (p : Pipeline) → 0 < pipeline_size p
unfolding pipeline_size
pipeline_size-pos (single c) = omega arith
pipeline_size-pos (piped c p) = omega arith

pub part_size-pos : (c : Part) → 0 < part_size c
unfolding part_size
part_size-pos (block l rs) = omega arith
part_size-pos (simple rs ws) = omega arith

-- The text of a line is long enough for its fuel.
pub length-text : (ts : List Lexeme) → length ts ≤ length (text ts)
unfolding text
length-text [] = omega arith
length-text (t ∷ ts) = omega (arith, length-text ts, length-append (spell t) (32 ∷ text ts))

length-arrows :
    (rs : List Arrow) (ts : List Lexeme) → length ts + length rs ≤ length (arrow_lexemes rs ts)
length-arrows [] ts = omega arith
length-arrows ((d, w) ∷ rs) ts = omega (arith, length-arrows rs ts)

length-words :
    (ws : List (Word × List Arrow)) (ts : List Lexeme)
    → length ts + words_size ws ≤ length (word_lexemes ws ts) + 1
length-words [] ts = omega arith
length-words ((w, rs) ∷ ws) ts =
    omega (arith, length-words ws ts, words_size-pos ws, length-arrows rs (word_lexemes ws ts))

length-ampersands : (n : ℕ) (ts : List Lexeme) → n + length ts ≤ length (ampersands n ts)
length-ampersands zero ts = omega arith
length-ampersands (suc n) ts = omega (arith, length-ampersands n ts)

mutual
  unfolding line_size pipeline_size part_size line_lexemes pipeline_lexemes part_lexemes

  pub length-line :
      (l : Line) (ts : List Lexeme)
      → line_size l + 4 * length ts ≤ 4 * length (line_lexemes l ts) + 4
  length-line (last p n) ts =
      omega (arith, length-pipeline p (ampersands n ts), length-ampersands n ts)
  length-line (before p n l) ts =
      let rest : List Lexeme = semicolon ∷ line_lexemes l ts in
      omega
        (arith, length-pipeline p (ampersands n rest), length-ampersands n rest, length-line l ts)

  length-pipeline :
      (p : Pipeline) (ts : List Lexeme)
      → pipeline_size p + 4 * length ts ≤ 4 * length (pipeline_lexemes p ts) + 3
  length-pipeline (single c) ts = omega (arith, length-part c ts)
  length-pipeline (piped c p) ts =
      omega (arith, length-part c (bar ∷ pipeline_lexemes p ts), length-pipeline p ts)

  length-part :
      (c : Part) (ts : List Lexeme)
      → part_size c + 4 * length ts ≤ 4 * length (part_lexemes c ts) + 2
  length-part (block l rs) ts =
      omega (arith, length-line l (closing ∷ arrow_lexemes rs ts), length-arrows rs ts)
  length-part (simple rs ws) ts =
      omega (arith, length-words ws ts, words_size-pos ws, length-arrows rs (word_lexemes ws ts))
