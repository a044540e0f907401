-- ===== src/Sh/Syntax/Follow.antt =====
-- What may follow a line, a pipeline and a command.
use zrhos.Base.{Bool, true, false, ◌≡◌, refl, List, [], ◌∷◌, ◌⊎◌, inl, inr, arith}
use zrhos.Sh.Lexer.{strchr, symbols}
use zrhos.Sh.Syntax.{
  Word, Lexeme, bar, opening, closing, semicolon, ampersand, less, more, append, word, Arrow,
  arrow_lexemes, word_lexemes,
}
use zrhos.Sh.Syntax.Lex.{begins}

abbrev pub follows_line : List Lexeme → Bool
follows_line [] = true
follows_line (closing ∷ ts) = true
follows_line (t ∷ ts) = false

abbrev pub follows_pipeline : List Lexeme → Bool
follows_pipeline (ampersand ∷ ts) = true
follows_pipeline (semicolon ∷ ts) = true
follows_pipeline ts = follows_line ts

abbrev pub follows_part : List Lexeme → Bool
follows_part (bar ∷ ts) = true
follows_part ts = follows_pipeline ts

-- A property of what may follow a command.
module _ (P : List Lexeme → Type 0) (at_end : P [])
    (at_closing : (ts : List Lexeme) → P (closing ∷ ts)) where
  after_line : (ts : List Lexeme) → follows_line ts ≡ true → P ts
  after_line [] h = at_end
  after_line (closing ∷ ts) h = at_closing ts
  after_line (bar ∷ ts) h = absurd (ground (arith, h))
  after_line (opening ∷ ts) h = absurd (ground (arith, h))
  after_line (semicolon ∷ ts) h = absurd (ground (arith, h))
  after_line (ampersand ∷ ts) h = absurd (ground (arith, h))
  after_line (less ∷ ts) h = absurd (ground (arith, h))
  after_line (more ∷ ts) h = absurd (ground (arith, h))
  after_line (append ∷ ts) h = absurd (ground (arith, h))
  after_line (word w ∷ ts) h = absurd (ground (arith, h))

  module _ (at_ampersand : (ts : List Lexeme) → P (ampersand ∷ ts))
      (at_semicolon : (ts : List Lexeme) → P (semicolon ∷ ts)) where
    after_pipeline : (ts : List Lexeme) → follows_pipeline ts ≡ true → P ts
    after_pipeline [] h = at_end
    after_pipeline (closing ∷ ts) h = at_closing ts
    after_pipeline (ampersand ∷ ts) h = at_ampersand ts
    after_pipeline (semicolon ∷ ts) h = at_semicolon ts
    after_pipeline (bar ∷ ts) h = absurd (ground (arith, h))
    after_pipeline (opening ∷ ts) h = absurd (ground (arith, h))
    after_pipeline (less ∷ ts) h = absurd (ground (arith, h))
    after_pipeline (more ∷ ts) h = absurd (ground (arith, h))
    after_pipeline (append ∷ ts) h = absurd (ground (arith, h))
    after_pipeline (word w ∷ ts) h = absurd (ground (arith, h))

    after_part :
        ((ts : List Lexeme) → P (bar ∷ ts)) → (ts : List Lexeme) → follows_part ts ≡ true → P ts
    after_part at_bar [] h = at_end
    after_part at_bar (closing ∷ ts) h = at_closing ts
    after_part at_bar (ampersand ∷ ts) h = at_ampersand ts
    after_part at_bar (semicolon ∷ ts) h = at_semicolon ts
    after_part at_bar (bar ∷ ts) h = at_bar ts
    after_part at_bar (opening ∷ ts) h = absurd (ground (arith, h))
    after_part at_bar (less ∷ ts) h = absurd (ground (arith, h))
    after_part at_bar (more ∷ ts) h = absurd (ground (arith, h))
    after_part at_bar (append ∷ ts) h = absurd (ground (arith, h))
    after_part at_bar (word w ∷ ts) h = absurd (ground (arith, h))

pub part-no_arrow : (ts : List Lexeme) → follows_part ts ≡ true → begins (60 ∷ 62 ∷ []) ts ≡ false
unfolding strchr
part-no_arrow ts h =
    after_part (λ ts. begins (60 ∷ 62 ∷ []) ts ≡ false) refl (λ ts. refl) (λ ts. refl) (λ ts. refl)
      (λ ts. refl) ts h

pub part-stops :
    (ts : List Lexeme)
    → follows_part ts ≡ true
    → (ts ≡ []) ⊎ (begins (124 ∷ 41 ∷ 38 ∷ 59 ∷ []) ts ≡ true)
unfolding strchr
part-stops ts h =
    after_part (λ ts. (ts ≡ []) ⊎ (begins (124 ∷ 41 ∷ 38 ∷ 59 ∷ []) ts ≡ true)) (inl refl)
      (λ ts. inr refl) (λ ts. inr refl) (λ ts. inr refl) (λ ts. inr refl) ts h

pub part-no_block : (ts : List Lexeme) → follows_part ts ≡ true → begins (40 ∷ []) ts ≡ false
unfolding strchr
part-no_block ts h =
    after_part (λ ts. begins (40 ∷ []) ts ≡ false) refl (λ ts. refl) (λ ts. refl) (λ ts. refl)
      (λ ts. refl) ts h

pub pipeline-no_bar :
    (ts : List Lexeme)
    → follows_pipeline ts ≡ true
    → (follows_part ts ≡ true) × (begins (124 ∷ []) ts ≡ false)
unfolding strchr
pipeline-no_bar ts h =
    after_pipeline (λ ts. (follows_part ts ≡ true) × (begins (124 ∷ []) ts ≡ false)) (refl, refl)
      (λ ts. (refl, refl)) (λ ts. (refl, refl)) (λ ts. (refl, refl)) ts h

pub line-ends :
    (ts : List Lexeme)
    → follows_line ts ≡ true
    → (follows_pipeline ts ≡ true) × (begins (38 ∷ []) ts ≡ false) × (begins (59 ∷ []) ts ≡ false)
unfolding strchr
line-ends ts h =
    after_line
      (λ ts.
        (follows_pipeline ts ≡ true)
        × (begins (38 ∷ []) ts ≡ false)
        × (begins (59 ∷ []) ts ≡ false))
      (refl, refl, refl) (λ ts. (refl, refl, refl)) ts h

-- A word starts with no symbol.
word-no_symbol : (w : Word) → strchr symbols w.first ≡ false
word-no_symbol w = ground (arith, w.are_in_word)

pub word-plain :
    (w : Word) (ts : List Lexeme)
    → (begins (60 ∷ 62 ∷ []) (word w ∷ ts) ≡ false)
      × (begins (124 ∷ 41 ∷ 38 ∷ 59 ∷ []) (word w ∷ ts) ≡ false)
      × (begins (40 ∷ []) (word w ∷ ts) ≡ false)
unfolding strchr
word-plain w ts =
    let no = word-no_symbol w in (ground (arith, no), ground (arith, no), ground (arith, no))

-- No redirection begins with a word, and no command with a parenthesis unless it is a block.
pub words-no_arrow :
    (ws : List (Word × List Arrow)) (ts : List Lexeme)
    → follows_part ts ≡ true
    → (begins (60 ∷ 62 ∷ []) (word_lexemes ws ts) ≡ false)
      × (begins (40 ∷ []) (word_lexemes ws ts) ≡ false)
words-no_arrow [] ts h = (part-no_arrow ts h, part-no_block ts h)
words-no_arrow ((w, rs) ∷ ws) ts h =
    let p = word-plain w (arrow_lexemes rs (word_lexemes ws ts)) in (p.0, p.2)
