-- ===== src/Sh/Syntax.antt =====
-- What a command line means: the grammar that the parser of user/sh.c is for, the text of a line of
-- it, and its command.
pub mod Lex
pub mod Follow
pub mod Parts
pub mod Size
pub mod RoundTrip
use zrhos.Base.{
  ℕ, zero, suc, ◌+◌, Bool, true, false, not, ◌&&◌, ◌≡◌, List, [], ◌∷◌, ◌++◌, leb, length, map,
}
use zrhos.Sh.Lexer.{in_word, word_tok, plus_tok, greater}
use zrhos.Sh.Parser.{Cmd, exec, redir, pipe, list, back, Redir, wrap}

abbrev pub all_in_word : List ℕ → Bool
all_in_word [] = true
all_in_word (c ∷ w) = in_word c && all_in_word w

pub record Word : Type 0 where
  pub first : ℕ
  pub others : List ℕ
  pub are_in_word : all_in_word (first ∷ others) ≡ true

abbrev pub letters : Word → List ℕ
letters w = w.first ∷ w.others

pub data Lexeme : Type 0 where
  bar : Lexeme
  opening : Lexeme
  closing : Lexeme
  semicolon : Lexeme
  ampersand : Lexeme
  less : Lexeme
  more : Lexeme
  append : Lexeme
  word : Word → Lexeme

-- The token that `gettoken` gives, and the bytes of it.
abbrev pub code : Lexeme → ℕ
code bar = 124
code opening = 40
code closing = 41
code semicolon = 59
code ampersand = 38
code less = 60
code more = 62
code append = 43
code (word w) = 97

abbrev pub spell : Lexeme → List ℕ
spell bar = 124 ∷ []
spell opening = 40 ∷ []
spell closing = 41 ∷ []
spell semicolon = 59 ∷ []
spell ampersand = 38 ∷ []
spell less = 60 ∷ []
spell more = 62 ∷ []
spell append = 62 ∷ 62 ∷ []
spell (word w) = letters w

-- Each lexeme with a space behind it.
unfoldable pub text : List Lexeme → List ℕ
text [] = []
text (t ∷ ts) = spell t ++ 32 ∷ text ts

pub data Direction : Type 0 where
  reads : Direction
  writes : Direction
  appends : Direction

abbrev pub Arrow : Type 0
Arrow = Direction × Word

abbrev pub direction : Direction → Lexeme
direction reads = less
direction writes = more
direction appends = append

abbrev pub denote_arrow : Arrow → Redir
denote_arrow (reads, w) = (letters w, 0, 0)
denote_arrow (writes, w) = (letters w, 0x601, 1)
denote_arrow (appends, w) = (letters w, 0x201, 1)

mutual
  pub data Line : Type 0 where
    last : Pipeline → (backs : ℕ) → Line
    before : Pipeline → (backs : ℕ) → Line → Line

  pub data Pipeline : Type 0 where
    single : Part → Pipeline
    piped : Part → Pipeline → Pipeline

  pub data Part : Type 0 where
    block : Line → List Arrow → Part
    simple : List Arrow → List (Word × List Arrow) → Part

-- The lexemes of each, in front of others.
abbrev pub arrow_lexemes : List Arrow → List Lexeme → List Lexeme
arrow_lexemes [] ts = ts
arrow_lexemes ((d, w) ∷ rs) ts = direction d ∷ word w ∷ arrow_lexemes rs ts

abbrev pub word_lexemes : List (Word × List Arrow) → List Lexeme → List Lexeme
word_lexemes [] ts = ts
word_lexemes ((w, rs) ∷ ws) ts = word w ∷ arrow_lexemes rs (word_lexemes ws ts)

abbrev pub ampersands : ℕ → List Lexeme → List Lexeme
ampersands zero ts = ts
ampersands (suc n) ts = ampersand ∷ ampersands n ts

unfoldable mutual
  pub line_lexemes : Line → List Lexeme → List Lexeme
  line_lexemes (last p n) ts = pipeline_lexemes p (ampersands n ts)
  line_lexemes (before p n l) ts = pipeline_lexemes p (ampersands n (semicolon ∷ line_lexemes l ts))

  pub pipeline_lexemes : Pipeline → List Lexeme → List Lexeme
  pipeline_lexemes (single c) ts = part_lexemes c ts
  pipeline_lexemes (piped c p) ts = part_lexemes c (bar ∷ pipeline_lexemes p ts)

  pub part_lexemes : Part → List Lexeme → List Lexeme
  part_lexemes (block l rs) ts = opening ∷ line_lexemes l (closing ∷ arrow_lexemes rs ts)
  part_lexemes (simple rs ws) ts = arrow_lexemes rs (word_lexemes ws ts)

-- The commands.
abbrev pub in_back : ℕ → Cmd → Cmd
in_back zero c = c
in_back (suc n) c = in_back n (back c)

abbrev pub argument_arrows : List (Word × List Arrow) → List Redir
argument_arrows [] = []
argument_arrows ((w, rs) ∷ ws) = map denote_arrow rs ++ argument_arrows ws

abbrev pub arguments : List (Word × List Arrow) → List (List ℕ)
arguments [] = []
arguments ((w, rs) ∷ ws) = letters w ∷ arguments ws

unfoldable mutual
  pub line_command : Line → Cmd
  line_command (last p n) = in_back n (pipeline_command p)
  line_command (before p n l) = list (in_back n (pipeline_command p)) (line_command l)

  pub pipeline_command : Pipeline → Cmd
  pipeline_command (single c) = part_command c
  pipeline_command (piped c p) = pipe (part_command c) (pipeline_command p)

  pub part_command : Part → Cmd
  part_command (block l rs) = wrap (line_command l) (map denote_arrow rs)
  part_command (simple rs ws) =
      wrap (exec (arguments ws)) (map denote_arrow rs ++ argument_arrows ws)

-- No command has ten words or more, the name of its program included.
unfoldable mutual
  pub line_fits : Line → Bool
  line_fits (last p n) = pipeline_fits p
  line_fits (before p n l) = pipeline_fits p && line_fits l

  pub pipeline_fits : Pipeline → Bool
  pipeline_fits (single c) = part_fits c
  pipeline_fits (piped c p) = part_fits c && pipeline_fits p

  pub part_fits : Part → Bool
  part_fits (block l rs) = line_fits l
  part_fits (simple rs ws) = leb (length ws) 9
