-- ===== src/Sh/Lexer.antt =====
-- `gettoken` and `peek`.
pub mod Length
use zrhos.Base.{ℕ, Bool, true, false, not, ◌&&◌, ◌||◌, List, [], ◌∷◌, ◌==◌, if◌then◌else◌}

-- `strchr` on a string without its 0, for a byte other than 0.
unfoldable pub strchr : List ℕ → ℕ → Bool
strchr [] c = false
strchr (x ∷ s) c = x == c || strchr s c

-- " \t\r\n\v"
abbrev pub whitespace : List ℕ
whitespace = 32 ∷ 9 ∷ 13 ∷ 10 ∷ 11 ∷ []

-- "<|>&;()"
abbrev pub symbols : List ℕ
symbols = 60 ∷ 124 ∷ 62 ∷ 38 ∷ 59 ∷ 40 ∷ 41 ∷ []

-- The characters of the switch that are tokens by themselves: "|();&<"
abbrev pub singles : List ℕ
singles = 124 ∷ 40 ∷ 41 ∷ 59 ∷ 38 ∷ 60 ∷ []

abbrev pub greater : ℕ
greater = 62

-- The tokens '+' for ">>" and 'a' for a word.
abbrev pub plus_tok : ℕ
plus_tok = 43

abbrev pub word_tok : ℕ
word_tok = 97

unfoldable pub skip_space : List ℕ → List ℕ
skip_space [] = []
skip_space (c ∷ s) = if strchr whitespace c then skip_space s else c ∷ s

abbrev pub in_word : ℕ → Bool
in_word c = not (strchr whitespace c) && not (strchr symbols c)

-- The word at the front, and what follows it.
unfoldable pub span_word : List ℕ → List ℕ × List ℕ
span_word [] = ([], [])
span_word (c ∷ s) = let (w, r) = span_word s in if in_word c then (c ∷ w, r) else ([], c ∷ s)

pub record Token : Type 0 where
  pub ret : ℕ
  pub word : List ℕ
  pub rest : List ℕ

abbrev pub after_greater : List ℕ → Token
after_greater [] = record { ret = greater; word = greater ∷ []; rest = [] }
after_greater (c ∷ s) =
    if c == greater
    then record { ret = plus_tok; word = greater ∷ greater ∷ []; rest = s }
    else record { ret = greater; word = greater ∷ []; rest = c ∷ s }

-- The switch.
unfoldable pub scan_token : List ℕ → Token
scan_token [] = record { ret = 0; word = []; rest = [] }
scan_token (c ∷ s) =
    if strchr singles c
    then record { ret = c; word = c ∷ []; rest = s }
    else if c == greater
    then after_greater s
    else let (w, r) = span_word (c ∷ s) in record { ret = word_tok; word = w; rest = r }

unfoldable pub gettoken : List ℕ → Token
gettoken s = let t = scan_token (skip_space s) in record t { rest = skip_space t.rest }

-- The answer at a line whose spaces are skipped.
abbrev pub starts : List ℕ → List ℕ → Bool
starts toks [] = false
starts toks (c ∷ s) = strchr toks c

-- The answer, and the new `*ps`.
unfoldable pub peek : List ℕ → List ℕ → Bool × List ℕ
peek toks s = (starts toks (skip_space s), skip_space s)
