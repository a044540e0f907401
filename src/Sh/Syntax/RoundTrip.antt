-- ===== src/Sh/Syntax/RoundTrip.antt =====
-- The parser reads back the text of a line.
use zrhos.Base.{
  ℕ, zero, suc, ◌+◌, ◌*◌, ◌≤◌, Bool, true, false, ◌≡◌, refl, List, [], ◌∷◌, arith, length,
}
use zrhos.Sh.Result.{Result, ok}
use zrhos.Sh.Lexer.{strchr, skip_space}
use zrhos.Sh.Parser.{Cmd, parse_line, parse_pipe, parse_exec, parsecmd}
use zrhos.Sh.Syntax.{
  Word, Lexeme, bar, opening, closing, semicolon, text, reads, writes, appends, Arrow, Line, last,
  before, single, piped, block, simple, arrow_lexemes, word_lexemes, ampersands, line_lexemes,
  pipeline_lexemes, part_lexemes, line_command, pipeline_command, part_command, line_fits,
  pipeline_fits, part_fits,
}
use zrhos.Sh.Syntax.Lex.{begins, peek-text, gettoken-text, skip_space-text}
use zrhos.Sh.Syntax.Follow.{
  follows_line, follows_pipeline, follows_part, part-no_arrow, pipeline-no_bar, line-ends,
  words-no_arrow,
}
use zrhos.Sh.Syntax.Size.{
  line_size, pipeline_size, part_size, line_size-pos, pipeline_size-pos, part_size-pos, length-text,
  length-line,
}
use zrhos.Sh.Syntax.Parts.{
  words_size, words_size-pos, parse_redirs-text, parse_args-text, parse_backs-text,
}

words-no_block :
    (rs : List Arrow) (ws : List (Word × List Arrow)) (ts : List Lexeme)
    → follows_part ts ≡ true
    → begins (40 ∷ []) (arrow_lexemes rs (word_lexemes ws ts)) ≡ false
unfolding strchr
words-no_block [] ws ts h = (words-no_arrow ws ts h).1
words-no_block ((reads, w) ∷ rs) ws ts h = refl
words-no_block ((writes, w) ∷ rs) ws ts h = refl
words-no_block ((appends, w) ∷ rs) ws ts h = refl

-- What a function makes of the text of what it is for.
abbrev Parses :
    {A : Type 0}
    → (ℕ → List ℕ → Result (Cmd × List ℕ))
    → (A → List Lexeme → List Lexeme)
    → (A → Cmd)
    → (A → Bool)
    → (A → ℕ)
    → (List Lexeme → Bool)
    → ℕ
    → Type 0
Parses {A} parse lexemes command fits size follows f =
    (a : A) (ts : List Lexeme)
    → size a ≤ f
    → fits a ≡ true
    → follows ts ≡ true
    → parse f (text (lexemes a ts)) ≡ ok (command a, text ts)

abbrev LineParses : ℕ → Type 0
LineParses = Parses parse_line line_lexemes line_command line_fits line_size follows_line

abbrev PipelineParses : ℕ → Type 0
PipelineParses =
    Parses parse_pipe pipeline_lexemes pipeline_command pipeline_fits pipeline_size follows_pipeline

abbrev PartParses : ℕ → Type 0
PartParses = Parses parse_exec part_lexemes part_command part_fits part_size follows_part

simple-text :
    (f : ℕ) (rs : List Arrow) (ws : List (Word × List Arrow)) (ts : List Lexeme)
    → length rs + words_size ws ≤ f
    → length ws ≤ 9
    → follows_part ts ≡ true
    → parse_exec (suc f) (text (part_lexemes (simple rs ws) ts))
      ≡ ok (part_command (simple rs ws), text ts)
unfolding parse_exec part_lexemes part_command
simple-text f rs ws ts le few h = ground (
  arith,
  peek-text (40 ∷ []) (arrow_lexemes rs (word_lexemes ws ts)),
  words-no_block rs ws ts h,
  parse_redirs-text f rs (word_lexemes ws ts) (omega (arith, le, words_size-pos ws))
      (words-no_arrow ws ts h).0,
  parse_args-text f 0 ws ts (omega (arith, le)) (omega (arith, few)) h,
)

block-text :
    (f : ℕ) (l : Line) (rs : List Arrow) (ts : List Lexeme)
    → LineParses f
    → line_size l + length rs ≤ f
    → line_fits l ≡ true
    → follows_part ts ≡ true
    → parse_exec (suc (suc f)) (text (part_lexemes (block l rs) ts))
      ≡ ok (part_command (block l rs), text ts)
unfolding parse_exec part_lexemes part_command strchr
block-text f l rs ts parses le fits h = ground (
  arith,
  peek-text (40 ∷ []) (opening ∷ line_lexemes l (closing ∷ arrow_lexemes rs ts)),
  gettoken-text opening (line_lexemes l (closing ∷ arrow_lexemes rs ts)),
  parses l (closing ∷ arrow_lexemes rs ts) (omega (arith, le)) fits refl,
  peek-text (41 ∷ []) (closing ∷ arrow_lexemes rs ts),
  gettoken-text closing (arrow_lexemes rs ts),
  parse_redirs-text f rs ts (omega (arith, le, line_size-pos l)) (part-no_arrow ts h),
)

pipeline-text : (f : ℕ) → PartParses f → PipelineParses f → PipelineParses (suc f)
unfolding parse_pipe pipeline_lexemes pipeline_command pipeline_fits pipeline_size strchr
pipeline-text f part pipeline (single c) ts le fits h = ground (
  arith,
  part c ts (omega (arith, le)) fits (pipeline-no_bar ts h).0,
  peek-text (124 ∷ []) ts,
  (pipeline-no_bar ts h).1,
)
pipeline-text f part pipeline (piped c p) ts le fits h = ground (
  arith,
  part c (bar ∷ pipeline_lexemes p ts) (omega (arith, le)) (ground (arith, fits)) refl,
  peek-text (124 ∷ []) (bar ∷ pipeline_lexemes p ts),
  gettoken-text bar (pipeline_lexemes p ts),
  pipeline p ts (omega (arith, le)) (ground (arith, fits)) h,
)

ampersands-follow :
    (n : ℕ) (ts : List Lexeme)
    → follows_pipeline ts ≡ true
    → follows_pipeline (ampersands n ts) ≡ true
ampersands-follow zero ts h = h
ampersands-follow (suc n) ts h = refl

line-text : (f : ℕ) → PipelineParses f → LineParses f → LineParses (suc f)
unfolding parse_line line_lexemes line_command line_fits line_size strchr
line-text f pipeline line (last p n) ts le fits h =
    let (follows, no_amp, no_semi) = line-ends ts h in
    ground (
      arith,
      pipeline p (ampersands n ts) (omega (arith, le)) fits (ampersands-follow n ts follows),
      parse_backs-text f n (pipeline_command p) ts (omega (arith, le, pipeline_size-pos p)) no_amp,
      peek-text (59 ∷ []) ts,
      no_semi,
    )
line-text f pipeline line (before p n l) ts le fits h =
    let rest : List Lexeme = semicolon ∷ line_lexemes l ts in
    ground (
      arith,
      pipeline p (ampersands n rest) (omega (arith, le)) (ground (arith, fits))
          (ampersands-follow n rest refl),
      parse_backs-text f n (pipeline_command p) rest (omega (arith, le, pipeline_size-pos p)) refl,
      peek-text (59 ∷ []) rest,
      gettoken-text semicolon (line_lexemes l ts),
      line l ts (omega (arith, le)) (ground (arith, fits)) h,
    )

part-text : (f : ℕ) → LineParses f → PartParses (suc (suc f))
unfolding part_size part_fits
part-text f line (block l rs) ts le fits h = block-text f l rs ts line (omega (arith, le)) fits h
part-text f line (simple rs ws) ts le fits h =
    simple-text (suc f) rs ws ts (omega (arith, le)) (ground (arith, fits)) h

part_one-text : PartParses 1
unfolding part_size
part_one-text (block l rs) ts le fits h = absurd (omega (arith, le, line_size-pos l))
part_one-text (simple rs ws) ts le fits h = absurd (omega (arith, le, words_size-pos ws))

all-text : (f : ℕ) → LineParses f × PipelineParses f × PartParses f
all-text zero = (
  (λ l ts le fits h. absurd (omega (arith, le, line_size-pos l))),
  (λ p ts le fits h. absurd (omega (arith, le, pipeline_size-pos p))),
  (λ c ts le fits h. absurd (omega (arith, le, part_size-pos c))),
)
all-text (suc zero) =
    let (line, pipeline, part) = all-text zero in
    (line-text 0 pipeline line, pipeline-text 0 part pipeline, part_one-text)
all-text (suc (suc f)) =
    let (line, pipeline, part) = all-text (suc f) in
    (
      line-text (suc f) pipeline line,
      pipeline-text (suc f) part pipeline,
      part-text f (all-text f).0,
    )

-- `parsecmd` reads the text of a line, its lexemes set apart by a space, back as the command that the
-- line means, if no command of it has ten words.
pub parsecmd-text :
    (l : Line) → line_fits l ≡ true → parsecmd (text (line_lexemes l [])) ≡ ok (line_command l)
unfolding parsecmd text skip_space
parsecmd-text l fits =
    let s : List ℕ = text (line_lexemes l []) in
    let enough : line_size l ≤ 4 * length s + 5 =
      omega (arith, length-line l [], length-text (line_lexemes l [])) in
    ground (arith, (all-text (4 * length s + 5)).0 l [] enough fits refl, skip_space-text [])
