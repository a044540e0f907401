-- ===== src/Sh/Tests.antt =====
-- Runs of the shell's parser.
use zrhos.Base.{ℕ, ◌≡◌, ◌≢◌, refl, List, [], ◌∷◌}
use zrhos.Sh.Result.{ok, panics, out_of_fuel}
use zrhos.Sh.Lexer.{strchr, peek, skip_space, gettoken, scan_token, span_word}
use zrhos.Sh.Parser.{
  exec, redir, pipe, back, parsecmd, parse_line, parse_redirs, parse_args, parse_backs, wrap,
}
use zrhos.Sh.Parser.Ends.{parsecmd-ends}
use zrhos.Sh.Syntax.{
  Word, text, Line, last, before, single, piped, block, simple, reads, appends, line_lexemes,
  line_command, line_fits,
}
use zrhos.Sh.Syntax.RoundTrip.{parsecmd-text}

-- "ls|wc>f&"
abbrev background : List ℕ
background = 108 ∷ 115 ∷ 124 ∷ 119 ∷ 99 ∷ 62 ∷ 102 ∷ 38 ∷ []

background_run :
    parsecmd background
    ≡ ok (
        back (
          pipe
            (exec ((108 ∷ 115 ∷ []) ∷ []))
            (redir (exec ((119 ∷ 99 ∷ []) ∷ [])) (102 ∷ []) 0x601 1)))
unfolding parsecmd parse_line peek skip_space strchr parse_redirs parse_args gettoken scan_token
    span_word parse_backs wrap
background_run = refl

-- "(a" lacks its parenthesis.
unclosed_run : parsecmd (40 ∷ 97 ∷ []) ≡ panics
unfolding parsecmd parse_line peek skip_space strchr parse_redirs parse_args gettoken scan_token
    span_word parse_backs wrap
unclosed_run = refl

parsecmd-ends_example : parsecmd background ≢ out_of_fuel
parsecmd-ends_example = parsecmd-ends background

abbrev ls : Word
unfolding strchr
ls = record { first = 108; others = 115 ∷ []; are_in_word = refl }

abbrev file : Word
unfolding strchr
file = record { first = 102; others = []; are_in_word = refl }

-- "( ls < f ) >> f & ; ls ls | ls"
abbrev two_lines : Line
two_lines =
    before
      (single (
        block (last (single (simple [] ((ls, (reads, file) ∷ []) ∷ []))) 0) ((appends, file) ∷ [])))
      1 (last (piped (simple [] ((ls, []) ∷ (ls, []) ∷ [])) (single (simple [] ((ls, []) ∷ [])))) 0)

parsecmd-text_example : parsecmd (text (line_lexemes two_lines [])) ≡ ok (line_command two_lines)
unfolding line_fits
parsecmd-text_example = parsecmd-text two_lines refl
