-- ===== src/Sh/Syntax/Parts.antt =====
-- The parser reads back redirections, words and ampersands.
use zrhos.Base.{
  ℕ, zero, suc, ◌+◌, ◌≤◌, ◌<◌, true, false, ◌≡◌, sym, subst, List, [], ◌∷◌, arith, length, map, inl,
  inr,
}
use zrhos.Sh.Result.{ok}
use zrhos.Sh.Lexer.{strchr}
use zrhos.Sh.Parser.{Cmd, back, parse_redirs, parse_args, parse_backs}
use zrhos.Sh.Syntax.{
  Word, Lexeme, ampersand, less, more, append, word, text, reads, writes, appends, Arrow,
  denote_arrow, arrow_lexemes, word_lexemes, ampersands, in_back, argument_arrows, arguments,
}
use zrhos.Sh.Syntax.Lex.{begins, peek-text, gettoken-text, gettoken-nil}
use zrhos.Sh.Syntax.Follow.{follows_part, part-stops, word-plain, words-no_arrow}

pub parse_redirs-text :
    (f : ℕ) (rs : List Arrow) (ts : List Lexeme)
    → length rs < f
    → begins (60 ∷ 62 ∷ []) ts ≡ false
    → parse_redirs f (text (arrow_lexemes rs ts)) ≡ ok (map denote_arrow rs, text ts)
unfolding parse_redirs strchr
parse_redirs-text zero rs ts lt h = absurd (omega (arith, lt))
parse_redirs-text (suc f) [] ts lt h = ground (arith, peek-text (60 ∷ 62 ∷ []) ts, h)
parse_redirs-text (suc f) ((reads, w) ∷ rs) ts lt h = ground (
  arith,
  peek-text (60 ∷ 62 ∷ []) (less ∷ word w ∷ arrow_lexemes rs ts),
  gettoken-text less (word w ∷ arrow_lexemes rs ts),
  gettoken-text (word w) (arrow_lexemes rs ts),
  parse_redirs-text f rs ts (omega (arith, lt)) h,
)
parse_redirs-text (suc f) ((writes, w) ∷ rs) ts lt h = ground (
  arith,
  peek-text (60 ∷ 62 ∷ []) (more ∷ word w ∷ arrow_lexemes rs ts),
  gettoken-text more (word w ∷ arrow_lexemes rs ts),
  gettoken-text (word w) (arrow_lexemes rs ts),
  parse_redirs-text f rs ts (omega (arith, lt)) h,
)
parse_redirs-text (suc f) ((appends, w) ∷ rs) ts lt h = ground (
  arith,
  peek-text (60 ∷ 62 ∷ []) (append ∷ word w ∷ arrow_lexemes rs ts),
  gettoken-text append (word w ∷ arrow_lexemes rs ts),
  gettoken-text (word w) (arrow_lexemes rs ts),
  parse_redirs-text f rs ts (omega (arith, lt)) h,
)

abbrev pub words_size : List (Word × List Arrow) → ℕ
words_size [] = 1
words_size ((w, rs) ∷ ws) = 1 + length rs + words_size ws

pub words_size-pos : (ws : List (Word × List Arrow)) → 0 < words_size ws
words_size-pos [] = omega arith
words_size-pos ((w, rs) ∷ ws) = omega arith

pub parse_args-text :
    (f argc : ℕ) (ws : List (Word × List Arrow)) (ts : List Lexeme)
    → words_size ws ≤ f
    → argc + length ws ≤ 9
    → follows_part ts ≡ true
    → parse_args f argc (text (word_lexemes ws ts)) ≡ ok (arguments ws, argument_arrows ws, text ts)
unfolding parse_args
parse_args-text zero argc [] ts lt few h = absurd (omega (arith, lt))
parse_args-text zero argc ((w, rs) ∷ ws) ts lt few h = absurd (omega (arith, lt))
parse_args-text (suc f) argc [] ts lt few h = elim (part-stops ts h) [
  | inl e ↦
      subst (λ ts. parse_args (suc f) argc (text ts) ≡ ok ([], [], text ts)) (sym e)
        (ground (arith, peek-text (124 ∷ 41 ∷ 38 ∷ 59 ∷ []) [], gettoken-nil))
  | inr stops ↦ ground (arith, peek-text (124 ∷ 41 ∷ 38 ∷ 59 ∷ []) ts, stops)
]
parse_args-text (suc f) argc ((w, rs) ∷ ws) ts lt few h =
    let rest : List Lexeme = word_lexemes ws ts in
    ground (
      arith,
      peek-text (124 ∷ 41 ∷ 38 ∷ 59 ∷ []) (word w ∷ arrow_lexemes rs rest),
      (word-plain w (arrow_lexemes rs rest)).1,
      gettoken-text (word w) (arrow_lexemes rs rest),
      parse_redirs-text f rs rest (omega (arith, lt, words_size-pos ws)) (words-no_arrow ws ts h).0,
      parse_args-text f (argc + 1) ws ts (omega (arith, lt)) (omega (arith, few)) h,
    )

pub parse_backs-text :
    (f n : ℕ) (c : Cmd) (ts : List Lexeme)
    → n < f
    → begins (38 ∷ []) ts ≡ false
    → parse_backs f c (text (ampersands n ts)) ≡ ok (in_back n c, text ts)
unfolding parse_backs strchr
parse_backs-text zero n c ts lt h = absurd (omega (arith, lt))
parse_backs-text (suc f) zero c ts lt h = ground (arith, peek-text (38 ∷ []) ts, h)
parse_backs-text (suc f) (suc n) c ts lt h = ground (
  arith,
  peek-text (38 ∷ []) (ampersand ∷ ampersands n ts),
  gettoken-text ampersand (ampersands n ts),
  parse_backs-text f n (back c) ts (omega (arith, lt)) h,
)
