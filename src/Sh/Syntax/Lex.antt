-- ===== src/Sh/Syntax/Lex.antt =====
-- `gettoken` and `peek` on the text of lexemes.
use zrhos.Base.{ℕ, Bool, true, false, ◌≡◌, refl, ap, ◌∙◌, List, [], ◌∷◌, ◌++◌, arith}
use zrhos.Sh.Lexer.{
  strchr, skip_space, in_word, span_word, Token, scan_token, gettoken, starts, peek, word_tok,
}
use zrhos.Sh.Syntax.{
  Word, all_in_word, Lexeme, bar, opening, closing, semicolon, ampersand, less, more, append, word,
  code, spell, text,
}

-- Whether the next lexeme begins with one of these bytes.
abbrev pub begins : List ℕ → List Lexeme → Bool
begins toks [] = false
begins toks (bar ∷ ts) = strchr toks 124
begins toks (opening ∷ ts) = strchr toks 40
begins toks (closing ∷ ts) = strchr toks 41
begins toks (semicolon ∷ ts) = strchr toks 59
begins toks (ampersand ∷ ts) = strchr toks 38
begins toks (less ∷ ts) = strchr toks 60
begins toks (more ∷ ts) = strchr toks 62
begins toks (append ∷ ts) = strchr toks 62
begins toks (word w ∷ ts) = strchr toks w.first

first_in_word : (w : Word) → in_word w.first ≡ true
first_in_word w = ground (arith, w.are_in_word)

skip_space-word : (c : ℕ) (s : List ℕ) → in_word c ≡ true → skip_space (c ∷ s) ≡ c ∷ s
unfolding skip_space
skip_space-word c s h = ground arith

pub skip_space-text : (ts : List Lexeme) → skip_space (text ts) ≡ text ts
unfolding skip_space text strchr
skip_space-text [] = refl
skip_space-text (word w ∷ ts) = skip_space-word w.first (w.others ++ 32 ∷ text ts) (first_in_word w)
skip_space-text (bar ∷ ts) = refl
skip_space-text (opening ∷ ts) = refl
skip_space-text (closing ∷ ts) = refl
skip_space-text (semicolon ∷ ts) = refl
skip_space-text (ampersand ∷ ts) = refl
skip_space-text (less ∷ ts) = refl
skip_space-text (more ∷ ts) = refl
skip_space-text (append ∷ ts) = refl

starts-text : (toks : List ℕ) (ts : List Lexeme) → starts toks (text ts) ≡ begins toks ts
unfolding text
starts-text toks [] = refl
starts-text toks (word w ∷ ts) = refl
starts-text toks (bar ∷ ts) = refl
starts-text toks (opening ∷ ts) = refl
starts-text toks (closing ∷ ts) = refl
starts-text toks (semicolon ∷ ts) = refl
starts-text toks (ampersand ∷ ts) = refl
starts-text toks (less ∷ ts) = refl
starts-text toks (more ∷ ts) = refl
starts-text toks (append ∷ ts) = refl

pub peek-text : (toks : List ℕ) (ts : List Lexeme) → peek toks (text ts) ≡ (begins toks ts, text ts)
unfolding peek
peek-text toks ts =
    ap (λ s. (starts toks s, s)) (skip_space-text ts) ∙ ap (λ b. (b, text ts)) (starts-text toks ts)

span_word-word : (w s : List ℕ) → all_in_word w ≡ true → span_word (w ++ 32 ∷ s) ≡ (w, 32 ∷ s)
unfolding span_word strchr
span_word-word [] s h = refl
span_word-word (c ∷ w) s h = ground (arith, span_word-word w s)

scan_token-word :
    (c : ℕ) (w s : List ℕ)
    → all_in_word (c ∷ w) ≡ true
    → scan_token (c ∷ w ++ 32 ∷ s) ≡ record { ret = word_tok; word = c ∷ w; rest = 32 ∷ s }
unfolding scan_token strchr
scan_token-word c w s h = ground (arith, span_word-word (c ∷ w) s h)

skip_space-space : (s : List ℕ) → skip_space (32 ∷ s) ≡ skip_space s
unfolding skip_space strchr
skip_space-space s = refl

scan_token-text :
    (t : Lexeme) (ts : List Lexeme)
    → scan_token (text (t ∷ ts)) ≡ record { ret = code t; word = spell t; rest = 32 ∷ text ts }
unfolding scan_token text strchr
scan_token-text (word w) ts = scan_token-word w.first w.others (text ts) w.are_in_word
scan_token-text bar ts = refl
scan_token-text opening ts = refl
scan_token-text closing ts = refl
scan_token-text semicolon ts = refl
scan_token-text ampersand ts = refl
scan_token-text less ts = refl
scan_token-text more ts = refl
scan_token-text append ts = refl

abbrev skip_rest : Token → Token
skip_rest k = record k { rest = skip_space k.rest }

pub gettoken-text :
    (t : Lexeme) (ts : List Lexeme)
    → gettoken (text (t ∷ ts)) ≡ record { ret = code t; word = spell t; rest = text ts }
unfolding gettoken
gettoken-text t ts =
    ap (λ s. skip_rest (scan_token s)) (skip_space-text (t ∷ ts))
    ∙ ap skip_rest (scan_token-text t ts)
    ∙ ap (λ r. record { ret = code t; word = spell t; rest = r })
        (skip_space-space (text ts) ∙ skip_space-text ts)

pub gettoken-nil : gettoken (text []) ≡ record { ret = 0; word = []; rest = text [] }
unfolding gettoken scan_token skip_space text
gettoken-nil = refl
