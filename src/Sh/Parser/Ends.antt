-- ===== src/Sh/Parser/Ends.antt =====
-- The parser ends: the fuel that a function needs for a line.
use zrhos.Base.{
  ℕ, zero, suc, ◌+◌, ◌*◌, ◌≤◌, ◌<◌, ◌≡◌, ◌≢◌, refl, subst, ◌||◌, Bool, true, false, not, List, [],
  ◌∷◌, ◌==◌, leb, arith, length,
}
use zrhos.Sh.Result.{Result, ok, panics, out_of_fuel, ◌>>=◌}
use zrhos.Sh.Lexer.{Token, gettoken, peek, word_tok, skip_space}
use zrhos.Sh.Lexer.Length.{length-skip_space, peek-gettoken, gettoken-end, length-gettoken}
use zrhos.Sh.Parser.{
  Cmd, pipe, list, back, Redir, maxargs, parse_redirs, parse_args, parse_backs, parse_line,
  parse_pipe, parse_exec, parse_block, parsecmd,
}

-- A run that ends, with `P` of its value if it has one.
unfoldable pub Ends {ℓ} : {A : Type ℓ} → (A → Type 0) → Result A → Type 0
Ends P (ok a) = P a
Ends P panics = Unit
Ends P out_of_fuel = ⊥

ok-Ends {ℓ} : {A : Type ℓ} (P : A → Type 0) (a : A) → P a → Ends P (ok a)
unfolding Ends
ok-Ends P a h = h

panics-Ends {ℓ} : {A : Type ℓ} (P : A → Type 0) → Ends P panics
unfolding Ends
panics-Ends P = tt

>>=-Ends {ℓ κ} :
    {A : Type ℓ} {B : Type κ} (P : A → Type 0) (Q : B → Type 0) (r : Result A) (k : A → Result B)
    → Ends P r
    → ((a : A) → P a → Ends Q (k a))
    → Ends Q (r >>= k)
unfolding Ends
>>=-Ends P Q (ok a) k h next = next a h
>>=-Ends P Q panics k h next = tt
>>=-Ends P Q out_of_fuel k h next = absurd h

elim-Ends {ℓ} :
    {A : Type ℓ} (P : A → Type 0) (b : Bool) (x y : Result A)
    → (b ≡ true → Ends P x)
    → (b ≡ false → Ends P y)
    → Ends P (elim b [ true ↦ x | false ↦ y ])
elim-Ends P true x y hx hy = hx refl
elim-Ends P false x y hx hy = hy refl

-- A value with a line of at most `n` bytes.
abbrev pub Leaves {ℓ} : {A : Type ℓ} → ℕ → A × List ℕ → Type 0
Leaves n p = length p.1 ≤ n

peek-le : (toks s : List ℕ) → length (peek toks s).1 ≤ length s
unfolding peek
peek-le toks s = length-skip_space s

pub parse_redirs-Ends :
    (f : ℕ) (s : List ℕ) (n : ℕ) → length s < f → length s ≤ n → Ends (Leaves n) (parse_redirs f s)
unfolding parse_redirs
parse_redirs-Ends zero s n lt le = absurd (omega (arith, lt))
parse_redirs-Ends (suc f) s n lt le =
    let shorter = peek-gettoken (60 ∷ 62 ∷ []) s in
    let s1 : List ℕ = (peek (60 ∷ 62 ∷ []) s).1 in
    let tok : Token = gettoken s1 in
    let file : Token = gettoken tok.rest in
    elim-Ends _ (peek (60 ∷ 62 ∷ []) s).0 _ _
      (λ more.
        elim-Ends _ (file.ret == word_tok) _ _
          (λ is.
            >>=-Ends (Leaves n) _ (parse_redirs f file.rest) _
              (parse_redirs-Ends f file.rest n
                (omega (arith, shorter more, length-gettoken tok.rest))
                (omega (arith, shorter more, length-gettoken tok.rest)))
              (λ p h. ok-Ends _ _ h))
          (λ not_file. panics-Ends _))
      (λ stop. ok-Ends _ _ (omega (arith, peek-le (60 ∷ 62 ∷ []) s)))

-- The arguments, and what is left.
abbrev Leaves3 : ℕ → List (List ℕ) × List Redir × List ℕ → Type 0
Leaves3 n p = length p.2 ≤ n

pub parse_args-Ends :
    (f argc : ℕ) (s : List ℕ) (n : ℕ)
    → length s < f
    → length s ≤ n
    → Ends (Leaves3 n) (parse_args f argc s)
unfolding parse_args
parse_args-Ends zero argc s n lt le = absurd (omega (arith, lt))
parse_args-Ends (suc f) argc s n lt le =
    let toks : List ℕ = 124 ∷ 41 ∷ 38 ∷ 59 ∷ [] in
    let s1 : List ℕ = (peek toks s).1 in
    let tok : Token = gettoken s1 in
    let short = peek-le toks s in
    elim-Ends _ (peek toks s).0 _ _ (λ stop. ok-Ends _ _ (omega (arith, short)))
      (λ go.
        elim-Ends _ (tok.ret == 0) _ _
          (λ zero_tok. ok-Ends _ _ (omega (arith, short, length-gettoken s1)))
          (λ some_tok.
            elim-Ends _ (not (tok.ret == word_tok) || leb maxargs (argc + 1)) _ _
              (λ bad. panics-Ends _)
              (λ good.
                >>=-Ends (Leaves (length tok.rest)) _ (parse_redirs f tok.rest) _
                  (parse_redirs-Ends f tok.rest (length tok.rest)
                    (omega (arith, short, gettoken-end s1 some_tok)) (omega arith))
                  (λ p h.
                    >>=-Ends (Leaves3 n) _ (parse_args f (argc + 1) p.1) _
                      (parse_args-Ends f (argc + 1) p.1 n
                        (omega (arith, short, h, gettoken-end s1 some_tok))
                        (omega (arith, short, h, gettoken-end s1 some_tok)))
                      (λ q h'. ok-Ends _ _ h')))))

pub parse_backs-Ends :
    (f : ℕ) (c : Cmd) (s : List ℕ) (n : ℕ)
    → length s < f
    → length s ≤ n
    → Ends (Leaves n) (parse_backs f c s)
unfolding parse_backs
parse_backs-Ends zero c s n lt le = absurd (omega (arith, lt))
parse_backs-Ends (suc f) c s n lt le =
    let shorter = peek-gettoken (38 ∷ []) s in
    elim-Ends _ (peek (38 ∷ []) s).0 _ _
      (λ more.
        parse_backs-Ends f (back c) (gettoken (peek (38 ∷ []) s).1).rest n
          (omega (arith, shorter more)) (omega (arith, shorter more)))
      (λ stop. ok-Ends _ _ (omega (arith, peek-le (38 ∷ []) s)))

-- A function that ends with fuel of four units for a byte and `k` more.
abbrev EndsFrom : ℕ → (ℕ → List ℕ → Result (Cmd × List ℕ)) → ℕ → Type 0
EndsFrom k parse f =
    (s : List ℕ) (n : ℕ) → 4 * length s + k ≤ f → length s ≤ n → Ends (Leaves n) (parse f s)

-- A part in front of a separator `sep`, or the whole.
module _ (sep : ℕ) (f n m : ℕ) (c : Cmd) (s : List ℕ) (join : Cmd → Cmd → Cmd)
    (parse : ℕ → List ℕ → Result (Cmd × List ℕ)) (le : length s ≤ m) (le' : m ≤ n) where
  separated-Ends :
      (k : ℕ)
      → EndsFrom k parse f
      → 4 * m + k ≤ f + 4
      → Ends (Leaves n) (elim (peek (sep ∷ []) s).0 [
        | false ↦ ok (c, (peek (sep ∷ []) s).1)
        | true ↦ do (d, s3) ← parse f (gettoken (peek (sep ∷ []) s).1).rest; ok (join c d, s3)
      ])
  separated-Ends k ends fuel =
      let shorter = peek-gettoken (sep ∷ []) s in
      elim-Ends _ (peek (sep ∷ []) s).0 _ _
        (λ more.
          >>=-Ends (Leaves n) _ (parse f (gettoken (peek (sep ∷ []) s).1).rest) _
            (ends (gettoken (peek (sep ∷ []) s).1).rest n
              (omega (arith, le, le', shorter more, fuel)) (omega (arith, le, le', shorter more)))
            (λ p h. ok-Ends _ _ h))
        (λ stop. ok-Ends _ _ (omega (arith, le, le', peek-le (sep ∷ []) s)))

parse_line-Ends :
    (f : ℕ) → EndsFrom 3 parse_pipe f → EndsFrom 4 parse_line f → EndsFrom 4 parse_line (suc f)
unfolding parse_line
parse_line-Ends f pipe_ends line_ends s n fuel le =
    >>=-Ends (Leaves (length s)) _ (parse_pipe f s) _
      (pipe_ends s (length s) (omega (arith, fuel)) (omega arith))
      (λ p h.
        >>=-Ends (Leaves (length s)) _ (parse_backs f p.0 p.1) _
          (parse_backs-Ends f p.0 p.1 (length s) (omega (arith, fuel, h)) h)
          (λ q h'.
            separated-Ends 59 f n (length s) q.0 q.1 list parse_line h' le 4 line_ends
              (omega (arith, fuel))))

parse_pipe-Ends :
    (f : ℕ) → EndsFrom 2 parse_exec f → EndsFrom 3 parse_pipe f → EndsFrom 3 parse_pipe (suc f)
unfolding parse_pipe
parse_pipe-Ends f exec_ends pipe_ends s n fuel le =
    >>=-Ends (Leaves (length s)) _ (parse_exec f s) _
      (exec_ends s (length s) (omega (arith, fuel)) (omega arith))
      (λ p h.
        separated-Ends 124 f n (length s) p.0 p.1 pipe parse_pipe h le 3 pipe_ends
          (omega (arith, fuel)))

parse_exec-Ends : (f : ℕ) → EndsFrom 1 parse_block f → EndsFrom 2 parse_exec (suc f)
unfolding parse_exec
parse_exec-Ends f block_ends s n fuel le =
    let s1 : List ℕ = (peek (40 ∷ []) s).1 in
    let short = peek-le (40 ∷ []) s in
    elim-Ends _ (peek (40 ∷ []) s).0 _ _
      (λ opens. block_ends s1 n (omega (arith, fuel, short)) (omega (arith, le, short)))
      (λ no.
        >>=-Ends (Leaves (length s1)) _ (parse_redirs f s1) _
          (parse_redirs-Ends f s1 (length s1) (omega (arith, fuel, short)) (omega arith))
          (λ p h.
            >>=-Ends (Leaves3 n) _ (parse_args f 0 p.1) _
              (parse_args-Ends f 0 p.1 n (omega (arith, fuel, short, h))
                (omega (arith, le, short, h)))
              (λ q h'. ok-Ends _ _ h')))

parse_block-Ends : (f : ℕ) → EndsFrom 4 parse_line f → EndsFrom 1 parse_block (suc f)
unfolding parse_block
parse_block-Ends f line_ends s n fuel le =
    let shorter = peek-gettoken (40 ∷ []) s in
    let s1 : List ℕ = (gettoken (peek (40 ∷ []) s).1).rest in
    elim-Ends _ (peek (40 ∷ []) s).0 _ _
      (λ opens.
        >>=-Ends (Leaves (length s1)) _ (parse_line f s1) _
          (line_ends s1 (length s1) (omega (arith, fuel, shorter opens)) (omega arith))
          (λ p h.
            elim-Ends _ (peek (41 ∷ []) p.1).0 _ _
              (λ close.
                >>=-Ends (Leaves n) _ (parse_redirs f (gettoken (peek (41 ∷ []) p.1).1).rest) _
                  (parse_redirs-Ends f (gettoken (peek (41 ∷ []) p.1).1).rest n
                    (omega (arith, fuel, h, shorter opens, peek-gettoken (41 ∷ []) p.1 close))
                    (omega (arith, le, h, shorter opens, peek-gettoken (41 ∷ []) p.1 close)))
                  (λ q h'. ok-Ends _ _ h'))
              (λ no. panics-Ends _)))
      (λ no. panics-Ends _)

all-Ends :
    (f : ℕ)
    → EndsFrom 4 parse_line f
      × EndsFrom 3 parse_pipe f
      × EndsFrom 2 parse_exec f
      × EndsFrom 1 parse_block f
all-Ends zero = (
  (λ s n fuel le. absurd (omega (arith, fuel))),
  (λ s n fuel le. absurd (omega (arith, fuel))),
  (λ s n fuel le. absurd (omega (arith, fuel))),
  (λ s n fuel le. absurd (omega (arith, fuel))),
)
all-Ends (suc f) =
    let ih = all-Ends f in
    (
      parse_line-Ends f ih.1 ih.0,
      parse_pipe-Ends f ih.2 ih.1,
      parse_exec-Ends f ih.3,
      parse_block-Ends f ih.0,
    )

Ends-out_of_fuel {ℓ} : {A : Type ℓ} (P : A → Type 0) (r : Result A) → Ends P r → r ≢ out_of_fuel
unfolding Ends
Ends-out_of_fuel P r h e = subst (Ends P) e h

-- The parser ends on every command line: the recursion of its functions never runs out of fuel.
pub parsecmd-ends : (s : List ℕ) → parsecmd s ≢ out_of_fuel
unfolding parsecmd
parsecmd-ends s =
    Ends-out_of_fuel (λ c. Unit) (parsecmd s)
      (>>=-Ends (Leaves (length s)) _ (parse_line (4 * length s + 5) s) _
        ((all-Ends (4 * length s + 5)).0 s (length s) (omega arith) (omega arith))
        (λ p h. nothing_left p.0 (skip_space p.1)))
  where
    nothing_left :
        (c : Cmd) (l : List ℕ) → Ends {A = Cmd} (λ c. Unit) (elim l [ [] ↦ ok c | c' ∷ r ↦ panics ])
    nothing_left c [] = ok-Ends _ _ tt
    nothing_left c (c' ∷ r) = panics-Ends _
