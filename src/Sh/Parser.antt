-- ===== src/Sh/Parser.antt =====
pub mod Ends
-- `parsecmd` and the functions that it calls, by recursive descent. A call costs a unit of fuel.
use zrhos.Base.{
  ℕ, zero, suc, ◌+◌, ◌*◌, ◌||◌, Bool, true, false, not, Option, none, some, List, [], ◌∷◌, ◌++◌,
  ◌==◌, leb, if◌then◌else◌, length,
}
use zrhos.Sh.Result.{Result, ok, panics, out_of_fuel, ◌>>=◌}
use zrhos.Sh.Lexer.{Token, gettoken, peek, word_tok, plus_tok, greater, skip_space}

-- `struct cmd` and its kinds.
pub data Cmd : Type 0 where
  exec : List (List ℕ) → Cmd
  redir : Cmd → (file : List ℕ) → (mode : ℕ) → (fd : ℕ) → Cmd
  pipe : Cmd → Cmd → Cmd
  list : Cmd → Cmd → Cmd
  back : Cmd → Cmd

-- `MAXARGS`
abbrev pub maxargs : ℕ
maxargs = 10

-- A redirection that `parseredirs` makes: its file, mode and descriptor.
abbrev pub Redir : Type 0
Redir = List ℕ × ℕ × ℕ

-- The switch over the token; the modes are O_RDONLY, O_WRONLY|O_CREATE|O_TRUNC and
-- O_WRONLY|O_CREATE.
abbrev pub make_redir : ℕ → List ℕ → List Redir
make_redir tok file =
    if tok == 60
    then (file, 0, 0) ∷ []
    else if tok == greater
    then (file, 0x601, 1) ∷ []
    else if tok == plus_tok
    then (file, 0x201, 1) ∷ []
    else []

-- The redirections go round the command, the last one outside.
unfoldable pub wrap : Cmd → List Redir → Cmd
wrap c [] = c
wrap c ((file, mode, fd) ∷ rs) = wrap (redir c file mode fd) rs

-- `parseredirs`: the redirections in order, and the new `*ps`.
unfoldable pub parse_redirs : ℕ → List ℕ → Result (List Redir × List ℕ)
parse_redirs zero s = out_of_fuel
parse_redirs (suc f) s =
    let (more, s1) = peek (60 ∷ 62 ∷ []) s in
    let tok = gettoken s1 in
    let file = gettoken tok.rest in
    elim more [
      | false ↦ ok ([], s1)
      | true ↦ elim (file.ret == word_tok) [
        | false ↦ panics
        | true ↦ do (rs, s2) ← parse_redirs f file.rest; ok (make_redir tok.ret file.word ++ rs, s2)
      ]
    ]

-- The loop of `parseexec` over the arguments, with `argc` of them before.
unfoldable pub parse_args : ℕ → ℕ → List ℕ → Result (List (List ℕ) × List Redir × List ℕ)
parse_args zero argc s = out_of_fuel
parse_args (suc f) argc s =
    let (stop, s1) = peek (124 ∷ 41 ∷ 38 ∷ 59 ∷ []) s in
    let tok = gettoken s1 in
    elim stop [
      | true ↦ ok ([], [], s1)
      | false ↦ elim (tok.ret == 0) [
        | true ↦ ok ([], [], tok.rest)
        | false ↦ elim (not (tok.ret == word_tok) || leb maxargs (argc + 1)) [
          | true ↦ panics
          | false ↦ do
            (rs, s2) ← parse_redirs f tok.rest
            (args, rs', s3) ← parse_args f (argc + 1) s2
            ok (tok.word ∷ args, rs ++ rs', s3)
        ]
      ]
    ]

-- The loop of `parseline` over '&'.
unfoldable pub parse_backs : ℕ → Cmd → List ℕ → Result (Cmd × List ℕ)
parse_backs zero c s = out_of_fuel
parse_backs (suc f) c s =
    let (more, s1) = peek (38 ∷ []) s in
    let rest = parse_backs f (back c) (gettoken s1).rest in
    elim more [ true ↦ rest | false ↦ ok (c, s1) ]

unfoldable mutual
  pub parse_line : ℕ → List ℕ → Result (Cmd × List ℕ)
  parse_line zero s = out_of_fuel
  parse_line (suc f) s = do
    (c, s1) ← parse_pipe f s
    (c', s2) ← parse_backs f c s1
    let p = peek (59 ∷ []) s2
    elim p.0 [
      | false ↦ ok (c', p.1)
      | true ↦ do (d, s3) ← parse_line f (gettoken p.1).rest; ok (list c' d, s3)
    ]

  pub parse_pipe : ℕ → List ℕ → Result (Cmd × List ℕ)
  parse_pipe zero s = out_of_fuel
  parse_pipe (suc f) s = do
    (c, s1) ← parse_exec f s
    let p = peek (124 ∷ []) s1
    elim p.0 [
      | false ↦ ok (c, p.1)
      | true ↦ do (d, s2) ← parse_pipe f (gettoken p.1).rest; ok (pipe c d, s2)
    ]

  pub parse_exec : ℕ → List ℕ → Result (Cmd × List ℕ)
  parse_exec zero s = out_of_fuel
  parse_exec (suc f) s =
      let p = peek (40 ∷ []) s in
      elim p.0 [
        | true ↦ parse_block f p.1
        | false ↦ do
          (rs, s1) ← parse_redirs f p.1
          (args, rs', s2) ← parse_args f 0 s1
          ok (wrap (exec args) (rs ++ rs'), s2)
      ]

  pub parse_block : ℕ → List ℕ → Result (Cmd × List ℕ)
  parse_block zero s = out_of_fuel
  parse_block (suc f) s =
      let p = peek (40 ∷ []) s in
      elim p.0 [
        | false ↦ panics
        | true ↦ do
          (c, s1) ← parse_line f (gettoken p.1).rest
          let q = peek (41 ∷ []) s1
          elim q.0 [
            | false ↦ panics
            | true ↦ do (rs, s2) ← parse_redirs f (gettoken q.1).rest; ok (wrap c rs, s2)
          ]
      ]

-- Four calls for a byte are enough.
unfoldable pub parsecmd : List ℕ → Result Cmd
parsecmd s = do
  (c, s1) ← parse_line (4 * length s + 5) s
  elim (skip_space s1) [ [] ↦ ok c | c' ∷ r ↦ panics ]
