-- ===== src/Shell/Parsing.antt =====
-- shell/parsing.c, and the functions on lines of shell/utils.c. `none` is an access outside an
-- array.
pub mod Words
use tps_sistemas_operativos.Prelude.{
  ℕ, zero, suc, ◌+◌, Bool, true, false, not, ◌&&◌, ◌||◌, Option, none, some, List, [], ◌∷◌, ◌++◌,
  ◌==◌, ltb, if◌then◌else◌, ◌>>=◌, length, take, drop, get_or,
}
use tps_sistemas_operativos.Fisopfs.Buffer.{str_eq, c_str}
use tps_sistemas_operativos.Shell.{
  space, buflen, maxargs, argsize, ExecCmd, Cmd, null, exec, fits_in, fresh_exec, back_cmd_create,
  pipe_cmd_create,
}

-- What the parser reads outside of the line: `getenv`, and the last `status` as `sprintf` writes it.
pub record Setting : Type 0 where
  pub getenv : List ℕ → Option (List ℕ)
  pub status : List ℕ

-- `while (buf[i] == SPACE) i++` behind the byte `prev`: that byte at the end, and what is left
unfoldable pub skip_spaces : ℕ → List ℕ → Option (ℕ × List ℕ)
skip_spaces prev [] = none
skip_spaces prev (b ∷ bs) =
    let rest = skip_spaces space bs in if b == space then rest else some (prev, b ∷ bs)

-- `split_line` of the block that starts at `buf`: the string that is left there, the byte before
-- the pointer that is returned, and the block that starts at that pointer
unfoldable pub split_line : List ℕ → ℕ → Option (List ℕ × ℕ × List ℕ)
unfolding skip_spaces
split_line [] splitter = none
split_line (b ∷ bs) splitter =
    let rest = split_line bs splitter in
    if not (b == splitter) && not (b == 0)
    then (rest >>= λ (left, prev, right). some (b ∷ left, prev, right))
    else (skip_spaces 0 bs >>= λ (prev, right). some ([], prev, right))

-- `block_contains` of a string: `none` is -1.
unfoldable pub block_contains : List ℕ → ℕ → Option ℕ
block_contains [] c = none
block_contains (b ∷ bs) c =
    let rest = block_contains bs c in if b == c then some 0 else (rest >>= λ i. some (i + 1))

abbrev pub has : List ℕ → ℕ → Bool
has s c = elim (block_contains s c) [ none ↦ false | some i ↦ true ]

-- `get_token` at the start of a string: the bytes up to a space, before they are copied
unfoldable pub token : List ℕ → List ℕ
token [] = []
token (b ∷ bs) = if b == space then [] else b ∷ token bs

abbrev pub get_token : List ℕ → Option (List ℕ)
get_token buf = fits_in argsize (token buf)

-- what `parse_redir_flow` does for a `>` at `index`
abbrev pub redir_output : ExecCmd → List ℕ → ℕ → ExecCmd
redir_output c arg zero = record c { out_file = drop 1 arg; redir = true }
redir_output c arg (suc zero) = record c { err_file = drop 2 arg; redir = true }
redir_output c arg (suc (suc n)) = record c { redir = true }

-- `parse_redir_flow`: the new command, or `none` where it returns false
unfoldable pub parse_redir_flow : ExecCmd → List ℕ → Option ExecCmd
unfolding block_contains
parse_redir_flow c arg = elim (block_contains arg 62) [
  | some index ↦ some (redir_output c arg index)
  | none ↦ elim (block_contains arg 60) [
    | some index ↦ some (record c { in_file = drop 1 arg; redir = true })
    | none ↦ none
  ]
]

-- the condition of `parse_environ_var`
unfoldable pub is_environ_var : List ℕ → Bool
unfolding block_contains
is_environ_var arg = elim (block_contains arg 61) [
  | none ↦ false
  | some zero ↦ false
  | some (suc n) ↦ not (has arg 45)
]

-- the next element of an array of `maxargs`
abbrev pub store : List (List ℕ) → List ℕ → Option (List (List ℕ))
store args arg = if ltb (length args) maxargs then some (args ++ arg ∷ []) else none

abbrev pub or_nothing : Option (List ℕ) → List ℕ
or_nothing none = []
or_nothing (some s) = s

-- `expand_environ_var`
unfoldable pub expand_environ_var : Setting → List ℕ → List ℕ
expand_environ_var s [] = []
expand_environ_var s (b ∷ []) = b ∷ []
expand_environ_var s (b ∷ c ∷ cs) =
    if not (b == 36)
    then b ∷ c ∷ cs
    else if str_eq (c ∷ cs) (63 ∷ [])
    then s.status
    else or_nothing (s.getenv (c ∷ cs))

abbrev pub store_arg : ExecCmd → List ℕ → Option ExecCmd
store_arg c [] = some c
store_arg c (b ∷ bs) = store c.argv (b ∷ bs) >>= λ argv. some (record c { argv = argv })

-- what `parse_exec` does with one token
unfoldable pub parse_token : Setting → ExecCmd → List ℕ → Option ExecCmd
unfolding parse_redir_flow is_environ_var expand_environ_var
parse_token s c tok = elim (parse_redir_flow c tok) [
  | some c' ↦ some c'
  | none ↦
      if is_environ_var tok
      then (store c.eargv tok >>= λ eargv. some (record c { eargv = eargv }))
      else store_arg c (expand_environ_var s tok)
]

-- the loop of `parse_exec` on what is left of the string, with `fuel` rounds left
unfoldable pub parse_loop : ℕ → Setting → ExecCmd → List ℕ → Option ExecCmd
parse_loop fuel s c [] = some c
parse_loop zero s c (b ∷ bs) = none
parse_loop (suc fuel) s c (b ∷ bs) = do
  tok ← get_token (b ∷ bs)
  c' ← parse_token s c tok
  parse_loop fuel s c' (drop (length tok + 1) (b ∷ bs))

-- `parse_exec`, whose last write is the null pointer behind the arguments
unfoldable pub parse_exec : Setting → List ℕ → Option ExecCmd
parse_exec s buf_cmd = do
  scmd ← fits_in buflen buf_cmd
  c ← parse_loop (length buf_cmd) s (fresh_exec scmd) buf_cmd
  if ltb (length c.argv) maxargs then some c else none

-- `parse_back` for a `&` at `index`
unfoldable pub parse_back : Setting → List ℕ → ℕ → Option Cmd
parse_back s buf_cmd index = parse_exec s (take index buf_cmd) >>= λ e. some (back_cmd_create e)

-- `buf_cmd[idx - 1]`, with the byte before the string
abbrev pub byte_before : Option ℕ → List ℕ → ℕ → Option ℕ
byte_before prev buf_cmd zero = prev
byte_before prev buf_cmd (suc i) = some (get_or buf_cmd i 0)

abbrev pub parse_plain : Setting → List ℕ → Option Cmd
parse_plain s buf_cmd = parse_exec s buf_cmd >>= λ e. some (Cmd.exec e)

-- `parse_cmd` of a string, behind the byte `prev` if there is one
unfoldable pub parse_cmd : Setting → Option ℕ → List ℕ → Option Cmd
parse_cmd s prev [] = some null
parse_cmd s prev (b ∷ bs) = elim (block_contains (b ∷ bs) 38) [
  | none ↦ parse_plain s (b ∷ bs)
  | some index ↦ do
    before ← byte_before prev (b ∷ bs) index
    (if not (before == 62) then parse_back s (b ∷ bs) index else parse_plain s (b ∷ bs))
]

-- `parse_line` of the block that starts at `buf`, with `fuel` calls left
unfoldable pub parse_line : ℕ → Setting → Option ℕ → List ℕ → Option Cmd
parse_line zero s before buf = none
parse_line (suc fuel) s before buf = do
  (left, prev, right) ← split_line buf 124
  text ← c_str right
  let rest = parse_line fuel s (some prev) right
  r ← if has text 124 then rest else parse_cmd s (some prev) text
  l ← parse_cmd s before left
  some (pipe_cmd_create l r)
