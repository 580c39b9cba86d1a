-- ===== src/Shell/Exec.antt =====
-- shell/exec.c: what the process of a command becomes, in terms of where its streams lead. The
-- duplication of an open descriptor, `pipe` and `fork` succeed.
pub mod Chains
pub mod Redirections
use tps_sistemas_operativos.Prelude.{
  ℕ, zero, suc, ◌+◌, ◌≡◌, ◌≢◌, refl, Bool, true, false, Option, none, some, List, [], ◌∷◌, ◌++◌,
  ◌==◌, if◌then◌else◌, ◌>>=◌, length, take, drop,
}
use tps_sistemas_operativos.Fisopfs.Buffer.{str_eq}
use tps_sistemas_operativos.Shell.{buflen, fits_in, ExecCmd, Cmd, null, exec, back, pipe}
use tps_sistemas_operativos.Shell.Parsing.{block_contains}

-- Where a stream leads: where the shell's own one does, to a file, or to an end of a pipe, which is
-- known by the process that made it.
pub data Stream : Type 0 where
  inherited : ℕ → Stream
  reads_file makes_file : List ℕ → Stream
  read_end write_end : List Bool → Stream

pub record Process : Type 0 where
  pub stdin : Stream
  pub stdout : Stream
  pub stderr : Stream
  pub variables : List (List ℕ × List ℕ)

-- What becomes of the process: it runs a program, ends with a failure or without, starts the two
-- sides of a pipe and waits for them, or reads through a null pointer or outside of an array.
pub data Ended : Type 0 where
  runs : Process → List (List ℕ) → Ended
  fails exits crashes : Ended
  pipes : Ended → Ended → Ended

-- What the system answers: can the file be opened for reading, or made, and is there a program?
pub record System : Type 0 where
  pub can_read : List ℕ → Bool
  pub can_make : List ℕ → Bool
  pub has_program : List ℕ → Bool

-- `get_environ_key` and `get_environ_value` for the `=` at `index`, with their arrays
unfoldable pub get_environ_key : List ℕ → ℕ → Option (List ℕ)
get_environ_key arg index = fits_in buflen (take index arg)

unfoldable pub get_environ_value : List ℕ → ℕ → Option (List ℕ)
get_environ_value arg index = fits_in buflen (drop (index + 1) arg)

-- `set_environ_vars`
unfoldable pub set_environ_vars : Process → List (List ℕ) → Option Process
set_environ_vars p [] = some p
set_environ_vars p (arg ∷ args) = elim (block_contains arg 61) [
  | none ↦ set_environ_vars p args
  | some index ↦ do
    key ← get_environ_key arg index
    value ← get_environ_value arg index
    set_environ_vars (record p { variables = p.variables ++ (key, value) ∷ [] }) args
]

-- `redirect_stdin`, `redirect_stdout` and `redirect_stderr`: `none` is the exit with an error.
unfoldable pub redirect_stdin : System → List ℕ → Process → Option Process
redirect_stdin s [] p = some p
redirect_stdin s (b ∷ bs) p =
    if s.can_read (b ∷ bs) then some (record p { stdin = Stream.reads_file (b ∷ bs) }) else none

unfoldable pub redirect_stdout : System → List ℕ → Process → Option Process
redirect_stdout s [] p = some p
redirect_stdout s (b ∷ bs) p =
    if s.can_make (b ∷ bs) then some (record p { stdout = Stream.makes_file (b ∷ bs) }) else none

unfoldable pub redirect_stderr : System → List ℕ → Process → Option Process
redirect_stderr s [] p = some p
redirect_stderr s (b ∷ bs) p =
    if str_eq (b ∷ bs) (38 ∷ 49 ∷ [])
    then some (record p { stderr = p.stdout })
    else if s.can_make (b ∷ bs)
    then some (record p { stderr = Stream.makes_file (b ∷ bs) })
    else none

abbrev pub launch : System → Process → List (List ℕ) → Ended
launch s p [] = Ended.exits
launch s p (program ∷ args) =
    if s.has_program program then Ended.runs p (program ∷ args) else Ended.fails

-- `run_exec`, and the `exit(0)` of its caller when there is no program to run
unfoldable pub run_exec : System → Process → ExecCmd → Ended
run_exec s p e = elim (set_environ_vars p e.eargv) [
  | none ↦ Ended.crashes
  | some p' ↦ launch s p' e.argv
]

-- the three redirections of a command of type `REDIR`, in their order
unfoldable pub redirect : System → ExecCmd → Process → Option Process
redirect s r p = do
  p1 ← redirect_stdin s r.in_file p
  p2 ← redirect_stdout s r.out_file p1
  redirect_stderr s r.err_file p2

-- `exec_cmd`, with `run_pipe`, in the process that the path leads to: `false` is the left and `true`
-- the right one of the two that a pipe's process forks. A process makes one pipe at most.
unfoldable pub exec_cmd : System → List Bool → Process → Cmd → Ended
exec_cmd s path p Cmd.null = Ended.crashes
exec_cmd s path p (Cmd.exec e) =
    if e.redir
    then elim (redirect s e p) [ none ↦ Ended.fails | some p' ↦ run_exec s p' e ]
    else run_exec s p e
exec_cmd s path p (Cmd.back scmd c) = exec_cmd s path p c
exec_cmd s path p (Cmd.pipe l r) =
    Ended.pipes (exec_cmd s (path ++ false ∷ []) (record p { stdout = Stream.write_end path }) l)
      (exec_cmd s (path ++ true ∷ []) (record p { stdin = Stream.read_end path }) r)
