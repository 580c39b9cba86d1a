-- ===== src/Shell/Tests.antt =====
-- A pipeline of two commands, and lines that the shell obeys or does not survive.
use tps_sistemas_operativos.Prelude.{
  ℕ, ◌≡◌, ◌<◌, refl, List, [], ◌∷◌, ◌++◌, if◌then◌else◌, true, false, none, some, arith,
}
use tps_sistemas_operativos.Shell.{Cmd, ExecCmd, fresh_exec}
use tps_sistemas_operativos.Shell.Parsing.{
  Setting, block_contains, token, parse_redir_flow, parse_token, parse_loop, parse_exec, parse_line,
}
use tps_sistemas_operativos.Shell.Parsing.Words.{Ordinary, Words, text, with_args, parse_exec-Words}
use tps_sistemas_operativos.Shell.Parsing.Words.Pipelines.{
  Stages, render, tree, ended, parse_line-Stages,
}
use tps_sistemas_operativos.Shell.Builtin.{Directories, run_cmd}
use tps_sistemas_operativos.Shell.Exec.{launch, Ended, System, Process, Stream, exec_cmd}
use tps_sistemas_operativos.Shell.Exec.Redirections.{all_open, redirected, exec_cmd-redirect}
use tps_sistemas_operativos.Shell.Builtin.Bars.{run_cmd-bar}

abbrev setting : Setting
setting = record { getenv = λ key. none; status = 48 ∷ [] }

abbrev directories : Directories
directories = record { chdir = λ directory. true; getcwd = λ directory. directory }

letter-Ordinary : (b : ℕ) → 96 < b → b < 123 → Ordinary b
letter-Ordinary b h k = record {
  not_end = λ e. absurd (omega arith);
  not_space = λ e. absurd (omega arith);
  not_dollar = λ e. absurd (omega arith);
  not_ampersand = λ e. absurd (omega arith);
  not_less = λ e. absurd (omega arith);
  not_equal = λ e. absurd (omega arith);
  not_greater = λ e. absurd (omega arith);
  not_bar = λ e. absurd (omega arith);
}

-- `ls a`
abbrev first : List (List ℕ)
first = (108 ∷ 115 ∷ []) ∷ (97 ∷ []) ∷ []

-- `wc`
abbrev second : List (List ℕ)
second = (119 ∷ 99 ∷ []) ∷ []

first-Words : Words first
first-Words = (
  omega arith,
  (
    letter-Ordinary 108 (omega arith) (omega arith),
    (letter-Ordinary 115 (omega arith) (omega arith), tt),
  ),
  (omega arith, (letter-Ordinary 97 (omega arith) (omega arith), tt), tt),
)

second-Words : Words second
second-Words = (
  omega arith,
  (
    letter-Ordinary 119 (omega arith) (omega arith),
    (letter-Ordinary 99 (omega arith) (omega arith), tt),
  ),
  tt,
)

both-Stages : Stages (first ∷ second ∷ [])
both-Stages = (
  first-Words,
  omega arith,
  omega arith,
  omega arith,
  (second-Words, omega arith, omega arith, omega arith, tt),
)

parse_line-Stages_example :
    parse_line 2 setting none (render (first ∷ second ∷ []) ++ ended [])
    ≡ some (tree (first ∷ second ∷ []))
parse_line-Stages_example =
    parse_line-Stages 2 setting none first (second ∷ []) [] both-Stages (omega arith)

parse_exec-Words_example :
    parse_exec setting (text first false) ≡ some (with_args (fresh_exec (text first false)) first)
parse_exec-Words_example =
    parse_exec-Words setting first false first-Words (omega arith) (omega arith)

run_cmd-bar_example : run_cmd setting directories [] (124 ∷ 32 ∷ 119 ∷ 99 ∷ 0 ∷ 0 ∷ []) ≡ none
run_cmd-bar_example = run_cmd-bar setting directories [] (32 ∷ 119 ∷ 99 ∷ 0 ∷ 0 ∷ [])

-- `a>b` loses the word and redirects nothing
lost_word :
    parse_exec setting (97 ∷ 97 ∷ 62 ∷ 98 ∷ [])
    ≡ some (record (fresh_exec (97 ∷ 97 ∷ 62 ∷ 98 ∷ [])) { redir = true })
unfolding parse_exec parse_loop token parse_token parse_redir_flow block_contains
lost_word = refl

abbrev system : System
system = record { can_read = λ f. true; can_make = λ f. true; has_program = λ f. true }

abbrev process : Process
process = record {
  stdin = Stream.inherited 0;
  stdout = Stream.inherited 1;
  stderr = Stream.inherited 2;
  variables = [];
}

-- `make <a >b 2>&1`
abbrev make : ExecCmd
make = record (fresh_exec []) {
  redir = true;
  argv = (109 ∷ []) ∷ [];
  in_file = 97 ∷ [];
  out_file = 98 ∷ [];
  err_file = 38 ∷ 49 ∷ [];
}

exec_cmd-redirect_example : exec_cmd system [] process (Cmd.exec make) ≡ (
    if all_open system make.in_file make.out_file make.err_file
    then launch system (redirected process make.in_file make.out_file make.err_file) make.argv
    else Ended.fails)
exec_cmd-redirect_example = exec_cmd-redirect system [] process make refl refl
