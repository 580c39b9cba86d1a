-- ===== src/Shell.antt =====
-- The commands of the shell: shell/types.h, shell/defs.h and shell/createcmd.c.
pub mod Parsing
pub mod Builtin
pub mod Exec
mod Tests
use tps_sistemas_operativos.Prelude.{
  ℕ, ◌+◌, Bool, false, Option, none, some, List, [], ltb, if◌then◌else◌, length,
}

abbrev pub space : ℕ
space = 32

abbrev pub buflen : ℕ
buflen = 1024

abbrev pub maxargs : ℕ
maxargs = 20

abbrev pub argsize : ℕ
argsize = 1024

-- `struct execcmd`, a string as its bytes before the terminator; `redir` tells the type `REDIR` from
-- `EXEC`, and the counts `argc` and `eargc` are the lengths.
pub record ExecCmd : Type 0 where
  pub redir : Bool
  pub scmd : List ℕ
  pub argv : List (List ℕ)
  pub eargv : List (List ℕ)
  pub out_file : List ℕ
  pub in_file : List ℕ
  pub err_file : List ℕ

-- `struct cmd *`: the null pointer, or one of the structures by its type
pub data Cmd : Type 0 where
  null : Cmd
  exec : ExecCmd → Cmd
  back : List ℕ → Cmd → Cmd
  pipe : Cmd → Cmd → Cmd

-- a string that is copied into an array of `n` bytes
abbrev pub fits_in : ℕ → List ℕ → Option (List ℕ)
fits_in n s = if ltb (length s) n then some s else none

abbrev pub fresh_exec : List ℕ → ExecCmd
fresh_exec scmd = record {
  redir = false;
  scmd = scmd;
  argv = [];
  eargv = [];
  out_file = [];
  in_file = [];
  err_file = [];
}

-- `back_cmd_create`
abbrev pub back_cmd_create : ExecCmd → Cmd
back_cmd_create e = Cmd.back e.scmd (Cmd.exec e)

-- `pipe_cmd_create`
abbrev pub pipe_cmd_create : Cmd → Cmd → Cmd
pipe_cmd_create left Cmd.null = left
pipe_cmd_create left right = Cmd.pipe left right
