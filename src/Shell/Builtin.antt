-- ===== src/Shell/Builtin.antt =====
-- shell/builtin.c, shell/freecmd.c and shell/runcmd.c: the commands that the shell itself obeys, and what becomes of
-- a line. `none` is an access outside of the line.
pub mod Bars
use tps_sistemas_operativos.Prelude.{
  ℕ, zero, suc, ◌+◌, ◌-◌, Bool, true, false, ◌||◌, ◌&&◌, Option, none, some, List, [], ◌∷◌, ◌++◌,
  ◌==◌, ltb, if◌then◌else◌, ◌>>=◌, length, take, drop, set,
}
use tps_sistemas_operativos.Fisopfs.Buffer.{str_eq, c_str}
use tps_sistemas_operativos.Shell.{space, Cmd, null, exec, back, pipe}
use tps_sistemas_operativos.Shell.Parsing.{Setting, token, parse_line, or_nothing}

-- the size of `prompt`
abbrev pub prmtlen : ℕ
prmtlen = 1024

-- `exit_shell`
unfoldable pub exit_shell : List ℕ → Bool
exit_shell cmd = str_eq cmd (101 ∷ 120 ∷ 105 ∷ 116 ∷ [])

abbrev pub is_whitespace : ℕ → Bool
is_whitespace c = (c == 32) || (c == 9) || (c == 10)

-- how many whitespaces a string begins with
unfoldable pub leading : List ℕ → ℕ
leading [] = 0
leading (c ∷ cs) = let rest = leading cs in if is_whitespace c then suc rest else 0

-- a string without the whitespaces at its end
unfoldable pub without_trailing : List ℕ → List ℕ
without_trailing [] = []
without_trailing (c ∷ cs) = elim (without_trailing cs) [
  | [] ↦ if is_whitespace c then [] else c ∷ []
  | d ∷ ds ↦ c ∷ d ∷ ds
]

-- `trim_whitespaces` of the string at the start of a block: the string that the pointer shows, and
-- the block with the new terminator
unfoldable pub trim_whitespaces : List ℕ → Option (List ℕ × List ℕ)
unfolding leading without_trailing
trim_whitespaces block = c_str block >>= λ str.
    let trimmed = without_trailing (drop (leading str) str) in
    some (trimmed, set block (leading str + length trimmed) 0)

abbrev pub starts_with : List ℕ → List ℕ → Bool
starts_with [] s = true
starts_with (p ∷ ps) [] = false
starts_with (p ∷ ps) (c ∷ cs) = if p == c then starts_with ps cs else false

-- `strstr(s, p) != NULL`
unfoldable pub strstr : List ℕ → List ℕ → Bool
strstr [] p = starts_with p []
strstr (c ∷ cs) p = starts_with p (c ∷ cs) || strstr cs p

unfoldable pub skip : List ℕ → List ℕ
skip [] = []
skip (c ∷ cs) = let rest = skip cs in if c == space then rest else c ∷ cs

-- What the system answers: does `chdir` to a directory succeed, and where is the shell then?
pub record Directories : Type 0 where
  pub chdir : List ℕ → Bool
  pub getcwd : List ℕ → List ℕ

-- `snprintf(prompt, sizeof prompt, "(%s)", s)`
abbrev pub prompt_of : List ℕ → List ℕ
prompt_of s = take (prmtlen - 1) (40 ∷ s ++ 41 ∷ [])

abbrev pub cd_word : List ℕ
cd_word = 99 ∷ 100 ∷ []

-- what `cd` does with a directory, or with none for a variable that is not set; the result is the
-- prompt
unfoldable pub go_to : Directories → Option (List ℕ) → List ℕ → List ℕ
go_to d none prompt = prompt
go_to d (some directory) prompt =
    if d.chdir directory then prompt_of (d.getcwd directory) else prompt

-- `chdir` to `HOME`, and the prompt
unfoldable pub go_home : Directories → Option (List ℕ) → List ℕ → List ℕ
go_home d none prompt = prompt
go_home d (some home) prompt = if d.chdir home then prompt_of home else prompt

-- the argument of `cd`, where a `$` in front means a variable
unfoldable pub directory_of : Setting → List ℕ → Option (List ℕ)
directory_of s [] = some []
directory_of s (c ∷ cs) = if c == 36 then s.getenv cs else some (c ∷ cs)

-- What `cd` leaves: whether it was the command, the prompt, and the line.
pub record Moved : Type 0 where
  pub done : Bool
  pub prompt : List ℕ
  pub line : List ℕ

abbrev pub home : List ℕ
home = 72 ∷ 79 ∷ 77 ∷ 69 ∷ []

-- `cd` of a line that is trimmed
unfoldable pub cd_trimmed : Setting → Directories → List ℕ → List ℕ → List ℕ → Moved
unfolding skip token directory_of go_to go_home
cd_trimmed s d prompt cmd line =
    if str_eq cd_word cmd
    then record { done = true; prompt = go_home d (s.getenv home) prompt; line = line }
    else if starts_with (cd_word ++ space ∷ []) cmd
    then record {
      done = true;
      prompt = go_to d (directory_of s (token (skip (drop 3 cmd)))) prompt;
      line = line;
    }
    else record { done = false; prompt = prompt; line = line }

-- `cd` of the string at the start of a block; the line that it leaves is only of use when it was
-- not the command
unfoldable pub cd : Setting → Directories → List ℕ → List ℕ → Option Moved
unfolding strstr trim_whitespaces cd_trimmed
cd s d prompt block = do
  cmd ← c_str block
  (if strstr cmd cd_word
      then (trim_whitespaces block >>= λ (trimmed, line). some (cd_trimmed s d prompt trimmed line))
      else some (record { done = false; prompt = prompt; line = block }))

-- `pwd`: whether it was the command
unfoldable pub pwd : List ℕ → Bool
pwd cmd = str_eq (112 ∷ 119 ∷ 100 ∷ []) cmd

-- What `run_cmd` does with a line: nothing, end the shell, obey a command itself, or start a
-- process for a command, in the background or not.
pub data Run : Type 0 where
  idle leaves obeyed : Run
  starts waits_for : Cmd → Run

-- `free_command`: false where it reads through a null pointer
unfoldable pub free_command : Cmd → Bool
free_command Cmd.null = false
free_command (Cmd.exec e) = true
free_command (Cmd.back scmd c) = free_command c
free_command (Cmd.pipe l r) = free_command l && free_command r

abbrev pub started : Cmd → Run
started (Cmd.back scmd c) = Run.starts (Cmd.back scmd c)
started c = Run.waits_for c

-- what `run_cmd` does with a parsed command, which is freed at the end
unfoldable pub spawn : Cmd → Option Run
unfolding free_command
spawn c = if free_command c then some (started c) else none

-- `run_cmd` behind the call of `cd`
unfoldable pub run_other : Setting → List ℕ → Option Run
unfolding exit_shell pwd parse_line spawn
run_other s line = do
  cmd ← c_str line
  (if exit_shell cmd
      then some Run.leaves
      else if pwd cmd
      then some Run.obeyed
      else (parse_line (length line) s none line >>= spawn))

-- `run_cmd` of the line at the start of a block: what it does, and the prompt
unfoldable pub run_cmd : Setting → Directories → List ℕ → List ℕ → Option (Run × List ℕ)
unfolding cd run_other
run_cmd s d prompt [] = none
run_cmd s d prompt (b ∷ bs) = if b == 0 then some (Run.idle, prompt) else (do
  moved ← cd s d prompt (b ∷ bs)
  (if moved.done
      then some (Run.obeyed, moved.prompt)
      else (run_other s moved.line >>= λ r. some (r, moved.prompt))))
