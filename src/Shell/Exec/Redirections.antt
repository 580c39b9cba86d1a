-- ===== src/Shell/Exec/Redirections.antt =====
-- Where the redirections of a command lead its streams.
use tps_sistemas_operativos.Prelude.{
  ℕ, ◌≡◌, refl, Bool, true, ◌&&◌, ◌||◌, none, some, List, [], ◌∷◌, if◌then◌else◌, Bool-cases, inl,
  inr,
}
use tps_sistemas_operativos.Fisopfs.Buffer.{str_eq}
use tps_sistemas_operativos.Shell.{Cmd, ExecCmd}
use tps_sistemas_operativos.Shell.Exec.{
  System, Process, Stream, Ended, launch, run_exec, set_environ_vars, exec_cmd, redirect,
  redirect_stdin, redirect_stdout, redirect_stderr,
}

abbrev pub allowed : (List ℕ → Bool) → List ℕ → Bool
allowed can [] = true
allowed can (b ∷ bs) = can (b ∷ bs)

abbrev pub target : (List ℕ → Stream) → Stream → List ℕ → Stream
target file old [] = old
target file old (b ∷ bs) = file (b ∷ bs)

-- `2>&1`
abbrev pub joins : List ℕ → Bool
joins err = str_eq err (38 ∷ 49 ∷ [])

-- All files that the command names can be opened.
abbrev pub all_open : System → List ℕ → List ℕ → List ℕ → Bool
all_open s i o err =
    allowed s.can_read i && (allowed s.can_make o && (joins err || allowed s.can_make err))

-- the process with its streams redirected: the errors join the output where it leads by then
abbrev pub redirected : Process → List ℕ → List ℕ → List ℕ → Process
redirected p i o err =
    let out = target Stream.makes_file p.stdout o in
    record p {
      stdin = target Stream.reads_file p.stdin i;
      stdout = out;
      stderr = if joins err then out else target Stream.makes_file p.stderr err;
    }

stdin_allowed :
    (s : System) (f : List ℕ) (p : Process)
    → redirect_stdin s f p ≡ (
        if allowed s.can_read f
        then some (record p { stdin = target Stream.reads_file p.stdin f })
        else none)
stdin_allowed s [] p = unfold redirect_stdin in refl
stdin_allowed s (b ∷ bs) p = unfold redirect_stdin in refl

stdout_allowed :
    (s : System) (f : List ℕ) (p : Process)
    → redirect_stdout s f p ≡ (
        if allowed s.can_make f
        then some (record p { stdout = target Stream.makes_file p.stdout f })
        else none)
stdout_allowed s [] p = unfold redirect_stdout in refl
stdout_allowed s (b ∷ bs) p = unfold redirect_stdout in refl

stderr_allowed :
    (s : System) (f : List ℕ) (p : Process)
    → redirect_stderr s f p ≡ (
        if joins f || allowed s.can_make f
        then some (record p {
          stderr = if joins f then p.stdout else target Stream.makes_file p.stderr f;
        })
        else none)
stderr_allowed s [] p = unfold redirect_stderr in refl
stderr_allowed s (b ∷ bs) p = elim (Bool-cases (joins (b ∷ bs))) [
  | inl e ↦ unfold redirect_stderr in rw e refl
  | inr e ↦ unfold redirect_stderr in rw e refl
]

redirect_lem :
    (s : System) (e : ExecCmd) (p : Process)
    → redirect s e p ≡ (
        if all_open s e.in_file e.out_file e.err_file
        then some (redirected p e.in_file e.out_file e.err_file)
        else none)
redirect_lem s e p = elim (Bool-cases (allowed s.can_read e.in_file)) [
  | inr a ↦ unfold redirect in rw (stdin_allowed s e.in_file p) (rw a refl)
  | inl a ↦ elim (Bool-cases (allowed s.can_make e.out_file)) [
    | inr b ↦
        unfold redirect in
        rw (stdin_allowed s e.in_file p) (
          rw a (
            rw
              (stdout_allowed s e.out_file
                (record p { stdin = target Stream.reads_file p.stdin e.in_file }))
              (rw b refl)))
    | inl b ↦
        unfold redirect in
        rw (stdin_allowed s e.in_file p) (
          rw a (
            rw
              (stdout_allowed s e.out_file
                (record p { stdin = target Stream.reads_file p.stdin e.in_file }))
              (rw b (
                stderr_allowed s e.err_file (record p {
                  stdin = target Stream.reads_file p.stdin e.in_file;
                  stdout = target Stream.makes_file p.stdout e.out_file;
                })))))
  ]
]

-- A command with redirections and no variables fails when a file that it names cannot be opened,
-- and else runs with each stream at the file that is named for it, or where it was; `2>&1` takes
-- the errors to where the output leads after its own redirection.
pub exec_cmd-redirect :
    (s : System) (path : List Bool) (p : Process) (e : ExecCmd)
    → e.redir ≡ true
    → e.eargv ≡ []
    → exec_cmd s path p (Cmd.exec e) ≡ (
        if all_open s e.in_file e.out_file e.err_file
        then launch s (redirected p e.in_file e.out_file e.err_file) e.argv
        else Ended.fails)
unfolding redirect
exec_cmd-redirect s path p e h k = elim (Bool-cases (all_open s e.in_file e.out_file e.err_file)) [
  | inl o ↦
      unfold exec_cmd in
      unfold run_exec in
      unfold set_environ_vars in rw h (rw (redirect_lem s e p) (rw o (rw k refl)))
  | inr o ↦ unfold exec_cmd in rw h (rw (redirect_lem s e p) (rw o refl))
]
