-- ===== src/Shell/Builtin/Bars.antt =====
-- Lines that begin with a bar.
use tps_sistemas_operativos.Prelude.{
  ℕ, suc, ◌+◌, ◌≡◌, refl, sym, ap, subst, true, false, Option, none, some, List, [], ◌∷◌,
  if◌then◌else◌, ◌>>=◌, length, set, arith, Option-cases, inl, inr, ◌⊎◌, Bool-cases,
}
use tps_sistemas_operativos.Fisopfs.Buffer.{c_str}
use tps_sistemas_operativos.Shell.{Cmd, pipe_cmd_create}
use tps_sistemas_operativos.Shell.Parsing.{
  Setting, split_line, skip_spaces, has, parse_cmd, parse_line,
}
use tps_sistemas_operativos.Shell.Builtin.{
  free_command, spawn, run_other, run_cmd, exit_shell, pwd, Directories, cd, cd_trimmed,
  trim_whitespaces, leading, without_trailing, strstr, cd_word, Moved,
}

spawn-null : (r : Cmd) → spawn (pipe_cmd_create Cmd.null r) ≡ none
unfolding spawn free_command
spawn-null Cmd.null = refl
spawn-null (Cmd.exec e) = refl
spawn-null (Cmd.back scmd c) = refl
spawn-null (Cmd.pipe l r) = refl

bind-null : (m : Option Cmd) → ((m >>= λ r. some (pipe_cmd_create Cmd.null r)) >>= spawn) ≡ none
bind-null none = refl
bind-null (some r) = spawn-null r

parse_cmd_empty : (s : Setting) → parse_cmd s none [] ≡ some Cmd.null
parse_cmd_empty s = unfold parse_cmd in refl

parse_line-bar :
    (fuel : ℕ) (s : Setting) (bs : List ℕ)
    → (parse_line (suc fuel) s none (124 ∷ bs) >>= spawn) ≡ none
parse_line-bar fuel s bs = elim (Option-cases (skip_spaces 0 bs)) [
  | inl e ↦ unfold parse_line in unfold split_line in rw e refl
  | inr (p, e) ↦ elim (Option-cases (c_str p.1)) [
    | inl c ↦ unfold parse_line in unfold split_line in rw e (rw c refl)
    | inr (txt, c) ↦
        unfold parse_line in
        unfold split_line in
        rw e (
          rw c (
            rw (parse_cmd_empty s) (
              bind-null (
                if has txt 124
                then parse_line fuel s (some p.0) p.1
                else parse_cmd s (some p.0) txt))))
  ]
]

-- the string of a block that begins with a bar
Barred : List ℕ → Type 0
Barred bs = (c_str (124 ∷ bs) ≡ none) ⊎ ((t : List ℕ) × (c_str (124 ∷ bs) ≡ some (124 ∷ t)))

c_str-Barred : (bs : List ℕ) → Barred bs
unfolding Barred
c_str-Barred bs = elim (Option-cases (c_str bs)) [
  | inl e ↦ inl (unfold c_str in rw e refl)
  | inr (t, e) ↦ inr (t, unfold c_str in rw e refl)
]

run_other-bar : (s : Setting) (bs : List ℕ) → run_other s (124 ∷ bs) ≡ none
unfolding Barred
run_other-bar s bs = elim (c_str-Barred bs) [
  | inl e ↦ unfold run_other in rw e refl
  | inr (t, e) ↦
      unfold run_other in unfold exit_shell in unfold pwd in rw e (parse_line-bar (length bs) s bs)
]

-- what `cd` leaves of a line that begins with a bar
Stays : List ℕ → Option Moved → Type 0
Stays prompt m =
    (m ≡ none)
    ⊎ ((bs : List ℕ) × (m ≡ some (record { done = false; prompt = prompt; line = 124 ∷ bs })))

trimmed_line : (bs u : List ℕ) → set (124 ∷ bs) (0 + length (124 ∷ u)) 0 ≡ 124 ∷ set bs (length u) 0
trimmed_line bs u = ap (λ n. set (124 ∷ bs) n 0) (sym (suc_zero (length u)))
  where
    suc_zero : (n : ℕ) → suc n ≡ 0 + suc n
    suc_zero n = omega arith

cd_trimmed-Stays :
    (s : Setting) (d : Directories) (prompt bs u : List ℕ)
    → Stays prompt
        (some (cd_trimmed s d prompt (124 ∷ u) (set (124 ∷ bs) (0 + length (124 ∷ u)) 0)))
unfolding Stays cd_trimmed
cd_trimmed-Stays s d prompt bs u = inr (
  set bs (length u) 0,
  ap (λ l. some (record { done = false; prompt = prompt; line = l })) (trimmed_line bs u),
)

without_trailing-bar : (t : List ℕ) → (u : List ℕ) × (without_trailing (124 ∷ t) ≡ 124 ∷ u)
without_trailing-bar t = go (without_trailing t) refl
  where
    go :
        (w : List ℕ)
        → without_trailing t ≡ w
        → (u : List ℕ) × (without_trailing (124 ∷ t) ≡ 124 ∷ u)
    go [] e = ([], unfold without_trailing in rw e refl)
    go (x ∷ xs) e = (x ∷ xs, unfold without_trailing in rw e refl)

leading-bar : (t : List ℕ) → leading (124 ∷ t) ≡ 0
leading-bar t = unfold leading in refl

cd-trimmed :
    (s : Setting) (d : Directories) (prompt bs t u : List ℕ)
    → c_str (124 ∷ bs) ≡ some (124 ∷ t)
    → strstr (124 ∷ t) cd_word ≡ true
    → without_trailing (124 ∷ t) ≡ 124 ∷ u
    → cd s d prompt (124 ∷ bs)
      ≡ some (cd_trimmed s d prompt (124 ∷ u) (set (124 ∷ bs) (0 + length (124 ∷ u)) 0))
cd-trimmed s d prompt bs t u e f g =
    unfold cd in unfold trim_whitespaces in rw e (rw f (rw (leading-bar t) (rw g refl)))

cd-Stays :
    (s : Setting) (d : Directories) (prompt bs : List ℕ) → Stays prompt (cd s d prompt (124 ∷ bs))
unfolding Barred Stays
cd-Stays s d prompt bs = elim (c_str-Barred bs) [
  | inl e ↦ inl (unfold cd in rw e refl)
  | inr (t, e) ↦ elim (Bool-cases (strstr (124 ∷ t) cd_word)) [
    | inr f ↦ inr (bs, unfold cd in rw e (rw f refl))
    | inl f ↦
        let (u, g) = without_trailing-bar t in
        subst (Stays prompt) (sym (cd-trimmed s d prompt bs t u e f g))
          (cd_trimmed-Stays s d prompt bs u)
  ]
]

-- A line that begins with a bar is never survived: whatever follows, `run_cmd` reads through the
-- null pointer of the command that is missing, or outside of an array.
pub run_cmd-bar :
    (s : Setting) (d : Directories) (prompt bs : List ℕ) → run_cmd s d prompt (124 ∷ bs) ≡ none
unfolding Stays
run_cmd-bar s d prompt bs = elim (cd-Stays s d prompt bs) [
  | inl e ↦ unfold run_cmd in rw e refl
  | inr (cs, e) ↦ unfold run_cmd in rw e (rw (run_other-bar s cs) refl)
]
