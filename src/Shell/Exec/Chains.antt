-- ===== src/Shell/Exec/Chains.antt =====
-- A pipeline from the line to the processes.
use tps_sistemas_operativos.Prelude.{
  ℕ, zero, suc, ◌≡◌, Bool, true, some, List, [], ◌∷◌, ◌++◌, ◌>>=◌, ◌==◌, if◌then◌else◌, get_elem?,
}
use tps_sistemas_operativos.Shell.Parsing.Words.Pipelines.{tree}
use tps_sistemas_operativos.Shell.Exec.{System, Process, Stream, Ended, launch, exec_cmd}

-- the processes that run the commands, from the left to the right
abbrev pub commands : Ended → List Ended
commands (Ended.pipes l r) = commands l ++ commands r
commands (Ended.runs p argv) = Ended.runs p argv ∷ []
commands Ended.fails = Ended.fails ∷ []
commands Ended.exits = Ended.exits ∷ []
commands Ended.crashes = Ended.crashes ∷ []

-- the process that makes pipe `i` of a pipeline: `i` times the right one
abbrev pub maker : List Bool → ℕ → List Bool
maker path zero = path
maker path (suc i) = maker (path ++ true ∷ []) i

-- Command `i` reads pipe `i - 1`, but the first reads what the whole reads.
abbrev pub reads : List Bool → Stream → ℕ → Stream
reads path whole zero = whole
reads path whole (suc i) = Stream.read_end (maker path i)

-- Command `i` writes to pipe `i`, but the last, number `n`, writes where the whole writes.
abbrev pub writes : List Bool → Stream → ℕ → ℕ → Stream
writes path whole i n = if i == n then whole else Stream.write_end (maker path i)

abbrev pub connected : List Bool → Process → ℕ → ℕ → Process
connected path p i n = record p { stdin = reads path p.stdin i; stdout = writes path p.stdout i n }

-- the commands of the processes that a pipeline becomes
abbrev run_tree : System → List Bool → Process → List (List ℕ) → List (List (List ℕ)) → List Ended
run_tree s path p ws r = commands (exec_cmd s path p (tree (ws ∷ r)))

-- What a line with the commands `cs` becomes when they are connected one to the next.
pub record Piped (s : System) (p : Process) (cs : List (List (List ℕ))) (n : ℕ) (e : Ended)
    : Type 0 where
  pub each :
      (i : ℕ)
      → get_elem? (commands e) i
        ≡ (get_elem? cs i >>= λ ws. some (launch s (connected [] p i n) ws))
  pub apart : (i j : ℕ) → maker [] i ≡ maker [] j → i ≡ j
