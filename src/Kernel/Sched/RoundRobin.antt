-- ===== src/Kernel/Sched/RoundRobin.antt =====
-- `sched_yield` under `SCHED_ROUND_ROBIN`: the search of `round_robin` goes once round `envs`.
use tps_sistemas_operativos.Prelude.{
  ℕ, ◌+◌, ◌-◌, ◌%◌, ◌≤◌, ◌<◌, ◌≡◌, true, false, Bool, none, some, ◌⊎◌,
}
use tps_sistemas_operativos.Kernel.{
  nenv, is_runnable, Kernel, status_of, Outcome, returned, env_run,
}
use tps_sistemas_operativos.Kernel.Sched.Yield.{start_after, count_execution, curenv_running}

abbrev pub slot_ready : Kernel → ℕ → Bool
slot_ready k e = is_runnable (status_of k e)

-- what `round_robin` does after its loop
abbrev pub keep_current : Kernel → Outcome
keep_current k = elim (curenv_running k) [
  | none ↦ returned k
  | some c ↦ env_run c (count_execution c k)
]

-- The first runnable slot at offsets `i` to `i + n` of `start` runs, or none of them is runnable.
abbrev pub Searched : Kernel → ℕ → ℕ → ℕ → Outcome → Type 0
Searched k start i n o =
    ((j : ℕ) × (i ≤ j)
      × (j < i + n)
      × (slot_ready k ((start + j) % nenv) ≡ true)
      × ((m : ℕ) → i ≤ m → m < j → slot_ready k ((start + m) % nenv) ≡ false)
      × (o ≡ env_run ((start + j) % nenv) (count_execution ((start + j) % nenv) k)))
    ⊎ (((m : ℕ) → i ≤ m → m < i + n → slot_ready k ((start + m) % nenv) ≡ false)
        × (o ≡ keep_current k))

-- One turn round the slots, from the one after the current environment.
abbrev pub Circular : Kernel → Outcome → Type 0
Circular k o =
    ((j : ℕ) × (j < nenv)
      × (slot_ready k ((start_after k + j) % nenv) ≡ true)
      × ((m : ℕ) → m < j → slot_ready k ((start_after k + m) % nenv) ≡ false)
      × (o ≡ env_run ((start_after k + j) % nenv) (count_execution ((start_after k + j) % nenv) k)))
    ⊎ (((e : ℕ) → e < nenv → slot_ready k e ≡ false) × (o ≡ keep_current k))

-- the offset at which the search meets slot `e`
abbrev offset : Kernel → ℕ → ℕ
offset k e = (e + nenv - start_after k % nenv) % nenv
