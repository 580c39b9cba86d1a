-- ===== src/Kernel/Sched/Yield.antt =====
-- sched/kern/sched.c: the choice of the next environment, under each of the two schedulers that the
-- build selects, and what a processor with nothing to run does.
use tps_sistemas_operativos.Prelude.{
  ℕ, zero, suc, ◌+◌, ◌-◌, ◌%◌, Bool, true, false, ◌||◌, Option, none, some, if◌then◌else◌, leb,
  ◌>>=◌,
}
use tps_sistemas_operativos.Kernel.{
  nenv, envx, EnvStatus, is_runnable, is_running, MlfqQueue, Kernel, status_of, set_env, Outcome,
  halted, in_monitor, returned, env_run,
}
use tps_sistemas_operativos.Kernel.Sched.{
  Level, queue, set_queue, get_queue, sched_push_env, sched_remove_env, boost_envs,
}

abbrev pub max_mlfq_executions : ℕ
max_mlfq_executions = 50

abbrev pub max_queues : ℕ
max_queues = 4

-- `envs[e].executions++`
abbrev pub count_execution : ℕ → Kernel → Kernel
count_execution e k = set_env k e (record (k.envs e) { executions = (k.envs e).executions + 1 })

-- `mlfq_sched.total_executions++`
abbrev pub count_total : Kernel → Kernel
count_total k = record k {
  sched = record k.sched { total_executions = k.sched.total_executions + 1 };
}

-- `curenv && curenv->env_status == ENV_RUNNING`
abbrev pub curenv_running : Kernel → Option ℕ
curenv_running k = elim k.curenv [
  | none ↦ none
  | some c ↦ if is_running (status_of k c) then some c else none
]

-- The loop of `round_robin` with `n` rounds left, and the code after it.
unfoldable pub round_robin_loop : ℕ → ℕ → ℕ → Kernel → Outcome
unfolding env_run
round_robin_loop zero i start_index k = elim (curenv_running k) [
  | none ↦ returned k
  | some c ↦ env_run c (count_execution c k)
]
round_robin_loop (suc n) i start_index k =
    let actual_index = (start_index + i) % nenv in
    elim (is_runnable (status_of k actual_index)) [
      | true ↦ env_run actual_index (count_execution actual_index k)
      | false ↦ round_robin_loop n (i + 1) start_index k
    ]

abbrev pub start_after : Kernel → ℕ
start_after k = elim k.curenv [ none ↦ 0 | some c ↦ envx (k.envs c).env_id + 1 ]

-- `round_robin`
unfoldable pub round_robin : Kernel → Outcome
unfolding round_robin_loop
round_robin k = round_robin_loop nenv 0 (start_after k) k

-- The loop of `has_runnable_envs`; the position that it returns is the argument that it is given,
-- so the test against -1 is a truth value.
unfoldable pub has_runnable_envs : ℕ → ℕ → MlfqQueue → Kernel → Bool
has_runnable_envs zero i q k = false
has_runnable_envs (suc n) i q k = elim (is_runnable (status_of k (envx (q.envs (i % nenv))))) [
  | true ↦ true
  | false ↦ has_runnable_envs n (i + 1) q k
]

abbrev pub has_runnable : Kernel → Level → Bool
has_runnable k l =
    let q = queue k.sched l in has_runnable_envs (q.last - q.beginning) q.beginning q k

-- `get_best_priority_queue` with `n` rounds left: the queue and its number.
unfoldable pub best_queue_loop : ℕ → ℕ → Kernel → Option (Level × ℕ)
unfolding get_queue has_runnable_envs
best_queue_loop zero i k = none
best_queue_loop (suc n) i k = do
  l ← get_queue i
  elim (has_runnable k l) [ true ↦ some (l, i) | false ↦ best_queue_loop n (i + 1) k ]

unfoldable pub get_best_priority_queue : Kernel → Option (Level × ℕ)
unfolding best_queue_loop
get_best_priority_queue k = best_queue_loop max_queues 0 k

unfoldable pub exists_below : ℕ → (ℕ → Bool) → Bool
exists_below zero p = false
exists_below (suc n) p = p n || exists_below n p

-- the statuses for which the processor waits
abbrev pub is_active : EnvStatus → Bool
is_active EnvStatus.dying = true
is_active EnvStatus.runnable = true
is_active EnvStatus.running = true
is_active _ = false

-- `sched_halt`
unfoldable pub sched_halt : Kernel → Outcome
unfolding exists_below
sched_halt k =
    if exists_below nenv (λ i. is_active (status_of k i))
    then halted (record k { curenv = none })
    else in_monitor k

-- the queue into which the environment that is chosen goes down
abbrev pub demoted : ℕ → ℕ
demoted queue_number =
    if leb (max_queues - 1) queue_number then max_queues - 1 else queue_number + 1

-- The body of the loop of `priority_MLFQ` for a runnable environment: it does not return.
unfoldable pub run_demoted : ℕ → Level → ℕ → Kernel → Option Outcome
unfolding sched_remove_env sched_push_env env_run
run_demoted i l queue_number k = do
  let next_env_id = (queue k.sched l).envs (i % nenv)
  let removed = set_queue k.sched l (sched_remove_env (queue k.sched l) (i % nenv))
  k' ← sched_push_env (record k { sched = removed }) next_env_id (demoted queue_number)
  some (env_run (envx next_env_id) (count_execution (envx next_env_id) (count_total k')))

-- The loop of `priority_MLFQ` with `n` rounds left, at index `i`.
unfoldable pub mlfq_loop : ℕ → ℕ → Level → ℕ → Kernel → Option Outcome
mlfq_loop zero i l queue_number k = some (returned k)
mlfq_loop (suc n) i l queue_number k =
    elim (is_runnable (status_of k (envx ((queue k.sched l).envs (i % nenv))))) [
      | true ↦ run_demoted i l queue_number k
      | false ↦ mlfq_loop n (i + 1) l queue_number k
    ]

-- the branch of `priority_MLFQ` where no queue has a runnable environment
unfoldable pub run_current : Kernel → Outcome
run_current k = elim (curenv_running k) [
  | none ↦ sched_halt k
  | some c ↦ env_run c (count_execution c (count_total k))
]

-- `priority_MLFQ`
unfoldable pub priority_mlfq : Kernel → Option Outcome
priority_mlfq k = elim (get_best_priority_queue k) [
  | none ↦ some (run_current k)
  | some (l, n) ↦ let q = queue k.sched l in mlfq_loop (q.last - q.beginning) q.beginning l n k
]

abbrev pub halt_if_returned : Outcome → Outcome
halt_if_returned (returned k) = sched_halt k
halt_if_returned o = o

abbrev pub count_run : Kernel → Kernel
count_run k = record k { sched_runs = k.sched_runs + 1 }

-- `sched_yield` under `SCHED_ROUND_ROBIN`
unfoldable pub sched_yield_round_robin : Kernel → Outcome
unfolding round_robin sched_halt
sched_yield_round_robin k = halt_if_returned (round_robin (count_run k))

-- the boost at the head of `sched_yield`
unfoldable pub boost_when_due : Kernel → Option Kernel
boost_when_due k =
    if leb max_mlfq_executions k.sched.total_executions
    then (do
      k' ← boost_envs k
      some (record k' { sched = record k'.sched { total_executions = 0 } }))
    else some k

-- `sched_yield` under `SCHED_PRIORITIES`
unfoldable pub sched_yield_priorities : Kernel → Option Outcome
sched_yield_priorities k = do
  k' ← boost_when_due (count_run k)
  o ← priority_mlfq k'
  some (halt_if_returned o)
