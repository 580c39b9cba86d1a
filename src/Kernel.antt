-- ===== src/Kernel.antt =====
-- The state of the JOS kernel that the scheduler and the environment calls work on:
-- sched/inc/env.h, sched/kern/sched.h, and `env_run` of sched/kern/env.c.
pub mod Frame
pub mod Sched
mod Tests
use tps_sistemas_operativos.Prelude.{
  ℕ, ◌+◌, ◌%◌, ◌^◌, Bool, true, false, Option, none, some, if◌then◌else◌, update, leb,
}
use tps_sistemas_operativos.Kernel.Frame.{Trapframe}

-- `NENV`, as `1 << LOG2NENV`
abbrev pub nenv : ℕ
nenv = 1024

-- A 32-bit identifier as its bit pattern; `envid & (NENV - 1)` are its low ten bits.
abbrev pub envx : ℕ → ℕ
envx envid = envid % nenv

-- The sign bit of a 32-bit pattern.
abbrev pub is_negative : ℕ → Bool
is_negative x = leb (2 ^ 31) x

pub data EnvStatus : Type 0 where
  free dying runnable running not_runnable : EnvStatus

abbrev pub is_runnable : EnvStatus → Bool
is_runnable EnvStatus.runnable = true
is_runnable _ = false

abbrev pub is_running : EnvStatus → Bool
is_running EnvStatus.running = true
is_running _ = false

-- `env_link` is the index of the next free environment in `envs`, `env_pgdir` the page of the page
-- directory.
pub record Env : Type 0 where
  pub env_tf : Trapframe
  pub env_id : ℕ
  pub env_parent_id : ℕ
  pub env_link : Option ℕ
  pub env_status : EnvStatus
  pub env_runs : ℕ
  pub env_type : ℕ
  pub env_pgdir : Option ℕ
  pub env_pgfault_upcall : ℕ
  pub env_ipc_recving : Bool
  pub env_ipc_dstva : ℕ
  pub env_ipc_value : ℕ
  pub env_ipc_from : ℕ
  pub env_ipc_perm : ℕ
  pub current_queue : ℕ
  pub executions : ℕ

-- `envs` is an array of `NENV` identifiers, read and written below `NENV` only. The counters are
-- C `int`s that only grow: past 2 ^ 31 - 1 the language leaves `++` undefined.
pub record MlfqQueue : Type 0 where
  pub envs : ℕ → ℕ
  pub last : ℕ
  pub beginning : ℕ

pub record MlfqSched : Type 0 where
  pub q0 : MlfqQueue
  pub q1 : MlfqQueue
  pub q2 : MlfqQueue
  pub q3 : MlfqQueue
  pub total_executions : ℕ

-- The globals `envs`, `curenv` (an index into `envs`), `mlfq_sched` and `sched_runs`.
pub record Kernel : Type 0 where
  pub envs : ℕ → Env
  pub curenv : Option ℕ
  pub sched : MlfqSched
  pub sched_runs : ℕ

abbrev pub status_of : Kernel → ℕ → EnvStatus
status_of k e = (k.envs e).env_status

abbrev pub set_env : Kernel → ℕ → Env → Kernel
set_env k e v = record k { envs = update k.envs e v }

abbrev pub set_status : Kernel → ℕ → EnvStatus → Kernel
set_status k e s = set_env k e (record (k.envs e) { env_status = s })

-- What a call that need not return does: it enters user mode in an environment, halts the
-- processor, stays in the kernel monitor, or returns to its caller.
pub data Outcome : Type 0 where
  running : ℕ → Kernel → Outcome
  halted : Kernel → Outcome
  in_monitor : Kernel → Outcome
  returned : Kernel → Outcome

-- the part of `env_run` that puts the previous environment back
unfoldable pub preempt_curenv : Kernel → Kernel
preempt_curenv k = elim k.curenv [
  | none ↦ k
  | some c ↦ if is_running (status_of k c) then set_status k c EnvStatus.runnable else k
]

-- `env_run`: `env_runs` is a `uint32_t`.
unfoldable pub env_run : ℕ → Kernel → Outcome
unfolding preempt_curenv
env_run e k =
    let k' = preempt_curenv k in
    running e
      (record (set_env k' e (record (k'.envs e) {
        env_status = EnvStatus.running;
        env_runs = ((k'.envs e).env_runs + 1) % 2 ^ 32;
      })) { curenv = some e })
