-- ===== src/Kernel/Tests.antt =====
-- The scheduler on a small table of environments.
use tps_sistemas_operativos.Prelude.{
  ℕ, ◌+◌, ◌%◌, ◌≡◌, ◌≢◌, refl, List, [], ◌∷◌, false, Option, none, some, ◌==◌, if◌then◌else◌, arith,
}
use tps_sistemas_operativos.Kernel.{nenv, EnvStatus, Env, MlfqQueue, Kernel, Outcome, running}
use tps_sistemas_operativos.Kernel.Frame.{zero_frame}
use tps_sistemas_operativos.Kernel.Sched.{
  Level, queue, get_queue, enqueue, sched_push_env, sched_remove_env, sched_destroy_env, boost_envs,
}
use tps_sistemas_operativos.Kernel.Sched.Yield.{
  get_best_priority_queue, mlfq_loop, run_demoted, priority_mlfq, boost_when_due,
  sched_yield_priorities,
}
use tps_sistemas_operativos.Kernel.Sched.Ring.{contents, contents-sched_remove_env}
use tps_sistemas_operativos.Kernel.Sched.Destroy.{Removed}
use tps_sistemas_operativos.Kernel.Sched.Levels.{
  Pushed, sched_push_env-Pushed, sched_destroy_env-Removed,
}
use tps_sistemas_operativos.Kernel.Sched.Boost.{HasRoom, AllFirst, boost_envs-AllFirst}
use tps_sistemas_operativos.Kernel.Sched.Priority.{Decides, priority_mlfq-Decides}
use tps_sistemas_operativos.Kernel.Sched.Service.{
  Yielded, sched_yield_priorities-Yielded, sched_yield_priorities-boosts,
}

abbrev blank : Env
blank = record {
  env_id = 0;
  env_parent_id = 0;
  env_link = none;
  env_status = EnvStatus.free;
  env_runs = 0;
  env_tf = zero_frame;
  env_type = 0;
  env_pgdir = none;
  env_pgfault_upcall = 0;
  env_ipc_recving = false;
  env_ipc_dstva = 0;
  env_ipc_value = 0;
  env_ipc_from = 0;
  env_ipc_perm = 0;
  current_queue = 0;
  executions = 0;
}

-- slots 1, 2 and 3, at the levels 0, 1 and 2; the first one waits for a message
abbrev table : ℕ → Env
table i =
    if i == 1
    then record blank { env_id = 4097; env_status = EnvStatus.not_runnable }
    else if i == 2
    then record blank { env_id = 4098; env_status = EnvStatus.runnable; current_queue = 1 }
    else if i == 3
    then record blank { env_id = 4099; env_status = EnvStatus.runnable; current_queue = 1 }
    else blank

abbrev holding : List ℕ → MlfqQueue
holding [] = record { envs = λ i. 0; last = 0; beginning = 0 }
holding (x ∷ []) = record { envs = λ i. if i == 0 then x else 0; last = 1; beginning = 0 }
holding (x ∷ y ∷ _) = record {
  envs = λ i. if i == 1023 then x else if i == 0 then y else 0;
  last = 1025;
  beginning = 1023;
}

abbrev three : Kernel
three = record {
  envs = table;
  curenv = none;
  sched = record {
    q0 = holding (4097 ∷ []);
    q1 = holding (4098 ∷ 4099 ∷ []);
    q2 = holding [];
    q3 = holding [];
    total_executions = 7;
  };
  sched_runs = 0;
}

abbrev due_three : Kernel
due_three = record three { sched = record three.sched { total_executions = 50 } }

-- the entries go round the end of the array
contents_wrap : contents three.sched.q1 ≡ 4098 ∷ 4099 ∷ []
contents_wrap = refl

best_is_q1 : get_best_priority_queue three ≡ some (Level.q1, 1)
unfolding get_best_priority_queue
best_is_q1 = refl

abbrev lands : Option Outcome → Option (ℕ × ℕ)
lands (some (running e k)) = some (e, (k.envs e).current_queue)
lands o = none

-- 4098 runs and goes to level 2; once a boost is due it goes to level 1 only
runs_4098 :
    (lands (sched_yield_priorities three) ≡ some (2, 2))
    × (lands (sched_yield_priorities due_three) ≡ some (2, 1))
unfolding sched_yield_priorities boost_when_due priority_mlfq get_best_priority_queue mlfq_loop
    run_demoted boost_envs enqueue
runs_4098 = (refl, refl)

three-HasRoom : HasRoom three.sched
three-HasRoom = omega arith

contents-sched_remove_env_example :
    contents (sched_remove_env three.sched.q1 ((1023 + 1) % nenv)) ≡ 4098 ∷ []
contents-sched_remove_env_example =
    contents-sched_remove_env three.sched.q1 (omega arith) 1 (omega arith)

sched_push_env-Pushed_example :
    (k' : Kernel) × (sched_push_env three 4099 2 ≡ some k') × Pushed three 4099 2 Level.q2 k'
sched_push_env-Pushed_example =
    sched_push_env-Pushed three 4099 Level.q2 (omega arith) (omega arith)

sched_destroy_env-Removed_example :
    (k' : Kernel) × (sched_destroy_env three 4099 ≡ some k')
    × Removed 4099 (contents three.sched.q1) (contents k'.sched.q1)
    × ((m : Level) → m ≢ Level.q1 → queue k'.sched m ≡ queue three.sched m)
    × (k'.envs ≡ three.envs)
sched_destroy_env-Removed_example =
    sched_destroy_env-Removed three 4099 Level.q1 (unfold get_queue in refl) (omega arith)

boost_envs-AllFirst_example : (k' : Kernel) × (boost_envs three ≡ some k') × AllFirst three k'
boost_envs-AllFirst_example = boost_envs-AllFirst three three-HasRoom

priority_mlfq-Decides_example : Decides three (priority_mlfq three)
priority_mlfq-Decides_example = priority_mlfq-Decides three three-HasRoom

sched_yield_priorities-Yielded_example :
    (o : Outcome) × (sched_yield_priorities three ≡ some o) × Yielded o
sched_yield_priorities-Yielded_example =
    sched_yield_priorities-Yielded three three-HasRoom (omega arith)

sched_yield_priorities-boosts_example :
    (k' : Kernel) × (sched_yield_priorities due_three ≡ some (running 2 k'))
    × (k'.sched.total_executions ≡ 1)
    × HasRoom k'.sched
sched_yield_priorities-boosts_example =
    sched_yield_priorities-boosts due_three 1 (omega arith) (omega arith) refl
