-- ===== src/Machine/Tests.antt =====
-- A small machine: two free environments, a running one in slot 2 and a waiting child in slot 3.
use tps_sistemas_operativos.Prelude.{
  ◌<◌, ℕ, ◌≡◌, refl, true, false, none, some, [], ◌∷◌, ◌==◌, if◌then◌else◌, arith, Bool-cases, inl,
  inr,
}
use tps_sistemas_operativos.Kernel.{nenv, EnvStatus, Env, Kernel, MlfqQueue, set_env}
use tps_sistemas_operativos.Kernel.Frame.{zero_frame}
use tps_sistemas_operativos.Kernel.Sched.{Level, queue}
use tps_sistemas_operativos.Memory.{Memory}
use tps_sistemas_operativos.Machine.{Machine, env_init}
use tps_sistemas_operativos.Memory.Tests.{two_free, two_free-IsSpace, entry-small}
use tps_sistemas_operativos.Machine.Destroy.Flush.{AllPresent}
use tps_sistemas_operativos.Machine.Destroy.Free.{Frees, env_free-Frees}
use tps_sistemas_operativos.Machine.Resolve.{Resolves, envid2env-Resolves}
use tps_sistemas_operativos.Machine.EnvList.{EnvList, slots, env_init-EnvList}
use tps_sistemas_operativos.Memory.Tables.Space.{IsSpace, user_pages}
use tps_sistemas_operativos.Machine.Syscall.Pages.{Gives, sys_page_alloc-Gives}
use tps_sistemas_operativos.Machine.Syscall.{check_perm, Answer, set_kernel}
use tps_sistemas_operativos.Machine.Syscall.Ipc.{
  sys_ipc_recv, sys_ipc_try_send, sys_env_set_priority,
}
use tps_sistemas_operativos.Machine.Syscall.Ipc.Messages.{Received, sys_ipc_recv-sys_ipc_try_send}
use tps_sistemas_operativos.Machine.Syscall.Ipc.Priority.{Moved, sys_env_set_priority-Moved}
use tps_sistemas_operativos.Machine.EnvList.Directory.{HasPage, only, count-none}
use tps_sistemas_operativos.Machine.EnvList.Alloc.{env_alloc-Makes}
use tps_sistemas_operativos.Machine.EnvList.Commit.{HasQueues, Makes}

abbrev blank : Env
blank = record {
  env_tf = zero_frame;
  env_id = 0;
  env_parent_id = 0;
  env_link = none;
  env_status = EnvStatus.free;
  env_runs = 0;
  env_type = 0;
  env_pgdir = none;
  env_pgfault_upcall = 0;
  env_ipc_recving = false;
  env_ipc_dstva = 0;
  env_ipc_value = 0;
  env_ipc_from = 0;
  env_ipc_perm = 0;
  current_queue = 0;
  executions = 0;
}

abbrev parent : Env
parent = record blank {
  env_id = 4098;
  env_status = EnvStatus.running;
  env_pgdir = some 1;
  current_queue = 1;
}

abbrev child : Env
child = record blank {
  env_id = 4099;
  env_parent_id = 4098;
  env_status = EnvStatus.not_runnable;
  env_ipc_recving = true;
  env_pgdir = some 3;
}

abbrev table : ℕ → Env
table i =
    if i == 0
    then record blank { env_link = some 1 }
    else if i == 1
    then blank
    else if i == 2
    then parent
    else if i == 3
    then child
    else blank

abbrev empty_queue : MlfqQueue
empty_queue = record { envs = λ i. 0; last = 0; beginning = 0 }

abbrev pages : Memory
pages = record {
  npages = 8;
  pp_ref = λ p. if p == 1 then 1 else if p == 3 then 1 else 0;
  pp_link = λ p. if p == 4 then some 5 else none;
  page_free_list = some 4;
  words = λ p i. 0;
}

abbrev small : Machine
small = record {
  kernel = record {
    envs = table;
    curenv = some 2;
    sched = record {
      q0 = empty_queue;
      q1 = empty_queue;
      q2 = empty_queue;
      q3 = empty_queue;
      total_executions = 0;
    };
    sched_runs = 0;
  };
  env_free_list = some 0;
  kern_pgdir = 7;
  memory = pages;
}

small-EnvList : (memory : Memory) → EnvList (record small { memory = memory }) (0 ∷ 1 ∷ [])
small-EnvList memory = record {
  chain = (refl, (refl, refl));
  distinct = (((λ e. absurd (omega (arith, e))), tt), (tt, tt));
  all_free = (omega arith, refl, (omega arith, refl, tt));
  ids = λ e h. ground arith;
}

small-HasPage : HasPage small 4 (5 ∷ [])
small-HasPage = record {
  free = record {
    chain = (refl, (refl, refl));
    distinct = (((λ e. absurd (omega (arith, e))), tt), (tt, tt));
    all_free = (omega arith, refl, (omega arith, refl, tt));
  };
  small = omega arith;
  bounded = λ q. ground arith;
  unlinked = λ q h. ground arith;
  no_user_tables = λ i h. refl;
  kernel_page = λ e. absurd (omega (arith, e));
}

all_empty : (l : Level) → queue small.kernel.sched l ≡ empty_queue
all_empty Level.q0 = refl
all_empty Level.q1 = refl
all_empty Level.q2 = refl
all_empty Level.q3 = refl

small-HasQueues : HasQueues small.kernel
small-HasQueues = record {
  marked = λ e. elim (Bool-cases (e == 2)) [
    | inl t ↦ (Level.q1, ground arith)
    | inr t ↦ (Level.q0, ground arith)
  ];
  valid = λ l. rw (all_empty l) (omega arith);
  room = λ l. rw (all_empty l) (omega arith);
}

envid2env_example : Resolves small.kernel 2 4099 true
envid2env_example = envid2env-Resolves small.kernel 2 4099 true refl

env_init_example :
    EnvList (env_init small) (slots nenv 0)
    × ((e : ℕ) → e < nenv → ((env_init small).kernel.envs e).env_id ≡ 0)
env_init_example = env_init-EnvList small

env_alloc_example : Makes small 0 (1 ∷ []) 4 (5 ∷ []) 4098
env_alloc_example = env_alloc-Makes (small-EnvList pages) small-HasPage small-HasQueues 4098

-- the child of slot 3 is current and waits; then its parent is current again
abbrev before : Machine
before = record small { kernel = record small.kernel { curenv = some 3 } }

abbrev waiting : Machine
waiting = record before {
  kernel = set_env before.kernel 3 (record child {
    env_ipc_recving = true;
    env_ipc_dstva = 0x1000;
    env_status = EnvStatus.not_runnable;
  });
}

abbrev sending : Machine
sending = record waiting { kernel = record waiting.kernel { curenv = some 2 } }

message_example :
    (k : Kernel) × (sys_ipc_try_send 4099 77 0xeec00000 0 sending
      ≡ some (Answer.returns 0 (set_kernel sending k)))
    × Received sending.kernel 2 3 77 k
message_example =
    sys_ipc_recv-sys_ipc_try_send before waiting sending 3 2 4099 0x1000 77 0xeec00000 0 refl
      (omega arith) refl (unfold sys_ipc_recv in refl) refl refl (λ e. absurd (omega (arith, e)))
      refl (λ e. absurd (omega (arith, e))) refl (omega arith)

priority_example :
    (k : Kernel) × (sys_env_set_priority 4099 2 small
      ≡ some (Answer.returns 2 (set_kernel small k)))
    × Moved small.kernel 3 Level.q0 Level.q2 k
priority_example =
    sys_env_set_priority-Moved small 2 4099 Level.q0 Level.q2 refl (λ e. absurd (omega (arith, e)))
      (λ e. absurd (ground (arith, e))) refl (inr refl) refl (omega arith) (omega arith)
      (omega arith) (omega arith)

-- the directory of the parent is empty
parent-IsSpace : IsSpace pages 1 (4 ∷ 5 ∷ []) (only 1)
parent-IsSpace = record {
  free = small-HasPage.free;
  small = omega arith;
  root = omega arith;
  root_pinned = omega arith;
  table_below = λ i l n. absurd (n refl);
  table_other = λ i l n. absurd (n refl);
  table_pinned = λ i l n. absurd (n refl);
  apart = λ i j li lj ni nj d. absurd (ni refl);
  page_below = λ k l n. absurd (n refl);
  counted = λ p. ground (arith, count-none (λ k. 0) p user_pages (λ k l. refl));
  bounded = λ p. ground arith;
  unlinked = λ p h. ground arith;
}

page_alloc_call_example : Gives small 4098 1 (only 1) 4 0x800000 2
page_alloc_call_example =
    sys_page_alloc-Gives small 2 2 4098 1 4 (5 ∷ []) 0x800000 2 refl
      (inr (
        (λ e. absurd (omega (arith, e))),
        refl,
        ((λ e. absurd (ground (arith, e))), refl, inr (inl refl)),
      ))
      refl parent-IsSpace (omega arith) refl (unfold check_perm in refl) (inr (λ e. ground arith))

-- the parent with a table and a page
two_free-AllPresent : AllPresent two_free 1
two_free-AllPresent = record {
  tables_present = λ i l n. ground arith;
  pages_present = λ j l n. ground (arith, entry-small (4 ∷ 5 ∷ []) j);
}

env_free_example : Frees (record small { memory = two_free }) 2 1 (0 ∷ 1 ∷ []) (4 ∷ 5 ∷ [])
env_free_example =
    env_free-Frees (record small { memory = two_free }) 2 1 (0 ∷ 1 ∷ []) (4 ∷ 5 ∷ [])
      (small-EnvList two_free) (omega arith) (λ e. absurd (ground (arith, e))) refl two_free-IsSpace
      two_free-AllPresent
