-- ===== src/Kernel/Sched.antt =====
-- sched/kern/sched.c: the queues of the multi-level feedback scheduler.
pub mod Ring
pub mod RoundRobin
pub mod Service
pub mod Priority
pub mod Choose
pub mod Run
pub mod Pick
pub mod Boost
pub mod Levels
pub mod Destroy
pub mod Yield
use tps_sistemas_operativos.Prelude.{
  ℕ, zero, suc, ◌+◌, ◌-◌, ◌%◌, true, false, Option, none, some, if◌then◌else◌, update, ◌==◌, ◌>>=◌,
}
use tps_sistemas_operativos.Kernel.{nenv, envx, is_negative, MlfqQueue, MlfqSched, Kernel, set_env}

-- Which of the four queues a `struct MLFQ_queue *` points to.
pub data Level : Type 0 where
  q0 q1 q2 q3 : Level

abbrev pub queue : MlfqSched → Level → MlfqQueue
queue s Level.q0 = s.q0
queue s Level.q1 = s.q1
queue s Level.q2 = s.q2
queue s Level.q3 = s.q3

abbrev pub set_queue : MlfqSched → Level → MlfqQueue → MlfqSched
set_queue s Level.q0 q = record s { q0 = q }
set_queue s Level.q1 q = record s { q1 = q }
set_queue s Level.q2 q = record s { q2 = q }
set_queue s Level.q3 q = record s { q3 = q }

-- `get_queue`: `none` is the null pointer for a negative number.
unfoldable pub get_queue : ℕ → Option Level
get_queue n =
    if is_negative n
    then none
    else if n == 0
    then some Level.q0
    else if n == 1
    then some Level.q1
    else if n == 2
    then some Level.q2
    else some Level.q3

-- the write at the end of the ring
unfoldable pub enqueue : MlfqQueue → ℕ → MlfqQueue
enqueue q env_id = record q { envs = update q.envs (q.last % nenv) env_id; last = q.last + 1 }

abbrev pub push_at : Kernel → ℕ → ℕ → Level → Kernel
push_at k env_id n l =
    record (set_env k (envx env_id) (record (k.envs (envx env_id)) { current_queue = n })) {
      sched = set_queue k.sched l (enqueue (queue k.sched l) env_id);
    }

-- `sched_push_env`: `none` is a write through the null pointer.
unfoldable pub sched_push_env : Kernel → ℕ → ℕ → Option Kernel
unfolding get_queue
sched_push_env k env_id n = do l ← get_queue n; some (push_at k env_id n l)

-- `sched_remove_env`
unfoldable pub sched_remove_env : MlfqQueue → ℕ → MlfqQueue
sched_remove_env q position =
    if position == q.beginning
    then record q { beginning = q.beginning + 1 }
    else let first = q.envs (q.beginning % nenv) in
      let target = q.envs position in
      record q {
        envs = update (update q.envs (q.beginning % nenv) target) position first;
        beginning = q.beginning + 1;
      }

-- the loop of `sched_destroy_env` with `n` rounds left, at index `i`
unfoldable pub destroy_loop : ℕ → ℕ → ℕ → MlfqQueue → MlfqQueue
unfolding sched_remove_env
destroy_loop zero i env_id q = q
destroy_loop (suc n) i env_id q = elim (q.envs (i % nenv) == env_id) [
  | true ↦ sched_remove_env q (i % nenv)
  | false ↦ destroy_loop n (i + 1) env_id q
]

-- `sched_destroy_env`
unfoldable pub sched_destroy_env : Kernel → ℕ → Option Kernel
unfolding get_queue destroy_loop
sched_destroy_env k env_id = do
  l ← get_queue (k.envs (envx env_id)).current_queue
  let q = queue k.sched l
  some (record k {
    sched = set_queue k.sched l (destroy_loop (q.last - q.beginning) q.beginning env_id q);
  })

abbrev reset : MlfqQueue → MlfqQueue
reset q = record q { last = 0; beginning = 0 }

-- `clean_queues`
unfoldable pub clean_queues : MlfqSched → MlfqSched
clean_queues s = record s { q1 = reset s.q1; q2 = reset s.q2; q3 = reset s.q3 }

-- the loop of `boost_queue` with `n` rounds left, at index `i`; it never runs on `q0`, so the
-- bounds of its queue stay as they are
unfoldable pub boost_loop : ℕ → ℕ → Level → Kernel → Option Kernel
unfolding sched_push_env
boost_loop zero i l k = some k
boost_loop (suc n) i l k =
    sched_push_env k ((queue k.sched l).envs (i % nenv)) 0 >>= boost_loop n (i + 1) l

-- `boost_queue`
unfoldable pub boost_queue : Level → Kernel → Option Kernel
unfolding boost_loop
boost_queue l k = let q = queue k.sched l in boost_loop (q.last - q.beginning) q.beginning l k

-- `boost_envs`
unfoldable pub boost_envs : Kernel → Option Kernel
unfolding boost_queue clean_queues
boost_envs k = do
  k1 ← boost_queue Level.q1 k
  k2 ← boost_queue Level.q2 k1
  k3 ← boost_queue Level.q3 k2
  some (record k3 { sched = clean_queues k3.sched })
