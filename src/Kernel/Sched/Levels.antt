-- ===== src/Kernel/Sched/Levels.antt =====
-- The four queues of `mlfq_sched` as a table, and the calls that write one of them.
use tps_sistemas_operativos.Prelude.{
  ℕ, ◌<◌, ◌≡◌, ◌≢◌, refl, [], ◌∷◌, ◌++◌, some, ◌==◌, arith, if◌then◌else◌, ap, ◌∙◌,
}
use tps_sistemas_operativos.Kernel.{nenv, envx, MlfqQueue, MlfqSched, Kernel}
use tps_sistemas_operativos.Kernel.Sched.{
  Level, queue, set_queue, get_queue, enqueue, push_at, sched_push_env, sched_destroy_env,
  destroy_loop,
}
use tps_sistemas_operativos.Kernel.Sched.Ring.{
  size, contents, IsValid, contents-enqueue, enqueue-IsValid,
}
use tps_sistemas_operativos.Kernel.Sched.Destroy.{Removed, destroy_loop-Destroyed}

pub queue-set_queue : (s : MlfqSched) (l : Level) (q : MlfqQueue) → queue (set_queue s l q) l ≡ q
queue-set_queue s Level.q0 q = refl
queue-set_queue s Level.q1 q = refl
queue-set_queue s Level.q2 q = refl
queue-set_queue s Level.q3 q = refl

pub queue-set_queue_ne :
    (s : MlfqSched) (l m : Level) (q : MlfqQueue) → m ≢ l → queue (set_queue s l q) m ≡ queue s m
queue-set_queue_ne s l m q h = ground arith

pub total-set_queue :
    (s : MlfqSched) (l : Level) (q : MlfqQueue)
    → (set_queue s l q).total_executions ≡ s.total_executions
total-set_queue s l q = ground arith

-- The number of a queue.
abbrev pub number : Level → ℕ
number Level.q0 = 0
number Level.q1 = 1
number Level.q2 = 2
number Level.q3 = 3

pub get_queue-number : (l : Level) → get_queue (number l) ≡ some l
unfolding get_queue
get_queue-number Level.q0 = refl
get_queue-number Level.q1 = refl
get_queue-number Level.q2 = refl
get_queue-number Level.q3 = refl

-- What `sched_push_env` does to the queue `l`: `env_id` comes last there, the other queues and the
-- counter stay, and the environment is marked with the number of the queue.
pub record Pushed (k : Kernel) (env_id n : ℕ) (l : Level) (k' : Kernel) : Type 0 where
  pub appended : contents (queue k'.sched l) ≡ contents (queue k.sched l) ++ env_id ∷ []
  pub valid : IsValid (queue k'.sched l)
  pub others : (m : Level) → m ≢ l → queue k'.sched m ≡ queue k.sched m
  pub total : k'.sched.total_executions ≡ k.sched.total_executions
  pub marked :
      (e : ℕ)
      → k'.envs e ≡ (if e == envx env_id then record (k.envs e) { current_queue = n } else k.envs e)
  pub current : k'.curenv ≡ k.curenv

pub push_at-Pushed :
    (k : Kernel) (env_id n : ℕ) (l : Level)
    → IsValid (queue k.sched l)
    → size (queue k.sched l) < nenv
    → Pushed k env_id n l (push_at k env_id n l)
push_at-Pushed k env_id n l v room =
    let at_l = queue-set_queue k.sched l (enqueue (queue k.sched l) env_id) in
    record {
      appended = ap contents at_l ∙ contents-enqueue (queue k.sched l) env_id v room;
      valid = rw at_l (enqueue-IsValid (queue k.sched l) env_id v room);
      others = λ m h. queue-set_queue_ne k.sched l m (enqueue (queue k.sched l) env_id) h;
      total = total-set_queue k.sched l (enqueue (queue k.sched l) env_id);
      marked = λ e. ground arith;
      current = refl;
    }

-- With room in the queue of a valid number, `sched_push_env` succeeds, appends the identifier to
-- that queue, leaves the other queues alone and records the number in the environment.
pub sched_push_env-Pushed :
    (k : Kernel) (env_id : ℕ) (l : Level)
    → IsValid (queue k.sched l)
    → size (queue k.sched l) < nenv
    → (k' : Kernel) × (sched_push_env k env_id (number l) ≡ some k')
      × Pushed k env_id (number l) l k'
sched_push_env-Pushed k env_id l v room =
    (push_at k env_id (number l) l, pushed l, push_at-Pushed k env_id (number l) l v room)
  where
    pushed : (m : Level) → sched_push_env k env_id (number m) ≡ some (push_at k env_id (number m) m)
    pushed m = unfold sched_push_env in rw (get_queue-number m)

-- `sched_destroy_env` takes one occurrence of the identifier out of the queue that the environment
-- is marked with, if there is one, keeps everything else of that queue, and touches neither the
-- other queues nor the environments.
pub sched_destroy_env-Removed :
    (k : Kernel) (env_id : ℕ) (l : Level)
    → get_queue (k.envs (envx env_id)).current_queue ≡ some l
    → IsValid (queue k.sched l)
    → (k' : Kernel) × (sched_destroy_env k env_id ≡ some k')
      × Removed env_id (contents (queue k.sched l)) (contents (queue k'.sched l))
      × ((m : Level) → m ≢ l → queue k'.sched m ≡ queue k.sched m)
      × (k'.envs ≡ k.envs)
sched_destroy_env-Removed k env_id l e v =
    let q = queue k.sched l in
    let q' = destroy_loop (size q) q.beginning env_id q in
    (
      record k { sched = set_queue k.sched l q' },
      unfold sched_destroy_env in rw e,
      rw (queue-set_queue k.sched l q') (ground (arith, destroy_loop-Destroyed q v env_id)),
      λ m h. queue-set_queue_ne k.sched l m q' h,
      refl,
    )
