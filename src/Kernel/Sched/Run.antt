-- ===== src/Kernel/Sched/Run.antt =====
-- What `priority_MLFQ` does with the environment that it chooses.
use tps_sistemas_operativos.Prelude.{
  ℕ, suc, ◌+◌, ◌%◌, ◌^◌, ◌<◌, ◌≡◌, ◌≢◌, refl, sym, List, [], ◌∷◌, ◌++◌, true, false, some, ◌==◌,
  arith, if◌then◌else◌, ap, ◌∙◌, get_or, subst, ==-refl,
}
use tps_sistemas_operativos.Kernel.{
  nenv, envx, EnvStatus, MlfqQueue, MlfqSched, Kernel, status_of, set_env, running, env_run,
  preempt_curenv,
}
use tps_sistemas_operativos.Kernel.Sched.{Level, queue, set_queue, sched_push_env, sched_remove_env}
use tps_sistemas_operativos.Kernel.Sched.Yield.{demoted, count_execution, count_total}
use tps_sistemas_operativos.Kernel.Sched.Ring.{
  size, contents, IsValid, swap_out, contents-sched_remove_env, size-sched_remove_env,
  sched_remove_env-IsValid,
}
use tps_sistemas_operativos.Kernel.Sched.Levels.{
  number, Pushed, sched_push_env-Pushed, queue-set_queue, queue-set_queue_ne,
}
use tps_sistemas_operativos.Kernel.Sched.Boost.{HasRoom, queued}

-- the queue below, or the last one
abbrev pub next_level : Level → Level
next_level Level.q0 = Level.q1
next_level Level.q1 = Level.q2
next_level Level.q2 = Level.q3
next_level Level.q3 = Level.q3

pub number-next_level : (l : Level) → demoted (number l) ≡ number (next_level l)
number-next_level Level.q0 = refl
number-next_level Level.q1 = refl
number-next_level Level.q2 = refl
number-next_level Level.q3 = refl

-- The sequences once entry `j` of queue `l` is taken out.
abbrev pub taken_out : MlfqSched → Level → ℕ → Level → List ℕ
taken_out s l j m =
    if number m == number l then swap_out (contents (queue s m)) j else contents (queue s m)

-- The chosen environment is in slot `e` and its identifier was entry `j` of queue `l`.
pub record Scheduled (k : Kernel) (l : Level) (j : ℕ) (e : ℕ) (k' : Kernel) : Type 0 where
  -- the identifier leaves its queue and goes to the end of the next one
  pub queues :
      (m : Level)
      → contents (queue k'.sched m) ≡ (
          if number m == number (next_level l)
          then taken_out k.sched l j m ++ get_or (contents (queue k.sched l)) j 0 ∷ []
          else taken_out k.sched l j m)
  pub slot : e ≡ envx (get_or (contents (queue k.sched l)) j 0)
  pub is_running : status_of k' e ≡ EnvStatus.running
  pub level : (k'.envs e).current_queue ≡ number (next_level l)
  pub executed : (k'.envs e).executions ≡ (k.envs e).executions + 1
  pub total : k'.sched.total_executions ≡ k.sched.total_executions + 1
  pub current : k'.curenv ≡ some e
  -- the environment that ran before can run again, and no other one changes
  pub preempted :
      (c : ℕ)
      → k.curenv ≡ some c
      → c ≢ e
      → status_of k c ≡ EnvStatus.running
      → status_of k' c ≡ EnvStatus.runnable
  pub others : (c : ℕ) → k.curenv ≢ some c → c ≢ e → k'.envs c ≡ k.envs c

pub HasRoom-IsValid : (s : MlfqSched) (l : Level) → HasRoom s → IsValid (queue s l)
HasRoom-IsValid s Level.q0 h = h.valid0
HasRoom-IsValid s Level.q1 h = h.valid1
HasRoom-IsValid s Level.q2 h = h.valid2
HasRoom-IsValid s Level.q3 h = h.valid3

pub Level-discrete : Discrete Level
Level-discrete = hlevel

pub number-eq : (m l : Level) → m ≡ l → (number m == number l) ≡ true
number-eq m l e = rw (ap number e) (==-refl (number l))

pub number-ne : (m l : Level) → m ≢ l → (number m == number l) ≡ false
number-ne m l h = ground arith

-- One queue of the table shrinks by one.
HasRoom-shrink :
    (s : MlfqSched) (l : Level) (q : MlfqQueue)
    → HasRoom s
    → IsValid q
    → suc (size q) ≡ size (queue s l)
    → HasRoom (set_queue s l q) × (suc (queued (set_queue s l q)) ≡ queued s)
HasRoom-shrink s Level.q0 q h v e = omega arith
HasRoom-shrink s Level.q1 q h v e = omega arith
HasRoom-shrink s Level.q2 q h v e = omega arith
HasRoom-shrink s Level.q3 q h v e = omega arith

-- Then every queue has room for one more entry.
room_after :
    (s : MlfqSched) (l m : Level) (q : MlfqQueue)
    → HasRoom s
    → suc (size q) ≡ size (queue s l)
    → size (queue (set_queue s l q) m) < nenv
room_after s l m q h e = ground arith

module _ (k : Kernel) (l : Level) (j : ℕ) (h : HasRoom k.sched)
    (p : j < size (queue k.sched l)) where
  level-IsValid : IsValid (queue k.sched l)
  level-IsValid = HasRoom-IsValid k.sched l h

  abbrev pub rest : MlfqQueue
  rest = sched_remove_env (queue k.sched l) (((queue k.sched l).beginning + j) % nenv)

  abbrev pub without : Kernel
  without = record k { sched = set_queue k.sched l rest }

  pub contents-without : (m : Level) → contents (queue without.sched m) ≡ taken_out k.sched l j m
  contents-without m = elim (Level-discrete m l) [
    | yes e ↦ rw (number-eq m l e) (
        subst (λ m. contents (queue without.sched m) ≡ swap_out (contents (queue k.sched m)) j)
          (sym e)
          (ap contents (queue-set_queue k.sched l rest)
            ∙ contents-sched_remove_env (queue k.sched l) level-IsValid j p))
    | no d ↦ rw (number-ne m l d) (ap contents (queue-set_queue_ne k.sched l m rest d))
  ]

  pub HasRoom-without : HasRoom without.sched × (suc (queued without.sched) ≡ queued k.sched)
  HasRoom-without =
      let q = queue k.sched l in
      HasRoom-shrink k.sched l rest h
        (sched_remove_env-IsValid q level-IsValid ((q.beginning + j) % nenv) (omega arith))
        (size-sched_remove_env q level-IsValid ((q.beginning + j) % nenv) (omega arith))

  abbrev pub id : ℕ
  id = (queue k.sched l).envs (((queue k.sched l).beginning + j) % nenv)

  pub pushed_lem :
      (k' : Kernel) × (sched_push_env without id (demoted (number l)) ≡ some k')
      × Pushed without id (number (next_level l)) (next_level l) k'
  pushed_lem = rw (number-next_level l) (
      sched_push_env-Pushed without id (next_level l)
        (HasRoom-IsValid without.sched (next_level l) HasRoom-without.0)
        (room_after k.sched l (next_level l) rest h (
          size-sched_remove_env (queue k.sched l) level-IsValid
            (((queue k.sched l).beginning + j) % nenv) (omega arith))))

-- The end of the body of the loop.
abbrev pub entered : ℕ → Kernel → Kernel
entered e k' =
    let k1 = preempt_curenv (count_execution e (count_total k')) in
    record (set_env k1 e (record (k1.envs e) {
      env_status = EnvStatus.running;
      env_runs = ((k1.envs e).env_runs + 1) % 2 ^ 32;
    })) { curenv = some e }

pub env_run-entered :
    (e : ℕ) (k' : Kernel)
    → env_run e (count_execution e (count_total k')) ≡ running e (entered e k')
unfolding env_run
env_run-entered e k' = refl

pub sched-entered : (e : ℕ) (k' : Kernel) → (entered e k').sched ≡ (count_total k').sched
unfolding preempt_curenv
sched-entered e k' = ground arith

module _ (e : ℕ) (k : Kernel) where
  pub entered-is_running : status_of (entered e k) e ≡ EnvStatus.running
  unfolding preempt_curenv
  entered-is_running = ground arith

  pub entered-level : ((entered e k).envs e).current_queue ≡ (k.envs e).current_queue
  unfolding preempt_curenv
  entered-level = ground arith

  pub entered-executed : ((entered e k).envs e).executions ≡ (k.envs e).executions + 1
  unfolding preempt_curenv
  entered-executed = ground arith

  pub entered-others : (c : ℕ) → k.curenv ≢ some c → c ≢ e → (entered e k).envs c ≡ k.envs c
  unfolding preempt_curenv
  entered-others c h d = ground arith

  pub entered-preempted :
      (c : ℕ)
      → k.curenv ≡ some c
      → c ≢ e
      → status_of k c ≡ EnvStatus.running
      → status_of (entered e k) c ≡ EnvStatus.runnable
  unfolding preempt_curenv
  entered-preempted c h d r = ground arith
