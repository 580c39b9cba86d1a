-- ===== src/Machine/EnvList/Commit.antt =====
-- The end of `env_alloc`, and what `env_alloc` leaves.
use tps_sistemas_operativos.Prelude.{
  ℕ, ◌<◌, ◌≡◌, ◌≢◌, refl, sym, ap, subst, false, Option, none, some, List, [], ◌∷◌, ◌++◌,
}
use tps_sistemas_operativos.Kernel.{nenv, envx, EnvStatus, Env, Kernel, status_of, set_env}
use tps_sistemas_operativos.Kernel.Sched.{Level, queue, sched_push_env}
use tps_sistemas_operativos.Kernel.Sched.Ring.{IsValid, contents, size}
use tps_sistemas_operativos.Kernel.Sched.Levels.{number}
use tps_sistemas_operativos.Memory.Pages.FreeList.{Chain}
use tps_sistemas_operativos.Memory.Tables.Space.{IsSpace}
use tps_sistemas_operativos.Machine.{
  Machine, Lookup, Allocated, envid2env, next_env_id, fresh_env, parent_queue, env_commit,
  env_alloc, uvpt_index,
}
use tps_sistemas_operativos.Machine.EnvList.Ids.{Follows}
use tps_sistemas_operativos.Machine.EnvList.Directory.{only}
use tps_sistemas_operativos.Machine.EnvList.{EnvList}

-- Every queue that an environment is marked with is one of the four, which have room.
pub record HasQueues (k : Kernel) : Type 0 where
  pub marked : (e : ℕ) → (l : Level) × ((k.envs e).current_queue ≡ number l)
  pub valid : (l : Level) → IsValid (queue k.sched l)
  pub room : (l : Level) → size (queue k.sched l) < nenv

abbrev pub in_queue : Level → Env → Env
in_queue n v = record v { current_queue = number n }

pub Chain-same :
    (link link' : ℕ → Option ℕ) (first : Option ℕ) (es : List ℕ)
    → ((f : ℕ) → link' f ≡ link f)
    → Chain link first es
    → Chain link' first es
Chain-same link link' first [] s c = c
Chain-same link link' first (e ∷ es) s c =
    (c.0, Chain-same link link' (link' e) es s (subst (λ x. Chain link x es) (sym (s e)) c.1))

pub some_injective : {a b : Lookup} → some a ≡ some b → a ≡ b
some_injective {a} e = ap (λ o. elim o [ none ↦ a | some x ↦ x ]) e

-- `env_commit` when the queue takes the environment
pub env_commit-pushed :
    (m : Machine) (e parent_id : ℕ) (found : Lookup) (k : Kernel)
    → envid2env parent_id false (set_env m.kernel e (fresh_env e parent_id (m.kernel.envs e)))
      ≡ some found
    → sched_push_env
        (set_env m.kernel e (fresh_env e parent_id (m.kernel.envs e)))
        (next_env_id e (m.kernel.envs e).env_id)
        (parent_queue (set_env m.kernel e (fresh_env e parent_id (m.kernel.envs e))) found)
      ≡ some k
    → env_commit e parent_id m
      ≡ some (record m { kernel = k; env_free_list = (m.kernel.envs e).env_link })
env_commit-pushed m e parent_id found k a b = unfold env_commit in rw a (rw b refl)

-- What is left after an environment was made in slot `e` with the page `p` for its directory.
pub record Makes (m : Machine) (e : ℕ) (es : List ℕ) (p : ℕ) (ps : List ℕ) (parent_id : ℕ)
    : Type 0 where
  pub after : Machine
  pub makes : env_alloc parent_id m ≡ some (Allocated.new_env e, after)
  pub list_after : EnvList after es
  pub env_id : Follows e (m.kernel.envs e).env_id (after.kernel.envs e).env_id
  pub fields :
      (status_of after.kernel e ≡ EnvStatus.runnable)
      × ((after.kernel.envs e).env_parent_id ≡ parent_id)
      × ((after.kernel.envs e).env_pgdir ≡ some p)
  pub others : (f : ℕ) → f ≢ e → after.kernel.envs f ≡ m.kernel.envs f
  pub space : IsSpace after.memory p ps (only p)
  pub kernel_part :
      (i : ℕ) → i ≢ uvpt_index → after.memory.words p i ≡ m.memory.words m.kern_pgdir i
  pub other_pages : (q : ℕ) → q ≢ p → after.memory.words q ≡ m.memory.words q
  pub level : Level
  pub queued :
      contents (queue after.kernel.sched level)
      ≡ contents (queue m.kernel.sched level) ++ (after.kernel.envs e).env_id ∷ []
  pub other_queues : (l : Level) → l ≢ level → queue after.kernel.sched l ≡ queue m.kernel.sched l
  pub inherits :
      (f : ℕ)
      → f ≢ e
      → parent_id ≢ 0
      → envx parent_id ≡ f
      → (m.kernel.envs f).env_id ≡ parent_id
      → status_of m.kernel f ≢ EnvStatus.free
      → number level ≡ (m.kernel.envs f).current_queue
