-- ===== src/Machine/Destroy.antt =====
-- sched/kern/env.c: freeing an environment.
pub mod Flush
pub mod Untable
pub mod Free
use Prim.Native.Nat.{bit_or}
use tps_sistemas_operativos.Prelude.{
  ℕ, zero, suc, ◌+◌, ◌*◌, not, ◌&&◌, Option, none, some, if◌then◌else◌, ◌>>=◌,
}
use tps_sistemas_operativos.Kernel.{EnvStatus, is_running, status_of, set_env, set_status}
use tps_sistemas_operativos.Memory.{Memory, kaddr, pgnum, has_p, pte_u, set_word}
use tps_sistemas_operativos.Memory.Pages.{page_decref}
use tps_sistemas_operativos.Memory.Tables.{page_remove, user_mem_check}
use tps_sistemas_operativos.Machine.{Machine, is_current}

-- the loop of `env_free` over the entries of the table `pt`, with `n` of them left
unfoldable pub flush_table : ℕ → ℕ → ℕ → ℕ → ℕ → Memory → Option Memory
flush_table zero pteno pgdir pdeno pt m = some m
flush_table (suc n) pteno pgdir pdeno pt m = do
  m' ←
      if has_p (m.words pt pteno)
      then page_remove pgdir (pdeno * 4194304 + pteno * 4096) m
      else some m
  flush_table n (pteno + 1) pgdir pdeno pt m'

-- the body of the outer loop of `env_free` for a table that is present
unfoldable pub free_table : ℕ → ℕ → Memory → Option Memory
unfolding flush_table set_word
free_table pgdir pdeno m = do
  pt ← kaddr m (pgnum (m.words pgdir pdeno))
  m' ← flush_table 1024 0 pgdir pdeno pt m
  page_decref pt (set_word m' (record { page = pgdir; index = pdeno }) 0)

-- the outer loop of `env_free`, with `n` entries of the directory left
unfoldable pub free_tables : ℕ → ℕ → ℕ → Memory → Option Memory
unfolding free_table
free_tables zero pdeno pgdir m = some m
free_tables (suc n) pdeno pgdir m = do
  m' ← if has_p (m.words pgdir pdeno) then free_table pgdir pdeno m else some m
  free_tables n (pdeno + 1) pgdir m'

-- `env_free`: there are `PDX(UTOP)` entries of the directory for user pages.
unfoldable pub env_free : ℕ → Machine → Option Machine
env_free e m = do
  pgdir ← (m.kernel.envs e).env_pgdir
  memory1 ← free_tables 955 0 pgdir m.memory
  memory2 ← page_decref pgdir memory1
  let env = record (m.kernel.envs e) {
    env_pgdir = none;
    env_status = EnvStatus.free;
    env_link = m.env_free_list;
  }
  some (record m { kernel = set_env m.kernel e env; env_free_list = some e; memory = memory2 })

-- What a function that may call `sched_yield` does: it returns to its caller, or it calls
-- `sched_yield` and never comes back.
pub data Ended : Type 0 where
  returned : Machine → Ended
  yielding : Machine → Ended

-- `env_destroy`
unfoldable pub env_destroy : ℕ → Machine → Option Ended
unfolding env_free
env_destroy e m =
    if is_running (status_of m.kernel e) && not (is_current m.kernel e)
    then some (Ended.returned (record m { kernel = set_status m.kernel e EnvStatus.dying }))
    else (env_free e m >>= λ m'.
        if is_current m'.kernel e
        then some (Ended.yielding (record m' { kernel = record m'.kernel { curenv = none } }))
        else some (Ended.returned m'))

-- `user_mem_assert`
unfoldable pub user_mem_assert : ℕ → ℕ → ℕ → ℕ → Machine → Option Ended
unfolding env_destroy
user_mem_assert e va len perm m = do
  pgdir ← (m.kernel.envs e).env_pgdir
  ok ← user_mem_check pgdir va len (bit_or perm pte_u) m.memory
  if ok then some (Ended.returned m) else env_destroy e m
