-- ===== src/Machine.antt =====
-- sched/kern/env.c: the table of environments together with the memory they use. `none` is a
-- panic, a null pointer that is read, or another access that C leaves undefined.
pub mod Destroy
pub mod Syscall
pub mod Resolve
pub mod EnvList
mod Tests
use Prim.Native.Nat.{bit_or}
use tps_sistemas_operativos.Prelude.{
  ℕ, zero, suc, ◌+◌, ◌-◌, ◌*◌, ◌%◌, ◌^◌, Bool, true, false, not, ◌&&◌, ◌||◌, Option, none, some,
  ltb, ◌==◌, if◌then◌else◌, update, ◌>>=◌,
}
use tps_sistemas_operativos.Kernel.{
  nenv, envx, is_negative, EnvStatus, Env, Kernel, status_of, set_env,
}
use tps_sistemas_operativos.Kernel.Frame.{Trapframe, zero_frame}
use tps_sistemas_operativos.Kernel.Sched.{sched_push_env}
use tps_sistemas_operativos.Memory.{Memory, page2pa, pte_p, pte_u}
use tps_sistemas_operativos.Memory.Pages.{page_alloc, incref}

-- `env_free_list` and `kern_pgdir` beside the globals of the scheduler and of the memory
pub record Machine : Type 0 where
  pub kernel : Kernel
  pub env_free_list : Option ℕ
  pub kern_pgdir : ℕ
  pub memory : Memory

-- the error `-n` as a 32-bit pattern
abbrev pub error : ℕ → ℕ
error n = 2 ^ 32 - n

abbrev pub e_bad_env : ℕ
e_bad_env = 2

abbrev pub e_inval : ℕ
e_inval = 3

abbrev pub e_no_mem : ℕ
e_no_mem = 4

abbrev pub e_no_free_env : ℕ
e_no_free_env = 5

abbrev pub e_ipc_not_recv : ℕ
e_ipc_not_recv = 7

abbrev pub is_free : EnvStatus → Bool
is_free EnvStatus.free = true
is_free _ = false

-- Is this environment `curenv`?
abbrev pub is_current : Kernel → ℕ → Bool
is_current k e = elim k.curenv [ none ↦ false | some c ↦ c == e ]

-- What `envid2env` answers: an error, or success and the pointer that it stores.
pub data Lookup : Type 0 where
  bad_env : Lookup
  store : Option ℕ → Lookup

-- `envid2env`
unfoldable pub envid2env : ℕ → Bool → Kernel → Option Lookup
envid2env envid checkperm k =
    let e = envx envid in
    if envid == 0
    then some (Lookup.store k.curenv)
    else if is_free (status_of k e) || not ((k.envs e).env_id == envid)
    then some Lookup.bad_env
    else if checkperm && not (is_current k e)
    then (k.curenv >>= λ c.
        if (k.envs e).env_parent_id == (k.envs c).env_id
        then some (Lookup.store (some e))
        else some Lookup.bad_env)
    else some (Lookup.store (some e))

-- the loop of `env_init` over the first `n` environments
unfoldable pub init_envs : ℕ → Kernel → Kernel
init_envs zero k = k
init_envs (suc n) k =
    let k' = init_envs n k in
    set_env k' n
      (record (k'.envs n) { env_id = 0; env_status = EnvStatus.free; env_link = some (n + 1) })

-- `env_init`, without the registers of the processor
unfoldable pub env_init : Machine → Machine
env_init m =
    let k = init_envs nenv m.kernel in
    let last = record (k.envs (nenv - 1)) { env_link = none } in
    record m { kernel = set_env k (nenv - 1) last; env_free_list = some 0 }

-- `PDX(UVPT)`
abbrev pub uvpt_index : ℕ
uvpt_index = 957

-- the directory that `env_setup_vm` writes on page `p`
abbrev pub copy_directory : ℕ → ℕ → Memory → Memory
copy_directory kern_pgdir p m = record m {
  words =
      update m.words p
        (update (m.words kern_pgdir) uvpt_index (bit_or (bit_or (page2pa p) pte_p) pte_u));
}

-- `env_setup_vm`: false for `-E_NO_MEM`
unfoldable pub env_setup_vm : ℕ → Machine → Option (Bool × Machine)
env_setup_vm e m = page_alloc true m.memory >>= λ (new, memory'). elim new [
  | none ↦ some (false, record m { memory = memory' })
  | some p ↦ some (
    true,
    record m {
      kernel = set_env m.kernel e (record (m.kernel.envs e) { env_pgdir = some p });
      memory = incref p (copy_directory m.kern_pgdir p memory');
    },
  )
]

-- The next identifier of slot `e`: a generation that leaves the low bits to the index. The sum
-- wraps around in two's complement.
unfoldable pub next_env_id : ℕ → ℕ → ℕ
next_env_id e env_id =
    let sum = (env_id + 4096) % 2 ^ 32 in
    let generation = sum - sum % nenv in
    if is_negative generation || generation == 0 then 4096 + e else generation + e

-- the frame in which a new environment starts
abbrev pub user_frame : Trapframe
user_frame = record zero_frame {
  tf_ds = 0x23;
  tf_es = 0x23;
  tf_ss = 0x23;
  tf_esp = 0xeebfe000;
  tf_cs = 0x1b;
  tf_eflags = 0x200;
}

-- what `env_alloc` writes to the new environment
abbrev pub fresh_env : ℕ → ℕ → Env → Env
fresh_env e parent_id v = record v {
  env_id = next_env_id e v.env_id;
  env_parent_id = parent_id;
  env_type = 0;
  env_status = EnvStatus.runnable;
  env_runs = 0;
  env_tf = user_frame;
  env_pgfault_upcall = 0;
  env_ipc_recving = false;
  executions = 0;
}

-- the queue that `env_alloc` takes from the parent
abbrev pub parent_queue : Kernel → Lookup → ℕ
parent_queue k Lookup.bad_env = 0
parent_queue k (Lookup.store none) = 0
parent_queue k (Lookup.store (some parent)) = (k.envs parent).current_queue

-- What `env_alloc` answers: an error, or the new environment.
pub data Allocated : Type 0 where
  failed : ℕ → Allocated
  new_env : ℕ → Allocated

-- the part of `env_alloc` behind `env_setup_vm`
unfoldable pub env_commit : ℕ → ℕ → Machine → Option Machine
env_commit e parent_id m = do
  let env = m.kernel.envs e
  let new = fresh_env e parent_id env
  let k = set_env m.kernel e new
  found ← envid2env parent_id false k
  k' ← sched_push_env k new.env_id (parent_queue k found)
  some (record m { kernel = k'; env_free_list = env.env_link })

-- `env_alloc` with the head of the list of free environments
unfoldable pub alloc_from : Option ℕ → ℕ → Machine → Option (Allocated × Machine)
alloc_from none parent_id m = some (Allocated.failed e_no_free_env, m)
alloc_from (some e) parent_id m = env_setup_vm e m >>= λ (ok, m'). elim ok [
  | false ↦ some (Allocated.failed e_no_mem, m')
  | true ↦ env_commit e parent_id m' >>= λ m''. some (Allocated.new_env e, m'')
]

-- `env_alloc`
unfoldable pub env_alloc : ℕ → Machine → Option (Allocated × Machine)
env_alloc parent_id m = alloc_from m.env_free_list parent_id m
