-- ===== src/Machine/Syscall.antt =====
-- sched/kern/syscall.c: the system calls. Arguments and results are 32-bit patterns.
pub mod Ipc
pub mod Pages
pub mod Dispatch
use Prim.Native.Nat.{bit_or}
use tps_sistemas_operativos.Prelude.{
  ℕ, ◌+◌, ◌-◌, ◌*◌, ◌/◌, ◌%◌, ◌^◌, Bool, true, false, not, ◌&&◌, ◌||◌, Option, none, some, ltb, leb,
  ◌==◌, if◌then◌else◌, ◌>>=◌,
}
use tps_sistemas_operativos.Kernel.{is_negative, EnvStatus, Env, Kernel, set_env, set_status}
use tps_sistemas_operativos.Kernel.Frame.{Trapframe}
use tps_sistemas_operativos.Kernel.Sched.{sched_push_env, sched_destroy_env}
use tps_sistemas_operativos.Memory.{
  Memory, pgsize, utop, pte_p, pte_u, has_p, has_w, has_u, word_at,
}
use tps_sistemas_operativos.Memory.Pages.{page_alloc}
use tps_sistemas_operativos.Memory.Tables.{page_lookup, page_insert, page_remove}
use tps_sistemas_operativos.Machine.{
  Machine, Lookup, Allocated, envid2env, env_alloc, error, e_bad_env, e_inval, e_no_mem,
  e_ipc_not_recv, is_current,
}
use tps_sistemas_operativos.Machine.Destroy.{Ended, env_destroy, user_mem_assert}

-- What a system call does: it returns a value, or it calls `sched_yield` and does not return here.
pub data Answer : Type 0 where
  returns : ℕ → Machine → Answer
  yields : Machine → Answer

abbrev pub set_kernel : Machine → Kernel → Machine
set_kernel m k = record m { kernel = k }

abbrev pub set_memory : Machine → Memory → Machine
set_memory m memory = record m { memory = memory }

-- `if ((r = envid2env(...))) return r;`, after which the code uses the environment
unfoldable pub with_env : ℕ → Bool → Machine → (ℕ → Option Answer) → Option Answer
unfolding envid2env
with_env envid checkperm m f = envid2env envid checkperm m.kernel >>= λ found. elim found [
  | Lookup.bad_env ↦ some (Answer.returns (error e_bad_env) m)
  | Lookup.store e ↦ e >>= f
]

-- `perm & ~PTE_SYSCALL`
abbrev pub has_other_bits : ℕ → Bool
has_other_bits perm = not (perm / 8 % 64 == 0 && perm / 4096 == 0)

-- `check_perm`, with `*pte` where `pte` is not null
unfoldable pub check_perm : ℕ → Option ℕ → ℕ
check_perm perm pte =
    if has_other_bits perm
    then error e_inval
    else if not (has_p perm) || not (has_u perm)
    then error e_inval
    else elim pte [
      | none ↦ 0
      | some word ↦
          if not (word == 0) && not (has_p word)
          then error e_inval
          else if has_w perm && not (has_w word)
          then error e_inval
          else 0
    ]

-- the result of `page_insert`
abbrev pub inserted_result : Bool → ℕ
inserted_result ok = if ok then 0 else error e_no_mem

-- `page_insert` in the address space of an environment
unfoldable pub insert_page : ℕ → ℕ → ℕ → ℕ → Machine → Option (ℕ × Machine)
insert_page e page va perm m = do
  pgdir ← (m.kernel.envs e).env_pgdir
  (ok, memory') ← page_insert pgdir page va perm m.memory
  some (inserted_result ok, set_memory m memory')

-- `env_page_alloc`
unfoldable pub env_page_alloc : ℕ → ℕ → ℕ → Machine → Option (ℕ × Machine)
unfolding check_perm insert_page
env_page_alloc e va perm m =
    if is_negative (check_perm perm none)
    then some (check_perm perm none, m)
    else (page_alloc true m.memory >>= λ (new, memory'). elim new [
      | none ↦ some (error e_no_mem, set_memory m memory')
      | some p ↦ insert_page e p va perm (set_memory m memory')
    ])

-- `env_page_map`
unfoldable pub env_page_map : ℕ → ℕ → ℕ → ℕ → ℕ → Machine → Option (ℕ × Machine)
unfolding insert_page
env_page_map src srcva dst dstva perm m = do
  pgdir ← (m.kernel.envs src).env_pgdir
  found ← page_lookup pgdir srcva m.memory
  elim found [
    | none ↦ some (error e_inval, m)
    | some (page, pte) ↦
        if has_w perm && not (has_w (word_at m.memory pte))
        then some (error e_inval, m)
        else insert_page dst page dstva perm m
  ]

abbrev pub answered : ℕ × Machine → Answer
answered (r, m) = Answer.returns r m

-- what follows `user_mem_assert` when it returns
abbrev pub asserted : Option Ended → (Machine → Option Answer) → Option Answer
asserted ended f =
    ended >>= λ how. elim how [ Ended.yielding m ↦ some (Answer.yields m) | Ended.returned m ↦ f m ]

-- `sys_cputs`, without the printing
unfoldable pub sys_cputs : ℕ → ℕ → Machine → Option Answer
sys_cputs s len m = do
  c ← m.kernel.curenv
  asserted (user_mem_assert c s len 7 m) (λ m'. some (Answer.returns 0 m'))

-- `sys_getenvid`
unfoldable pub sys_getenvid : Machine → Option Answer
sys_getenvid m = do c ← m.kernel.curenv; some (Answer.returns (m.kernel.envs c).env_id m)

-- `sys_env_destroy`
unfoldable pub sys_env_destroy : ℕ → Machine → Option Answer
unfolding with_env
sys_env_destroy envid m =
    with_env envid true m (λ e. asserted (env_destroy e m) (λ m'. some (Answer.returns 0 m')))

-- `sys_exofork`
unfoldable pub sys_exofork : Machine → Option Answer
sys_exofork m = do
  c ← m.kernel.curenv
  (new, m') ← env_alloc (m.kernel.envs c).env_id m
  elim new [
    | Allocated.failed n ↦ some (Answer.returns (error n) m')
    | Allocated.new_env e ↦
        let tf = (m'.kernel.envs c).env_tf in
        let env = record (m'.kernel.envs e) {
          env_status = EnvStatus.not_runnable;
          env_tf = record tf { tf_regs = record tf.tf_regs { reg_eax = 0 } };
        } in
        some (Answer.returns env.env_id (set_kernel m' (set_env m'.kernel e env)))
  ]

-- `ENV_RUNNABLE` and `ENV_NOT_RUNNABLE` by their numbers
abbrev pub settable_status : ℕ → Option EnvStatus
settable_status n =
    if n == 2 then some EnvStatus.runnable else if n == 4 then some EnvStatus.not_runnable else none

-- `sys_env_set_status`
unfoldable pub sys_env_set_status : ℕ → ℕ → Machine → Option Answer
unfolding with_env
sys_env_set_status envid status m = elim (settable_status status) [
  | none ↦ some (Answer.returns (error e_inval) m)
  | some s ↦
      with_env envid true m (λ e. some (Answer.returns 0 (set_kernel m (set_status m.kernel e s))))
]

-- `sys_env_set_pgfault_upcall`
unfoldable pub sys_env_set_pgfault_upcall : ℕ → ℕ → Machine → Option Answer
unfolding with_env
sys_env_set_pgfault_upcall envid func m = with_env envid true m (λ e.
    asserted (user_mem_assert e func pgsize 5 m) (λ m'.
      let env = record (m'.kernel.envs e) { env_pgfault_upcall = func } in
      some (Answer.returns 0 (set_kernel m' (set_env m'.kernel e env)))))

-- Is this no address of a user page?
abbrev pub not_user_page : ℕ → Bool
not_user_page va = leb utop va || not (va % pgsize == 0)

-- `sys_page_alloc`
unfoldable pub sys_page_alloc : ℕ → ℕ → ℕ → Machine → Option Answer
unfolding with_env env_page_alloc
sys_page_alloc envid va perm m =
    if not_user_page va
    then some (Answer.returns (error e_inval) m)
    else with_env envid true m
        (λ e. env_page_alloc e va (bit_or (bit_or perm pte_u) pte_p) m >>= λ r. some (answered r))

-- `sys_page_map`
unfoldable pub sys_page_map : ℕ → ℕ → ℕ → ℕ → ℕ → Machine → Option Answer
unfolding with_env env_page_map
sys_page_map srcenvid srcva dstenvid dstva perm m =
    if not_user_page srcva
    then some (Answer.returns (error e_inval) m)
    else if not_user_page dstva
    then some (Answer.returns (error e_inval) m)
    else with_env srcenvid true m (λ src. with_env dstenvid true m (λ dst.
      env_page_map src srcva dst dstva (bit_or (bit_or pte_p pte_u) perm) m >>= λ r.
      some (answered r)))

-- `sys_page_unmap`
unfoldable pub sys_page_unmap : ℕ → ℕ → Machine → Option Answer
unfolding with_env
sys_page_unmap envid va m =
    if not_user_page va
    then some (Answer.returns (error e_inval) m)
    else with_env envid true m (λ e. do
      pgdir ← (m.kernel.envs e).env_pgdir
      memory' ← page_remove pgdir va m.memory
      some (Answer.returns 0 (set_memory m memory')))
