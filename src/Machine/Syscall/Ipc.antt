-- ===== src/Machine/Syscall/Ipc.antt =====
-- sched/kern/syscall.c: messages between environments, and their priorities.
pub mod Messages
pub mod Priority
use Prim.Native.Nat.{bit_or}
use tps_sistemas_operativos.Prelude.{
  ℕ, ◌+◌, ◌-◌, ◌%◌, ◌^◌, Bool, true, false, not, ◌&&◌, ◌||◌, Option, none, some, ltb, leb, ◌==◌,
  if◌then◌else◌, ◌>>=◌,
}
use tps_sistemas_operativos.Kernel.{is_negative, EnvStatus, Env, Kernel, set_env}
use tps_sistemas_operativos.Kernel.Frame.{Trapframe}
use tps_sistemas_operativos.Kernel.Sched.{sched_push_env, sched_destroy_env}
use tps_sistemas_operativos.Memory.{pgsize, utop, pte_p, pte_u, has_p, has_w, word_at}
use tps_sistemas_operativos.Memory.Tables.{page_lookup}
use tps_sistemas_operativos.Machine.{
  Machine, Lookup, envid2env, error, e_inval, e_ipc_not_recv, is_current,
}
use tps_sistemas_operativos.Machine.Syscall.{
  Answer, set_kernel, with_env, env_page_alloc, env_page_map, not_user_page,
}

abbrev with_eax : ℕ → Trapframe → Trapframe
with_eax r tf = record tf { tf_regs = record tf.tf_regs { reg_eax = r } }

-- the end of `sys_ipc_try_send`, from `bail` on
unfoldable pub deliver : ℕ → ℕ → Machine → Option Answer
deliver dst value m = do
  c ← m.kernel.curenv
  let env = record (m.kernel.envs dst) {
    env_ipc_from = (m.kernel.envs c).env_id;
    env_ipc_recving = false;
    env_ipc_value = value;
    env_tf = with_eax 0 (m.kernel.envs dst).env_tf;
    env_status = EnvStatus.runnable;
  }
  some (Answer.returns 0 (set_kernel m (set_env m.kernel dst env)))

abbrev pub set_ipc_perm : ℕ → ℕ → Machine → Machine
set_ipc_perm dst perm m =
    set_kernel m (set_env m.kernel dst (record (m.kernel.envs dst) { env_ipc_perm = perm }))

-- the transfer of the page in `sys_ipc_try_send`; `perm` has the bits U and P
unfoldable pub transfer : ℕ → ℕ → ℕ → ℕ → ℕ → Machine → Option Answer
unfolding deliver env_page_alloc env_page_map
transfer src srcva dst perm value m =
    let dstva = (m.kernel.envs dst).env_ipc_dstva in
    if dstva == 0
    then deliver dst value m
    else (env_page_alloc dst dstva perm m >>= λ (r, m1).
        if is_negative r
        then some (Answer.returns r m1)
        else (env_page_map src srcva dst dstva perm m1 >>= λ (r', m2).
            if is_negative r'
            then some (Answer.returns r' m2)
            else deliver dst value (set_ipc_perm dst perm m2)))

-- The part of `sys_ipc_try_send` for a page below `UTOP`. Where the page is not mapped the code
-- reads a pointer that was never set.
unfoldable pub send_page : ℕ → ℕ → ℕ → ℕ → Machine → Option Answer
unfolding transfer
send_page dst value srcva perm m =
    if not (srcva % pgsize == 0) then some (Answer.returns (error e_inval) m) else do
      c ← m.kernel.curenv
      pgdir ← (m.kernel.envs c).env_pgdir
      found ← page_lookup pgdir srcva m.memory
      (_, pte) ← found
      if not (word_at m.memory pte == 0) && not (has_p (word_at m.memory pte))
          then some (Answer.returns (error e_inval) m)
          else if has_w perm && not (has_w (word_at m.memory pte))
          then some (Answer.returns (error e_inval) m)
          else transfer c srcva dst (bit_or (bit_or perm pte_u) pte_p) value m

-- `sys_ipc_try_send`
unfoldable pub sys_ipc_try_send : ℕ → ℕ → ℕ → ℕ → Machine → Option Answer
unfolding with_env send_page deliver
sys_ipc_try_send envid value srcva perm m = with_env envid false m (λ dst.
    if not (m.kernel.envs dst).env_ipc_recving
    then some (Answer.returns (error e_ipc_not_recv) m)
    else if leb utop srcva
    then deliver dst value (set_ipc_perm dst 0 m)
    else send_page dst value srcva perm m)

-- `sys_ipc_recv`
unfoldable pub sys_ipc_recv : ℕ → Machine → Option Answer
sys_ipc_recv dstva m = do
  c ← m.kernel.curenv
  let env = record (m.kernel.envs c) { env_ipc_recving = true }
  if not_user_page dstva
      then some (Answer.returns (error e_inval) (set_kernel m (set_env m.kernel c env)))
      else some (
          Answer.yields (
            set_kernel m (
              set_env m.kernel c
                (record env { env_ipc_dstva = dstva; env_status = EnvStatus.not_runnable }))))

-- `sys_env_get_priority`
unfoldable pub sys_env_get_priority : ℕ → Machine → Option Answer
unfolding with_env
sys_env_get_priority envid m =
    with_env envid false m (λ e. some (Answer.returns (m.kernel.envs e).current_queue m))

-- the move of an environment to another queue
unfoldable pub change_queue : ℕ → ℕ → Kernel → Option Kernel
unfolding sched_destroy_env sched_push_env
change_queue e priority k = do
  k1 ← sched_destroy_env k (k.envs e).env_id
  k2 ← sched_push_env k1 (k1.envs e).env_id priority
  some (set_env k2 e (record (k2.envs e) { current_queue = priority }))

-- `env->current_queue > priority` of C `int`s, for a `priority` that is not negative
abbrev pub is_better : ℕ → ℕ → Bool
is_better priority queue = ltb priority queue && not (is_negative queue)

-- `sys_env_set_priority`
unfoldable pub sys_env_set_priority : ℕ → ℕ → Machine → Option Answer
unfolding envid2env change_queue
sys_env_set_priority envid priority m =
    if is_negative priority || ltb 3 priority
    then some (Answer.returns (error 1) m)
    else (envid2env envid false m.kernel >>= λ found. elim found [
      | Lookup.bad_env ↦ some (Answer.returns (error 1) m)
      | Lookup.store env ↦ do
        e ← env
        c ← m.kernel.curenv
        if not (e == c) && not ((m.kernel.envs e).env_parent_id == (m.kernel.envs c).env_id)
            then some (Answer.returns (error 1) m)
            else if (m.kernel.envs e).current_queue == priority
            then some (Answer.returns priority m)
            else if is_better priority (m.kernel.envs e).current_queue
            then some (Answer.returns (error 1) m)
            else (change_queue e priority m.kernel >>= λ k.
                some (Answer.returns priority (set_kernel m k)))
    ])
