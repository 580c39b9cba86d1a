-- ===== src/Machine/Syscall/Dispatch.antt =====
-- sched/kern/syscall.c: the dispatch on the number of the call.
use tps_sistemas_operativos.Prelude.{ℕ, ◌==◌, if◌then◌else◌, Option, none, some}
use tps_sistemas_operativos.Machine.{Machine, error, e_inval}
use tps_sistemas_operativos.Machine.Syscall.{
  Answer, sys_cputs, sys_getenvid, sys_env_destroy, sys_exofork, sys_env_set_status,
  sys_env_set_pgfault_upcall, sys_page_alloc, sys_page_map, sys_page_unmap,
}
use tps_sistemas_operativos.Machine.Syscall.Ipc.{
  sys_ipc_try_send, sys_ipc_recv, sys_env_get_priority, sys_env_set_priority,
}

-- `SYS_cputs` and the numbers that follow it
pub data CallNumber : Type 0 where
  cputs cgetc getenvid env_destroy page_alloc : CallNumber
  page_map page_unmap exofork env_set_status : CallNumber
  env_set_pgfault_upcall yield ipc_try_send ipc_recv : CallNumber
  get_priority set_priority : CallNumber

abbrev pub call_number : ℕ → Option CallNumber
call_number n =
    if n == 0
    then some CallNumber.cputs
    else if n == 1
    then some CallNumber.cgetc
    else if n == 2
    then some CallNumber.getenvid
    else if n == 3
    then some CallNumber.env_destroy
    else if n == 4
    then some CallNumber.page_alloc
    else if n == 5
    then some CallNumber.page_map
    else if n == 6
    then some CallNumber.page_unmap
    else if n == 7
    then some CallNumber.exofork
    else if n == 8
    then some CallNumber.env_set_status
    else if n == 9
    then some CallNumber.env_set_pgfault_upcall
    else if n == 10
    then some CallNumber.yield
    else if n == 11
    then some CallNumber.ipc_try_send
    else if n == 12
    then some CallNumber.ipc_recv
    else if n == 13
    then some CallNumber.get_priority
    else if n == 14
    then some CallNumber.set_priority
    else none

-- `syscall`, where the console answers `c` to `cons_getc`
unfoldable pub dispatch : ℕ → Option CallNumber → ℕ → ℕ → ℕ → ℕ → ℕ → Machine → Option Answer
dispatch c none a1 a2 a3 a4 a5 m = some (Answer.returns (error e_inval) m)
dispatch c (some CallNumber.cputs) a1 a2 a3 a4 a5 m = sys_cputs a1 a2 m
dispatch c (some CallNumber.cgetc) a1 a2 a3 a4 a5 m = some (Answer.returns c m)
dispatch c (some CallNumber.getenvid) a1 a2 a3 a4 a5 m = sys_getenvid m
dispatch c (some CallNumber.env_destroy) a1 a2 a3 a4 a5 m = sys_env_destroy a1 m
dispatch c (some CallNumber.page_alloc) a1 a2 a3 a4 a5 m = sys_page_alloc a1 a2 a3 m
dispatch c (some CallNumber.page_map) a1 a2 a3 a4 a5 m = sys_page_map a1 a2 a3 a4 a5 m
dispatch c (some CallNumber.page_unmap) a1 a2 a3 a4 a5 m = sys_page_unmap a1 a2 m
dispatch c (some CallNumber.exofork) a1 a2 a3 a4 a5 m = sys_exofork m
dispatch c (some CallNumber.env_set_status) a1 a2 a3 a4 a5 m = sys_env_set_status a1 a2 m
dispatch c (some CallNumber.env_set_pgfault_upcall) a1 a2 a3 a4 a5 m =
    sys_env_set_pgfault_upcall a1 a2 m
dispatch c (some CallNumber.yield) a1 a2 a3 a4 a5 m = some (Answer.yields m)
dispatch c (some CallNumber.ipc_try_send) a1 a2 a3 a4 a5 m = sys_ipc_try_send a1 a2 a3 a4 m
dispatch c (some CallNumber.ipc_recv) a1 a2 a3 a4 a5 m = sys_ipc_recv a1 m
dispatch c (some CallNumber.get_priority) a1 a2 a3 a4 a5 m = sys_env_get_priority a1 m
dispatch c (some CallNumber.set_priority) a1 a2 a3 a4 a5 m = sys_env_set_priority a1 a2 m

abbrev pub syscall : ℕ → ℕ → ℕ → ℕ → ℕ → ℕ → ℕ → Machine → Option Answer
syscall c syscallno a1 a2 a3 a4 a5 m = dispatch c (call_number syscallno) a1 a2 a3 a4 a5 m
