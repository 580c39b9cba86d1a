-- ===== src/Kernel/Frame.antt =====
-- sched/inc/trap.h: the registers that are saved at a trap.
use tps_sistemas_operativos.Prelude.{ℕ}

pub record PushRegs : Type 0 where
  pub reg_edi : ℕ
  pub reg_esi : ℕ
  pub reg_ebp : ℕ
  pub reg_oesp : ℕ
  pub reg_ebx : ℕ
  pub reg_edx : ℕ
  pub reg_ecx : ℕ
  pub reg_eax : ℕ

-- `struct Trapframe` without its padding
pub record Trapframe : Type 0 where
  pub tf_regs : PushRegs
  pub tf_es : ℕ
  pub tf_ds : ℕ
  pub tf_trapno : ℕ
  pub tf_err : ℕ
  pub tf_eip : ℕ
  pub tf_cs : ℕ
  pub tf_eflags : ℕ
  pub tf_esp : ℕ
  pub tf_ss : ℕ

-- all bytes zero
abbrev pub zero_regs : PushRegs
zero_regs = record {
  reg_edi = 0;
  reg_esi = 0;
  reg_ebp = 0;
  reg_oesp = 0;
  reg_ebx = 0;
  reg_edx = 0;
  reg_ecx = 0;
  reg_eax = 0;
}

abbrev pub zero_frame : Trapframe
zero_frame = record {
  tf_regs = zero_regs;
  tf_es = 0;
  tf_ds = 0;
  tf_trapno = 0;
  tf_err = 0;
  tf_eip = 0;
  tf_cs = 0;
  tf_eflags = 0;
  tf_esp = 0;
  tf_ss = 0;
}
