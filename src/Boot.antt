-- ===== src/Boot.antt =====
-- The start of the kernel: pandos/phase2/main.c.
use pand_os.Prelude.{ℕ, ◌+◌, ◌==◌, if◌then◌else◌, upd}
use pand_os.Mem.{Addr, null, panicked, Cmd, Proc, pure, done, ◌>>=◌, ◌>>◌, exits}
use pand_os.Fields.{put_pid, get_p_s, put_p_s, get_word, put_word}
use pand_os.Words.{add32}
use pand_os.Env.{Env}
use pand_os.Pcb.{init_pcbs, alloc_pcb}
use pand_os.Ash.{init_ash}
use pand_os.Ns.{init_namespaces}
use pand_os.Devices.{init_dev_sems}
use pand_os.Scheduler.{
  init_scheduler, reset_interval_timer, enqueue_ready, increment_process_count, get_new_pid,
  schedule,
}

-- pandos_const.h
abbrev pub pass_up_vector : Addr
pass_up_vector = 0x0FFFF900

abbrev pub kernel_stack : ℕ
kernel_stack = 0x20001000

abbrev pub ram_base_addr : Addr
ram_base_addr = 0x10000000

abbrev pub ram_base_size : Addr
ram_base_size = 0x10000004

-- `RAMTOP(T)`: the value that T is given
abbrev pub ram_top : Cmd ℕ
ram_top = do base ← get_word ram_base_addr; size ← get_word ram_base_size; pure (add32 base size)

-- IEPON | IMON | TEBITON
abbrev pub start_status : ℕ
start_status = 0x00000004 + 0x0000FF00 + 0x08000000

module _ (e : Env) where
  open e use {
    utlb_refill_handler, exception_handler, test, tlb_refill_handler, tlb_refill_stack_ptr,
    puv_exception_handler, exception_stack_ptr, reg_t9, reg_sp,
  }

  unfoldable pub init_pass_up_vector : Proc
  init_pass_up_vector = do
    put_word (pass_up_vector + tlb_refill_handler) utlb_refill_handler
    put_word (pass_up_vector + tlb_refill_stack_ptr) kernel_stack
    put_word (pass_up_vector + puv_exception_handler) exception_handler
    put_word (pass_up_vector + exception_stack_ptr) kernel_stack

  -- the first process: its entry point, its stack at the top of the memory, interrupts on
  unfoldable pub create_first : (pc : Addr) → Proc
  create_first pc = do
    proc ← alloc_pcb e
    (if proc == null then exits panicked else done)
    enqueue_ready e proc
    increment_process_count
    pid ← get_new_pid
    put_pid proc pid
    top ← ram_top
    s ← get_p_s proc
    put_p_s proc (record s {
      pc_epc = pc;
      gpr = upd (upd s.gpr reg_t9 pc) reg_sp top;
      status = start_status;
    })

  unfoldable pub init_kernel : (pc : Addr) → Proc
  unfolding init_pass_up_vector create_first
  init_kernel pc = do
    init_pcbs e
    init_ash e
    init_namespaces e
    init_dev_sems e
    init_pass_up_vector
    init_scheduler e
    reset_interval_timer
    create_first pc

  unfoldable pub main : Proc
  unfolding init_kernel
  main = do init_kernel test; schedule e
