-- ===== src/Exception.antt =====
-- The entry point of every exception: pandos/phase2/exception.c. passUpOrDie stands in Processes.
use pand_os.Prelude.{◌==◌, ◌||◌, if◌then◌else◌}
use pand_os.Mem.{null, load_state, Proc, done, ◌>>=◌, ◌>>◌, gets, exits}
use pand_os.Fields.{get_time, put_time, get_state}
use pand_os.Words.{add32, sub32}
use pand_os.Env.{Env}
use pand_os.Scheduler.{current_proc, get_start_time}
use pand_os.Interrupt.{interrupt_handler}
use pand_os.Processes.{bios_data_page, pg_fault_except, general_except, pass_up_or_die}
use pand_os.Syscall.{syscall_handler}

-- `p_time += excTime - getStartTime()` of the current process, if there is one
unfoldable pub charge_time : Proc
charge_time = do
  current ← current_proc
  if current == null then done else do
    now ← gets (λ m. m.clock)
    t ← get_time current
    start ← get_start_time
    put_time current (add32 t (sub32 now start))

module _ (e : Env) where
  open e use {cause_get_exccode, exc_int, exc_mod, exc_tlbl, exc_tlbs, exc_sys}

  unfoldable pub exception_handler : Proc
  unfolding charge_time
  exception_handler = do
    s ← get_state bios_data_page
    let code = cause_get_exccode s.cause
    charge_time
    (if code == exc_int
        then interrupt_handler e bios_data_page
        else if code == exc_mod || code == exc_tlbl || code == exc_tlbs
        then pass_up_or_die e pg_fault_except
        else if code == exc_sys
        then syscall_handler e bios_data_page
        else pass_up_or_die e general_except)
    final ← get_state bios_data_page
    exits (load_state final)
