-- ===== src/Syscall.antt =====
-- System calls: passeren, verhogen and syscallHandler of pandos/phase2/syscall.c. `excState` is the
-- saved state at BIOSDATAPAGE.
pub mod Semaphores
pub mod DoIo
use pand_os.Prelude.{ℕ, ◌+◌, ◌*◌, ◌/◌, ◌%◌, ◌^◌, not, ◌==◌, if◌then◌else◌, bit_and}
use pand_os.Mem.{Addr, null, State, load_state, Cmd, Proc, pure, done, ◌>>=◌, ◌>>◌, gets, exits}
use pand_os.Fields.{
  get_time, get_support, get_state, put_state, put_p_s, put_gpr, get_word, put_word,
}
use pand_os.Words.{add32, sub32}
use pand_os.Env.{Env}
use pand_os.Ash.{insert_blocked, remove_blocked, head_blocked, find_pcb}
use pand_os.Scheduler.{current_proc, enqueue_ready, schedule}
use pand_os.Devices.{get_pseudo_clock_sem}
use pand_os.Interrupt.{sem_p}
use pand_os.Processes.{
  general_except, create_process, terminate_process, pass_up_or_die, get_process_id, get_children,
}
use pand_os.DeviceIo.{do_io}

-- pandos_const.h
abbrev pub word_len : ℕ
word_len = 4

-- CREATEPROCESS to GETCHILDREN
abbrev pub create_process_sys : ℕ
create_process_sys = 1

abbrev pub term_process_sys : ℕ
term_process_sys = 2

abbrev pub passeren_sys : ℕ
passeren_sys = 3

abbrev pub verhogen_sys : ℕ
verhogen_sys = 4

abbrev pub do_io_sys : ℕ
do_io_sys = 5

abbrev pub get_time_sys : ℕ
get_time_sys = 6

abbrev pub clock_wait_sys : ℕ
clock_wait_sys = 7

abbrev pub get_support_ptr_sys : ℕ
get_support_ptr_sys = 8

abbrev pub get_process_id_sys : ℕ
get_process_id_sys = 9

abbrev pub get_children_sys : ℕ
get_children_sys = 10

-- `memcpy(&currentProc()->p_s, excState, sizeof(state_t))`
abbrev pub save_state : Addr → Proc
save_state exc_state = do s ← get_state exc_state; current ← current_proc; put_p_s current s

module _ (e : Env) where
  open e use {
    ready_queue, reg_v0, reg_a0, reg_a1, reg_a2, reg_a3, exc_ri, cause_exccode_bit, status_kup,
    status_kup_bit,
  }

  -- 1 where the operation blocked
  unfoldable pub passeren : Addr → Cmd ℕ
  passeren sem = do
    value ← get_word sem
    if value == 0 then (do current ← current_proc; _ ← insert_blocked e sem current; pure 1) else do
      first ← head_blocked e sem
      if not (first == null)
          then (do p ← remove_blocked e sem; enqueue_ready e p; pure 0)
          else do put_word sem (sub32 value 1); pure 0

  unfoldable pub verhogen : Addr → Cmd ℕ
  verhogen sem = do
    value ← get_word sem
    if value == 1 then (do current ← current_proc; _ ← insert_blocked e sem current; pure 1) else do
      first ← head_blocked e sem
      if not (first == null)
          then (do proc ← remove_blocked e sem; enqueue_ready e proc; pure 0)
          else do put_word sem (add32 value 1); pure 0

  -- `RETURN_SYS_VALUE`
  abbrev pub return_sys_value : (exc_state value : ℕ) → Proc
  return_sys_value exc_state value = put_gpr exc_state reg_v0 value

  -- The cases of the switch, by the number in reg_a0; `s` is `excState` as the call found it.
  unfoldable pub dispatch : (exc_state : Addr) → State → ℕ → Proc
  dispatch exc_state s number =
      let a1 = s.gpr reg_a1 in
      let a2 = s.gpr reg_a2 in
      let a3 = s.gpr reg_a3 in
      if number == create_process_sys
      then (do pid ← create_process e a1 a2 a3; return_sys_value exc_state pid)
      else if number == term_process_sys
      then (do
        p ← (if a1 == 0 then current_proc else find_pcb e a1 ready_queue)
        terminate_process e p)
      else if number == passeren_sys
      then (do
        blocked ← passeren a1
        if blocked == 0 then done else do save_state exc_state; schedule e)
      else if number == verhogen_sys
      then (do
        blocked ← verhogen a1
        if blocked == 0 then done else do save_state exc_state; schedule e)
      else if number == do_io_sys
      then (do do_io e a1 a2; save_state exc_state; schedule e)
      else if number == get_time_sys
      then (do current ← current_proc; t ← get_time current; return_sys_value exc_state t)
      else if number == clock_wait_sys
      then (do sem_p e (get_pseudo_clock_sem e); save_state exc_state; schedule e)
      else if number == get_support_ptr_sys
      then (do
        current ← current_proc
        support ← get_support current
        return_sys_value exc_state support)
      else if number == get_process_id_sys
      then (do pid ← get_process_id e a1; return_sys_value exc_state pid)
      else if number == get_children_sys
      then (do count ← get_children e a1 a2; return_sys_value exc_state count)
      else pass_up_or_die e general_except

  unfoldable pub syscall_handler : Addr → Proc
  unfolding dispatch
  syscall_handler exc_state = do
    s ← get_state exc_state
    put_state exc_state (record s { pc_epc = add32 s.pc_epc word_len })
    status ← gets (λ m. m.status_reg)
    if not (bit_and status status_kup / 2 ^ status_kup_bit == 0)
        then (do
          s ← get_state exc_state
          put_state exc_state (record s { cause = (exc_ri * 2 ^ cause_exccode_bit) % 2 ^ 32 })
          pass_up_or_die e general_except)
        else do
          s ← get_state exc_state
          dispatch exc_state s (s.gpr reg_a0)
          final ← get_state exc_state
          exits (load_state final)
