-- ===== src/Interrupt.antt =====
-- Interrupts: pandos/phase2/interrupt.c. P and V are the kernel's own operations on device semaphores.
pub mod Semaphores
pub mod Bitmap
pub mod Preempt
pub mod Completion
pub mod Clock
use pand_os.Prelude.{
  ℕ, zero, suc, ◌+◌, ◌*◌, ◌/◌, ◌%◌, ◌^◌, Bool, not, ◌&&◌, ltb, leb, ◌==◌, if◌then◌else◌, bit_and,
}
use pand_os.Mem.{
  Addr, null, out_of_fuel, load_state, Cmd, Proc, pure, done, ◌>>=◌, ◌>>◌, gets, exits,
}
use pand_os.Fields.{get_saved, get_state, put_p_s, put_p_s_gpr, get_word, put_word}
use pand_os.Words.{minus_one}
use pand_os.Env.{Env}
use pand_os.Ash.{insert_blocked, remove_blocked, head_blocked}
use pand_os.Scheduler.{
  reset_interval_timer, set_timer, current_proc, increment_soft_block_count,
  decrement_soft_block_count, enqueue_ready, schedule,
}
use pand_os.Devices.{get_dev_sem, get_pseudo_clock_sem}

-- TERMSTATMASK, TERMOPSUCCESS, IOOPSUCCESS and IOOPFAILED; NEVER of pandos_const.h
abbrev pub term_op_success : ℕ
term_op_success = 5

abbrev pub io_op_success : ℕ
io_op_success = 0

abbrev pub io_op_failed : ℕ
io_op_failed = minus_one

abbrev pub never : ℕ
never = 0x7FFFFFFF

-- `while (bitmap > 1 && dev_num < N_DEV_PER_IL)`, on the rounds that the second test leaves
unfoldable pub device_loop : (rounds bitmap dev_num : ℕ) → ℕ
device_loop zero bitmap dev_num = dev_num
device_loop (suc k) bitmap dev_num =
    let rest = device_loop k (bitmap / 2) (dev_num + 1) in if ltb 1 bitmap then rest else dev_num

-- `INT_LINE(line)`
abbrev pub pending : ℕ → ℕ → Bool
pending cause bit = not (bit_and cause bit == 0)

module _ (e : Env) where
  open e use {
    reg_v0, cause_ip, status_te, status_te_bit, n_dev_per_il, dev_per_int, cdev_bitmap_addr,
    ext_il_index, dev_reg_addr, dtp_status, dtp_command, recv_status, recv_command, transm_status,
    transm_command, ready, busy, ack, il_disk, il_flash, il_ethernet, il_printer, il_terminal,
    disk_int, flash_int, netw_int, prnt_int, term_int,
  }

  unfoldable pub get_interrupting_device : ℕ → Cmd ℕ
  unfolding device_loop
  get_interrupting_device line = do
    bitmap ← get_word (cdev_bitmap_addr line)
    pure (device_loop n_dev_per_il bitmap 0)

  unfoldable pub sem_p : Addr → Proc
  sem_p s = do
    value ← get_word s
    if leb value 0
        then (do current ← current_proc; _ ← insert_blocked e s current; increment_soft_block_count)
        else put_word s 0

  unfoldable pub sem_v : Addr → Cmd Addr
  sem_v s = do
    first ← head_blocked e s
    if first == null then (do put_word s 1; pure null) else do
      proc ← remove_blocked e s
      enqueue_ready e proc
      decrement_soft_block_count
      pure proc

  -- What a process that waited for a device is given, and its place in the ready queue.
  unfoldable pub complete_io : (status : ℕ) (success : Bool) (p : Addr) → Proc
  complete_io status success p = if p == null then done else do
    put_p_s_gpr p reg_v0 (if success then io_op_success else io_op_failed)
    values ← get_saved p
    put_word (values + 4 * e.status) status
    enqueue_ready e p

  unfoldable pub manage_devices : ℕ → Proc
  unfolding complete_io
  manage_devices line = do
    dev_num ← get_interrupting_device line
    let base = dev_reg_addr line dev_num
    status ← get_word (base + dtp_status)
    put_word (base + dtp_command) ack
    p ← sem_v (get_dev_sem e (ext_il_index line * dev_per_int + dev_num))
    complete_io status (status == ready) p

  -- one half of a terminal: `which` is 1 for the transmitter and 0 for the receiver
  pub manage_terminal : (dev_num which status_reg command_reg : ℕ) → Proc
  unfolding complete_io
  manage_terminal dev_num which status_reg command_reg = do
    raw ← get_word status_reg
    if leb ready raw && not (raw == busy)
        then (do
          let status = raw % 2 ^ 8
          put_word command_reg ack
          p ← sem_v (get_dev_sem e (ext_il_index il_terminal * dev_per_int + dev_num * 2 + which))
          complete_io status (status == term_op_success) p)
        else done

  pub manage_terminals : Proc
  unfolding manage_terminal
  manage_terminals = do
    dev_num ← get_interrupting_device il_terminal
    let base = dev_reg_addr il_terminal dev_num
    manage_terminal dev_num 1 (base + transm_status) (base + transm_command)
    manage_terminal dev_num 0 (base + recv_status) (base + recv_command)

  -- `while (headBlocked(clock) != NULL)`: each round takes a process off the semaphore's queue
  unfoldable pub clock_loop : ℕ → Proc
  clock_loop zero = λ _. out_of_fuel
  clock_loop (suc k) = do
    first ← head_blocked e (get_pseudo_clock_sem e)
    if first == null then done else do
      proc ← remove_blocked e (get_pseudo_clock_sem e)
      enqueue_ready e proc
      decrement_soft_block_count
      clock_loop k

  unfoldable pub interval_timer_interrupt : Proc
  unfolding clock_loop
  interval_timer_interrupt = do
    reset_interval_timer
    clock_loop 21
    put_word (get_pseudo_clock_sem e) 0

  unfoldable pub local_timer_interrupt : Addr → Proc
  local_timer_interrupt exc_state = do
    status ← gets (λ m. m.status_reg)
    if bit_and status status_te / 2 ^ status_te_bit == 0 then done else do
      set_timer never
      current ← current_proc
      s ← get_state exc_state
      put_p_s current s
      current ← current_proc
      enqueue_ready e current

  -- `if (INT_LINE(line)) handler`: CAUSE is read at each test
  abbrev on_line : ℕ → Proc → Proc
  on_line line handler = do
    cause ← gets (λ m. m.cause_reg)
    if pending cause (cause_ip line) then handler else done

  pub interrupt_handler : Addr → Proc
  unfolding local_timer_interrupt interval_timer_interrupt manage_devices manage_terminals
  interrupt_handler exc_state = do
    on_line 1 (local_timer_interrupt exc_state)
    on_line 2 interval_timer_interrupt
    on_line disk_int (manage_devices il_disk)
    on_line flash_int (manage_devices il_flash)
    on_line netw_int (manage_devices il_ethernet)
    on_line prnt_int (manage_devices il_printer)
    on_line term_int manage_terminals
    current ← current_proc
    (if current == null then schedule e else done)
    s ← get_state exc_state
    exits (load_state s)
