-- ===== src/Scheduler.antt =====
-- The scheduler and its variables: pandos/phase2/scheduler.c, and resetPLT and resetIntervalTimer of
-- phase2/include/processor.h. `schedule` never returns to its caller: it ends in one of the exits.
pub mod Ready
pub mod Wake
use pand_os.Prelude.{ℕ, ◌+◌, ◌*◌, ◌%◌, ◌^◌, ◌==◌, if◌then◌else◌}
use pand_os.Mem.{
  Addr, null, set_sched, set_cpu, halted, waiting, panicked, load_state, Cmd, Proc, pure, done,
  ◌>>=◌, ◌>>◌, gets, modify, exits,
}
use pand_os.Fields.{get_word, get_p_s}
use pand_os.Words.{add32, sub32}
use pand_os.Env.{Env}
use pand_os.Pcb.{mk_empty_proc_q, empty_proc_q, insert_proc_q, remove_proc_q}

-- pandos_const.h and processor.h
abbrev pub timeslice : ℕ
timeslice = 5000

abbrev pub timescale_addr : Addr
timescale_addr = 0x10000024

abbrev pub it_interval : ℕ
it_interval = 100000 + 100

-- (IECON | IMON) & ~TEBITON
abbrev pub wait_status : ℕ
wait_status = 0x00000001 + 0x0000FF00

-- `TRANSLATE_TIME(TIMESLICE)` multiplies by the word at TIMESCALEADDR.
abbrev pub translate_time : ℕ → Cmd ℕ
translate_time t = do scale ← get_word timescale_addr; pure ((t * scale) % 2 ^ 32)

pub reset_plt : Proc
reset_plt = do
  time ← translate_time timeslice
  modify (set_cpu (λ c. record c { local_timer = time }))

unfoldable pub reset_interval_timer : Proc
reset_interval_timer = modify (set_cpu (λ c. record c { interval_timer = it_interval }))

abbrev pub set_status : ℕ → Proc
set_status s = modify (set_cpu (λ c. record c { status_reg = s }))

abbrev pub set_timer : ℕ → Proc
set_timer t = modify (set_cpu (λ c. record c { local_timer = t }))

abbrev pub set_current : Addr → Proc
set_current p = modify (set_sched (λ s. record s { current_active_process = p }))

abbrev pub current_proc : Cmd Addr
current_proc = gets (λ m. m.current_active_process)

abbrev pub get_start_time : Cmd ℕ
get_start_time = gets (λ m. m.start_time)

-- STCK(start_time)
abbrev pub stamp_start_time : Proc
stamp_start_time = modify (λ m. set_sched (λ s. record s { start_time = m.clock }) m)

unfoldable pub get_new_pid : Cmd ℕ
get_new_pid = do
  pid ← gets (λ m. m.pid_counter)
  modify (set_sched (λ s. record s { pid_counter = add32 pid 1 }))
  pure pid

unfoldable pub increment_process_count : Proc
increment_process_count =
    modify (set_sched (λ s. record s { process_count = add32 s.process_count 1 }))

unfoldable pub decrement_process_count : Proc
decrement_process_count =
    modify (set_sched (λ s. record s { process_count = sub32 s.process_count 1 }))

unfoldable pub increment_soft_block_count : Proc
increment_soft_block_count =
    modify (set_sched (λ s. record s { soft_block_count = add32 s.soft_block_count 1 }))

unfoldable pub decrement_soft_block_count : Proc
decrement_soft_block_count =
    modify (set_sched (λ s. record s { soft_block_count = sub32 s.soft_block_count 1 }))

module _ (e : Env) where
  open e use {ready_queue}

  pub get_ready_queue : Addr
  get_ready_queue = ready_queue

  unfoldable pub init_scheduler : Proc
  init_scheduler = do
    modify (
        set_sched (λ s. record s {
          process_count = 0;
          soft_block_count = 0;
          current_active_process = null;
          pid_counter = 1;
        }))
    stamp_start_time
    mk_empty_proc_q e ready_queue

  pub enqueue_ready : Addr → Proc
  enqueue_ready proc = do
    insert_proc_q e ready_queue proc
    current ← current_proc
    if proc == current then set_current null else done

  -- What `schedule` does when no process is ready: halt, wait for an interrupt, or panic.
  pub idle : Proc
  idle = do
    processes ← gets (λ m. m.process_count)
    soft_blocked ← gets (λ m. m.soft_block_count)
    if processes == 0
        then exits halted
        else if soft_blocked == 0
        then exits panicked
        else do set_status wait_status; exits waiting

  pub schedule : Proc
  unfolding idle reset_plt
  schedule = do
    set_current null
    empty ← empty_proc_q e ready_queue
    (if empty then idle else done)
    first ← remove_proc_q e ready_queue
    set_current first
    reset_plt
    stamp_start_time
    s ← get_p_s first
    exits (load_state s)
