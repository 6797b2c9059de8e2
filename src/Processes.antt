-- ===== src/Processes.antt =====
-- The system calls on processes: createProcess, terminateProcess, getProcessID and getChildren of
-- pandos/phase2/syscall.c, with passUpOrDie of phase2/exception.c.
pub mod Naming
use pand_os.Prelude.{ℕ, zero, suc, ◌+◌, ◌*◌, Bool, not, ◌&&◌, ◌||◌, leb, ◌==◌, if◌then◌else◌}
use pand_os.Mem.{
  Addr, null, out_of_fuel, panicked, load_context, Cmd, Proc, pure, done, ◌>>=◌, ◌>>◌, exits,
}
use pand_os.Fields.{
  p_child, p_sib, pcb_of_sib, sup_except_state, sup_except_context, get_next, get_parent,
  get_sem_add, get_support, put_support, get_pid, put_pid, get_state, put_state, put_p_s,
  get_context, put_word,
}
use pand_os.Words.{add32, minus_one, lt_int}
use pand_os.Env.{Env}
use pand_os.Pcb.{
  alloc_pcb, free_pcb, insert_child, remove_child, out_child, empty_child, out_proc_q, list_steps,
}
use pand_os.Ns.{get_namespace_of, add_namespace, ns_pid, ns_type_max, tree_steps}
use pand_os.Ash.{out_blocked}
use pand_os.Scheduler.{
  current_proc, get_new_pid, increment_process_count, decrement_process_count,
  decrement_soft_block_count, enqueue_ready, schedule,
}
use pand_os.Devices.{get_dev_sem, get_pseudo_clock_sem}

-- pandos_const.h
abbrev pub bios_data_page : Addr
bios_data_page = 0x0FFFF000

abbrev pub pg_fault_except : ℕ
pg_fault_except = 0

abbrev pub general_except : ℕ
general_except = 1

-- assert.h: `PANDOS_ASSERT`, without its message
unfoldable pub pandos_assert : Bool → Proc
pandos_assert cond = if not cond then exits panicked else done

module _ (e : Env) where
  open e use {ready_queue}

  -- the loop over the namespace types, where the caller gave no namespace
  unfoldable pub inherit_loop : (rounds i p : ℕ) → Proc
  inherit_loop zero i p = done
  inherit_loop (suc k) i p = do
    current ← current_proc
    ns ← get_namespace_of current i
    _ ← add_namespace e p ns
    inherit_loop k (i + 1) p

  unfoldable pub create_process : (state support nsd : Addr) → Cmd ℕ
  unfolding inherit_loop
  create_process state support nsd = do
    new_p ← alloc_pcb e
    if new_p == null then pure minus_one else do
      pid ← get_new_pid
      put_pid new_p pid
      enqueue_ready e new_p
      increment_process_count
      current ← current_proc
      insert_child e current new_p
      s ← get_state state
      put_p_s new_p s
      put_support new_p support
      given ← add_namespace e new_p nsd
      (if not given then inherit_loop ns_type_max 0 new_p else done)
      get_pid new_p

  -- Is the semaphore one of the devices' or the pseudo clock's?
  pub is_soft_blocked : Addr → Bool
  is_soft_blocked sem_add =
      (leb (get_dev_sem e 0) sem_add && leb sem_add (get_dev_sem e 47))
      || sem_add == get_pseudo_clock_sem e

  -- The part of __terminateProcess behind its loop.
  unfoldable pub release_process : Addr → Proc
  unfolding is_soft_blocked
  release_process p = do
    sem_add ← get_sem_add p
    (if is_soft_blocked sem_add then decrement_soft_block_count else done)
    _ ← out_blocked e p
    free_pcb e p
    decrement_process_count

  -- __terminateProcess: the loop takes the children off one by one; going round it is the second
  -- recursive call.
  unfoldable pub terminate_tree : ℕ → Addr → Proc
  terminate_tree zero p = λ _. out_of_fuel
  terminate_tree (suc k) p = do
    child ← remove_child e p
    if child == null
        then release_process p
        else do _ ← out_proc_q e ready_queue child; terminate_tree k child; terminate_tree k p

  unfoldable pub terminate_process : Addr → Proc
  terminate_process p = do _ ← out_child e p; terminate_tree tree_steps p; schedule e

  -- exception.c
  unfoldable pub pass_up_or_die : ℕ → Proc
  pass_up_or_die exc_code = do
    pandos_assert (exc_code == pg_fault_except || exc_code == general_except)
    proc ← current_proc
    support ← get_support proc
    if support == null then (do terminate_process proc; schedule e) else do
      s ← get_state bios_data_page
      put_state (sup_except_state support exc_code) s
      context ← get_context (sup_except_context support exc_code)
      exits (load_context context)

  pub get_process_id : ℕ → Cmd ℕ
  get_process_id parent =
      if not (parent == 0)
      then (do
        current ← current_proc
        nsd ← get_namespace_of current ns_pid
        prnt ← get_parent current
        other ← get_namespace_of prnt ns_pid
        if nsd == other then get_pid prnt else pure 0)
      else do current ← current_proc; get_pid current

  -- `list_for_each_entry` over the children; `count` is `retVal`
  pub children_loop : ℕ → (children size nsd head child count : ℕ) → Cmd ℕ
  children_loop zero children size nsd head child count = λ _. out_of_fuel
  children_loop (suc k) children size nsd head child count =
      if p_sib child == head then pure count else do
        ns ← get_namespace_of child ns_pid
        count' ←
            (if nsd == ns
              then (do
                (if lt_int count size
                    then (do pid ← get_pid child; put_word (children + 4 * count) pid)
                    else done)
                pure (add32 count 1))
              else pure count)
        following ← get_next (p_sib child)
        children_loop k children size nsd head (pcb_of_sib following) count'

  pub get_children : (children size : ℕ) → Cmd ℕ
  unfolding children_loop
  get_children children size = do
    current ← current_proc
    childless ← empty_child e current
    if childless then pure 0 else do
      nsd ← get_namespace_of current ns_pid
      first ← get_next (p_child current)
      children_loop list_steps children size nsd (p_child current) (pcb_of_sib first) 0
