-- ===== src/Pcb.antt =====
-- Process control blocks: pandos/phase1/pcb.c, with the helpers of phase1/include/util.h and
-- phase1/util.c. Each function follows the C code statement by statement, also where it reads
-- through a pointer before it tests it. A loop over a list runs on fuel: `list_steps` rounds, one
-- more than the nodes that a list of the kernel can have.
pub mod Unlink
pub mod Queues
pub mod Reset
pub mod Alloc
pub mod Tree
pub mod Search
pub mod Start
use pand_os.Prelude.{ℕ, zero, suc, ◌+◌, ◌*◌, Bool, true, false, not, ◌==◌, if◌then◌else◌}
use pand_os.Mem.{Addr, null, out_of_fuel, Cmd, Proc, pure, done, ◌>>=◌, ◌>>◌}
use pand_os.Fields.{
  p_list, pcb_of_list, p_child, p_sib, pcb_of_sib, p_s, sizeof_pcb, get_next, get_prev, put_next,
  put_prev, get_parent, put_parent, put_sem_add, put_support, put_saved, put_time, get_pid,
  get_state, put_state, put_gpr,
}
use pand_os.Env.{Env}

abbrev pub max_proc : ℕ
max_proc = 20

abbrev pub list_steps : ℕ
list_steps = 21

-- util.h: `cmp` is 0 where the items are equal
pub list_cmp : Addr → Addr → Bool
list_cmp a b = not (a == b)

pub list_search_loop : ℕ → (Addr → Addr → Bool) → (item head tmp : Addr) → Cmd Addr
list_search_loop zero cmp item head tmp = λ _. out_of_fuel
list_search_loop (suc k) cmp item head tmp =
    if tmp == head
    then pure null
    else if not (cmp item tmp)
    then pure tmp
    else do following ← get_next tmp; list_search_loop k cmp item head following

pub list_search : (item head : Addr) → (Addr → Addr → Bool) → Cmd Addr
unfolding list_search_loop
list_search item head cmp = do
  first ← get_next head
  list_search_loop list_steps cmp item head first

pub list_contains : (item head : Addr) → Cmd Bool
list_contains item head = do found ← list_search item head list_cmp; pure (not (found == null))

pub list_size_loop : ℕ → (head tmp : Addr) → ℕ → Cmd ℕ
list_size_loop zero head tmp size = λ _. out_of_fuel
list_size_loop (suc k) head tmp size =
    if tmp == head
    then pure size
    else do following ← get_next tmp; list_size_loop k head following (size + 1)

pub list_size : Addr → Cmd ℕ
unfolding list_size_loop
list_size head = do first ← get_next head; list_size_loop list_steps head first 0

pub list_null : Addr → Cmd Bool
list_null head = do
  before ← get_prev head
  if before == null then (do after ← get_next head; pure (after == null)) else pure false

-- pcb.c: the loop is `list_for_each_entry` over the member `p_list`
pub search_loop : ℕ → (pid list p : ℕ) → Cmd Addr
search_loop zero pid list p = λ _. out_of_fuel
search_loop (suc k) pid list p = if p_list p == list then pure null else do
  found ← get_pid p
  if found == pid
      then pure p
      else do following ← get_next (p_list p); search_loop k pid list (pcb_of_list following)

pub search_pcb_by_pid : (pid list : ℕ) → Cmd Addr
unfolding search_loop
search_pcb_by_pid pid list = do
  first ← get_next list
  search_loop list_steps pid list (pcb_of_list first)

-- `for (i = 0; i < STATE_GPR_LEN; i++) p->p_s.gpr[i] = 0;`
pub clear_gpr : ℕ → ℕ → (Addr → Proc)
clear_gpr zero i s = done
clear_gpr (suc k) i s = do put_gpr s i 0; clear_gpr k (i + 1) s

module _ (e : Env) where
  open e use {
    init_list_head, list_add, list_add_tail, list_del, list_empty, pcb_free_h, pcb_free_table,
    state_gpr_len,
  }

  pub get_pcb_table : Addr
  get_pcb_table = pcb_free_table

  pub list_safe_del : Addr → Proc
  list_safe_del node = do
    after ← get_next node
    unlinked ←
        (if after == null then (do before ← get_prev node; pure (before == null)) else pure false)
    if unlinked then done else do list_del node; put_prev node null; put_next node null

  pub reset_pcb : Addr → Cmd Addr
  unfolding clear_gpr
  reset_pcb p = if p == null then pure null else do
    put_next (p_list p) null
    put_prev (p_list p) null
    init_list_head (p_child p)
    put_parent p null
    put_next (p_sib p) null
    put_prev (p_sib p) null
    s ← get_state (p_s p)
    put_state (p_s p) (record s { entry_hi = 0; cause = 0; status = 0; pc_epc = 0; hi = 0; lo = 0 })
    put_support p null
    put_saved p null
    clear_gpr state_gpr_len 0 (p_s p)
    put_time p 0
    put_sem_add p null
    pure p

  pub init_loop : (rounds i : ℕ) → Proc
  init_loop zero i = done
  init_loop (suc k) i = do
    list_add (p_list (pcb_free_table + sizeof_pcb * i)) pcb_free_h
    init_loop k (i + 1)

  pub init_pcbs : Proc
  unfolding init_loop
  init_pcbs = do init_list_head pcb_free_h; init_loop max_proc 0

  unfoldable pub free_pcb : Addr → Proc
  free_pcb p =
      if p == null
      then done
      else do list_safe_del (p_list p); put_sem_add p null; list_add (p_list p) pcb_free_h

  pub alloc_pcb : Cmd Addr
  alloc_pcb = do
    empty ← list_empty pcb_free_h
    if empty then pure null else do
      node ← get_next pcb_free_h
      let first = pcb_of_list node
      list_safe_del node
      reset_pcb first

  unfoldable pub mk_empty_proc_q : Addr → Proc
  mk_empty_proc_q head = do empty ← list_empty head; if empty then done else init_list_head head

  pub empty_proc_q : Addr → Cmd Bool
  empty_proc_q head = if head == null then pure true else list_empty head

  pub insert_proc_q : (head p : Addr) → Proc
  insert_proc_q head p =
      if p == null
      then done
      else if head == null
      then done
      else do list_safe_del (p_list p); list_add_tail (p_list p) head

  pub head_proc_q : Addr → Cmd Addr
  head_proc_q head = do
    empty ← list_empty head
    if empty
        then pure null
        else if head == null
        then pure null
        else do node ← get_next head; pure (pcb_of_list node)

  pub out_proc_q : (head p : Addr) → Cmd Addr
  out_proc_q head p = do
    held ← list_contains (p_list p) head
    if not held
        then pure null
        else if head == null
        then pure null
        else if p == null
        then pure null
        else do list_safe_del (p_list p); pure p

  pub remove_proc_q : Addr → Cmd Addr
  remove_proc_q head = do
    empty ← list_empty head
    if empty
        then pure null
        else if head == null
        then pure null
        else do node ← get_next head; out_proc_q head (pcb_of_list node)

  pub empty_child : Addr → Cmd Bool
  empty_child p = if p == null then pure false else list_empty (p_child p)

  pub insert_child : (prnt p : Addr) → Proc
  insert_child prnt p =
      if prnt == null
      then done
      else if p == null
      then done
      else do put_parent p prnt; list_add_tail (p_sib p) (p_child prnt)

  pub out_child : Addr → Cmd Addr
  out_child p = if p == null then pure null else do
    parent ← get_parent p
    if parent == null then pure null else do
      empty ← list_empty (p_child parent)
      if empty then pure null else do list_del (p_sib p); put_parent p null; pure p

  pub remove_child : Addr → Cmd Addr
  remove_child p = do
    empty ← empty_child p
    if empty
        then pure null
        else if p == null
        then pure null
        else do node ← get_next (p_child p); out_child (pcb_of_sib node)
