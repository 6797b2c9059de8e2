-- ===== src/Ash.antt =====
-- The active semaphore hash: pandos/phase1/ash.c. A semaphore is known by its address, and a
-- descriptor is in the hash table while a process is blocked on its semaphore.
pub mod Find
pub mod Block
pub mod Leave
pub mod Wake
pub mod Unhash
pub mod Search
pub mod Keys
use pand_os.Prelude.{
  ℕ, zero, suc, ◌+◌, ◌*◌, Bool, true, false, not, List, [], ◌∷◌, ◌==◌, if◌then◌else◌,
}
use pand_os.Mem.{Addr, null, Cmd, Proc, pure, done, ◌>>=◌, ◌>>◌}
use pand_os.Fields.{
  p_list, pcb_of_list, s_procq, s_link, semd_of_link, s_freelink, semd_of_freelink, sizeof_semd,
  get_next, get_sem_add, put_sem_add, get_key, put_key,
}
use pand_os.Env.{Env}
use pand_os.Pcb.{max_proc, search_pcb_by_pid}

-- `hash_for_each_possible (...) if (sem->s_key == semAdd) { ... return; }` up to the hit: the
-- descriptor of the key among the nodes visited, or NULL.
pub scan_semds : Addr → List Addr → Cmd Addr
scan_semds key [] = pure null
scan_semds key (node ∷ rest) = do
  k ← get_key (semd_of_link node)
  if k == key then pure (semd_of_link node) else scan_semds key rest

-- the loop of findPcb over the nodes of the table
pub scan_queues : ℕ → List Addr → Cmd Addr
scan_queues pid [] = pure null
scan_queues pid (node ∷ rest) = do
  p ← search_pcb_by_pid pid (s_procq (semd_of_link node))
  if not (p == null) then pure p else scan_queues pid rest

module _ (e : Env) where
  open e use {
    init_list_head, list_add, list_add_tail, list_del, list_empty, hash_init, hash_add, hash_del,
    hash_possible, hash_each, semd_free_h, semd_free_table,
  }

  pub find_semd : Addr → Cmd Addr
  find_semd key = do ns ← hash_possible key; scan_semds key ns

  -- the last step of removeBlocked and of outBlocked
  pub release_if_empty : Addr → Proc
  release_if_empty sem = do
    empty ← list_empty (s_procq sem)
    if empty then (do hash_del (s_link sem); list_add (s_freelink sem) semd_free_h) else done

  -- 0 (FALSE) on success, and a code for each reason to refuse
  pub insert_blocked : (sem_add p : Addr) → Cmd ℕ
  insert_blocked sem_add p = if sem_add == null then pure 1 else if p == null then pure 1 else do
    blocked_on ← get_sem_add p
    if not (blocked_on == null) then pure 2 else do
      sem ← find_semd sem_add
      if not (sem == null)
          then (do list_add_tail (p_list p) (s_procq sem); put_sem_add p sem_add; pure 0)
          else do
            none_free ← list_empty semd_free_h
            if none_free then pure 3 else do
              node ← get_next semd_free_h
              let sem' = semd_of_freelink node
              list_del (s_freelink sem')
              put_key sem' sem_add
              init_list_head (s_procq sem')
              list_add_tail (p_list p) (s_procq sem')
              put_sem_add p sem_add
              hash_add (s_link sem') sem_add
              pure 0

  pub remove_blocked : Addr → Cmd Addr
  remove_blocked sem_add = if sem_add == null then pure null else do
    sem ← find_semd sem_add
    if sem == null then pure null else do
      none_blocked ← list_empty (s_procq sem)
      if none_blocked then pure null else do
        node ← get_next (s_procq sem)
        let p = pcb_of_list node
        list_del (p_list p)
        put_sem_add p null
        release_if_empty sem
        pure p

  pub out_blocked : Addr → Cmd Addr
  out_blocked p = if p == null then pure null else do
    sem_add ← get_sem_add p
    if sem_add == null then pure null else do
      sem ← find_semd sem_add
      if sem == null
          then pure null
          else do list_del (p_list p); put_sem_add p null; release_if_empty sem; pure p

  pub head_blocked : Addr → Cmd Addr
  head_blocked sem_add = if sem_add == null then pure null else do
    sem ← find_semd sem_add
    if sem == null then pure null else do
      none_blocked ← list_empty (s_procq sem)
      if none_blocked then pure null else do node ← get_next (s_procq sem); pure (pcb_of_list node)

  unfoldable pub init_semd_loop : (rounds i : ℕ) → Proc
  init_semd_loop zero i = done
  init_semd_loop (suc k) i = do
    list_add (s_freelink (semd_free_table + sizeof_semd * i)) semd_free_h
    init_semd_loop k (i + 1)

  unfoldable pub init_ash : Proc
  unfolding init_semd_loop
  init_ash = do init_list_head semd_free_h; hash_init; init_semd_loop max_proc 0

  pub find_pcb : (pid list : ℕ) → Cmd Addr
  unfolding scan_queues
  find_pcb pid list = do
    p ← search_pcb_by_pid pid list
    if p == null then (do ns ← hash_each; scan_queues pid ns) else pure p
