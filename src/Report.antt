-- ===== src/Report.antt =====
-- getBlockedProcesses of pandos/phase1/ash.c: the messages that it prints, in order.
use pand_os.Prelude.{
  ℕ, zero, suc, ◌+◌, ◌/◌, ◌%◌, ◌&&◌, leb, ◌==◌, if◌then◌else◌, List, [], ◌∷◌, ◌++◌,
}
use pand_os.Mem.{Addr, out_of_fuel, Cmd, pure, ◌>>=◌}
use pand_os.Fields.{p_list, pcb_of_list, s_procq, semd_of_link, get_next, get_pid, get_key}
use pand_os.Words.{sub32}
use pand_os.Env.{Env}
use pand_os.Devices.{get_dev_sem}
use pand_os.Pcb.{list_steps}

-- The three format strings with their arguments.
pub data Message : Type 0 where
  device_line : (line device : ℕ) → Message
  waiting_pid : ℕ → Message
  blocked_pid : (pid key : ℕ) → Message

-- `list_for_each_entry(p, &it->s_procq, p_list)`
pub report_queue : (rounds : ℕ) → (ℕ → Message) → (head p : Addr) → Cmd (List Message)
report_queue zero message head p = λ _. out_of_fuel
report_queue (suc k) message head p = if p_list p == head then pure [] else do
  pid ← get_pid p
  following ← get_next (p_list p)
  rest ← report_queue k message head (pcb_of_list following)
  pure (message pid ∷ rest)

module _ (e : Env) where
  -- the body of the loop over the table, for the descriptor of a node
  pub report_semd : Addr → Cmd (List Message)
  unfolding report_queue
  report_semd it = do
    key ← get_key it
    first ← get_next (s_procq it)
    if leb (get_dev_sem e 0) key && leb key (get_dev_sem e 47)
        then (do
          let index = sub32 key (get_dev_sem e 0) / 4
          queue ← report_queue list_steps waiting_pid (s_procq it) (pcb_of_list first)
          pure (device_line (index / 8 + 3) (index % 8) ∷ queue))
        else report_queue list_steps (λ pid. blocked_pid pid key) (s_procq it) (pcb_of_list first)

  pub report_semds : List Addr → Cmd (List Message)
  unfolding report_semd
  report_semds [] = pure []
  report_semds (node ∷ nodes) = do
    one ← report_semd (semd_of_link node)
    rest ← report_semds nodes
    pure (one ++ rest)

  pub get_blocked_processes : Cmd (List Message)
  unfolding report_semds
  get_blocked_processes = do nodes ← e.hash_each; report_semds nodes
