-- ===== src/Programs/Namespaces.antt =====
-- The namespace test of pandos/phase2/p2test_04.c: ns_p_parent_ns, ns_p_new_ns and p11.

use pand_os.Prelude.{ℕ, zero, suc, ◌+◌, ◌*◌, not, List, ◌==◌, if◌then◌else◌, upd}
use pand_os.Mem.{Addr, null}
use pand_os.Ns.{ns_pid}
use pand_os.Syscall.{
  create_process_sys, term_process_sys, passeren_sys, verhogen_sys, get_process_id_sys,
  get_children_sys,
}
use pand_os.Programs.{
  Variables, Program, returned, alloc_namespace, Process, pure, ◌>>=◌, ◌>>◌, done, sys, load_word,
  store_word, codes, ns_max_children, print, give_up,
}

module _ (x : Variables) where
  -- `sem_ns` and `sem_child_ns`, by the process that runs
  pub choose_sems :
      (pid pid_a sem_a child_a pid_b sem_b child_b : ℕ) → List ℕ → Program (Addr × Addr)
  choose_sems pid pid_a sem_a child_a pid_b sem_b child_b wrong = do
    a ← load_word pid_a
    if pid == a
        then pure (sem_a, child_a)
        else do b ← load_word pid_b; if pid == b then pure (sem_b, child_b) else give_up x wrong

  unfoldable pub ns_p_parent_ns : Process
  ns_p_parent_ns = do
    ppid ← sys get_process_id_sys 1 0 0
    print x (codes "ns pid in parent namespace\n")
    pid ← sys get_process_id_sys 0 0 0
    (if ppid == 0 then give_up x (codes "Inconsistent (parent) namespace management\n") else done)
    sems ←
        choose_sems pid x.ns1_a_pid x.sem_r_ns1_a x.sem_l_ns1_a x.ns1_b_pid x.sem_r_ns1_b
          x.sem_l_ns1_b (codes "ns1 wrong semaphore selected\n")
    print x (codes "Locking parent ns\n")
    _ ← sys passeren_sys sems.1 0 0
    print x (codes "Unlocked parent ns\n")
    _ ← sys verhogen_sys sems.0 0 0
    _ ← sys term_process_sys 0 0 0
    give_up x (codes "Error: n_p_parent_ns didn't die!\n")

  unfoldable pub ns_p_new_ns : Process
  ns_p_new_ns = do
    ppid ← sys get_process_id_sys 1 0 0
    print x (codes "ns pid not in parent namespace\n")
    pid ← sys get_process_id_sys 0 0 0
    (if not (ppid == 0)
        then give_up x (codes "Inconsistent (parent) namespace management\n")
        else done)
    sems ←
        choose_sems pid x.ns2_a_pid x.sem_r_ns2_a x.sem_l_ns2_a x.ns2_b_pid x.sem_r_ns2_b
          x.sem_l_ns2_b (codes "ns2 wrong semaphore selected\n")
    print x (codes "Locking child ns\n")
    _ ← sys passeren_sys sems.1 0 0
    print x (codes "Unlocked child ns\n")
    _ ← sys verhogen_sys sems.0 0 0
    _ ← sys term_process_sys 0 0 0
    give_up x (codes "Error: n_p_new_ns didn't die!\n")

  -- The loop over the answer of GETCHILDREN; the result is the array `found`.
  pub match_loop : (rounds i : ℕ) → (ℕ → ℕ) → Program (ℕ → ℕ)
  match_loop zero i found = pure found
  match_loop (suc k) i found = do
    pid ← load_word (x.children_pids + 4 * i)
    a ← load_word x.ns1_a_pid
    found' ←
        (if pid == a then pure (upd found 0 1) else do
          b ← load_word x.ns1_b_pid
          if pid == b
              then pure (upd found 1 1)
              else give_up x
                  (codes "Inconsistent GETCHILDREN namespace management (pid return 1)\n"))
    match_loop k (i + 1) found'

  pub found_loop : (rounds i : ℕ) → (ℕ → ℕ) → Process
  found_loop zero i found = done
  found_loop (suc k) i found = do
    (if not (found i == 1)
        then give_up x (codes "Inconsistent GETCHILDREN namespace management (pid return 2)\n")
        else done)
    found_loop k (i + 1) found

  unfoldable pub p11 : Process
  p11 = do
    print x (codes "p11 starts\n")
    ns2 ← alloc_namespace ns_pid returned
    (if ns2 == null then give_up x (codes "failed namespace management\n") else done)
    ns1_a ← sys create_process_sys x.ns1_a_state null null
    store_word x.ns1_a_pid ns1_a
    ns1_b ← sys create_process_sys x.ns1_b_state null null
    store_word x.ns1_b_pid ns1_b
    ns2_a ← sys create_process_sys x.ns2_a_state null ns2
    store_word x.ns2_a_pid ns2_a
    ns2_b ← sys create_process_sys x.ns2_b_state null ns2
    store_word x.ns2_b_pid ns2_b
    counted ← sys get_children_sys null 0 0
    (if not (counted == 2)
        then give_up x (codes "Inconsistent GETCHILDREN namespace management 1\n")
        else done)
    children_number ← sys get_children_sys x.children_pids ns_max_children 0
    (if not (children_number == 2)
        then give_up x (codes "Inconsistent GETCHILDREN namespace management 2\n")
        else done)
    found ← match_loop children_number 0 (λ _. 0)
    found_loop children_number 0 found
    print x (codes "p11, waiting for children\n")
    _ ← sys verhogen_sys x.sem_l_ns1_a 0 0
    _ ← sys verhogen_sys x.sem_l_ns1_b 0 0
    _ ← sys verhogen_sys x.sem_l_ns2_a 0 0
    _ ← sys verhogen_sys x.sem_l_ns2_b 0 0
    _ ← sys passeren_sys x.sem_r_ns1_a 0 0
    _ ← sys passeren_sys x.sem_r_ns1_b 0 0
    _ ← sys passeren_sys x.sem_r_ns2_a 0 0
    _ ← sys passeren_sys x.sem_r_ns2_b 0 0
    _ ← sys verhogen_sys x.sem_p11 0 0
    _ ← sys term_process_sys 0 0 0
    give_up x (codes "Error: p11 didn't die!\n")
