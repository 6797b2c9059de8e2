-- ===== src/Programs/Trees.antt =====
-- The tree of processes of pandos/phase2/p2test_04.c: p8root, its children and their leaves.
use pand_os.Prelude.{ℕ, zero, suc, ◌+◌, ◌*◌, not, List, ◌==◌, if◌then◌else◌}
use pand_os.Mem.{Addr, null}
use pand_os.Syscall.{
  create_process_sys, term_process_sys, passeren_sys, verhogen_sys, get_process_id_sys,
}
use pand_os.Programs.{
  Process, ◌>>=◌, ◌>>◌, done, sys, load_word, store_word, codes, Variables, print, give_up,
}

-- NOLEAVES
abbrev pub no_leaves : ℕ
no_leaves = 4

-- A loop that sets the words of an array to 0.
pub clear_words : Addr → (rounds i : ℕ) → Process
clear_words a zero i = done
clear_words a (suc k) i = do store_word (a + 4 * i) 0; clear_words a k (i + 1)

module _ (x : Variables) where
  pub created_loop : (rounds grandchild : ℕ) → Process
  created_loop zero grandchild = done
  created_loop (suc k) grandchild = do
    _ ← sys passeren_sys (x.sem_endcreate + 4 * grandchild) 0 0
    created_loop k (grandchild + 1)

  pub p8root : Process
  p8root = do
    print x (codes "p8root starts\n")
    _ ← sys create_process_sys x.child1state null null
    _ ← sys create_process_sys x.child2state null null
    created_loop no_leaves 0
    _ ← sys verhogen_sys x.sem_endp8 0 0
    _ ← sys term_process_sys 0 0 0
    done

  -- The check that child1 and child2 make of their parent.
  pub check_parent : (wrong : List ℕ) → Process
  check_parent wrong = do
    ppid ← sys get_process_id_sys 1 0 0
    expected ← load_word x.p8pid
    if not (ppid == expected) then give_up x wrong else done

  pub child1 : Process
  child1 = do
    print x (codes "child1 starts\n")
    check_parent (codes "Inconsistent (parent) process id for p8's first child\n")
    _ ← sys create_process_sys x.gchild1state null null
    _ ← sys create_process_sys x.gchild2state null null
    _ ← sys passeren_sys x.sem_blkp8 0 0
    done

  pub child2 : Process
  child2 = do
    print x (codes "child2 starts\n")
    check_parent (codes "Inconsistent (parent) process id for p8's second child\n")
    _ ← sys create_process_sys x.gchild3state null null
    _ ← sys create_process_sys x.gchild4state null null
    _ ← sys passeren_sys x.sem_blkp8 0 0
    done

  pub p8leaf1 : Process
  p8leaf1 = do
    print x (codes "leaf process (1) starts\n")
    _ ← sys verhogen_sys x.sem_endcreate 0 0
    _ ← sys passeren_sys x.sem_blkp8 0 0
    done

  pub p8leaf2 : Process
  p8leaf2 = do
    print x (codes "leaf process (2) starts\n")
    _ ← sys verhogen_sys (x.sem_endcreate + 4) 0 0
    _ ← sys passeren_sys x.sem_blkp8 0 0
    done

  pub p8leaf3 : Process
  p8leaf3 = do
    print x (codes "leaf process (3) starts\n")
    _ ← sys verhogen_sys (x.sem_endcreate + 8) 0 0
    _ ← sys passeren_sys x.sem_blkp8 0 0
    done

  pub p8leaf4 : Process
  p8leaf4 = do
    print x (codes "leaf process (4) starts\n")
    _ ← sys verhogen_sys (x.sem_endcreate + 12) 0 0
    _ ← sys passeren_sys x.sem_blkp8 0 0
    done
