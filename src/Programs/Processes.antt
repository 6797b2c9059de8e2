-- ===== src/Programs/Processes.antt =====
-- p9, p10, hp_p1 and hp_p2 of pandos/phase2/p2test_04.c.

use pand_os.Prelude.{ℕ, zero, suc, not, ◌==◌, if◌then◌else◌}
use pand_os.Mem.{null}
use pand_os.Syscall.{
  create_process_sys, term_process_sys, passeren_sys, clock_wait_sys, get_process_id_sys,
}
use pand_os.Programs.{Variables, Process, ◌>>=◌, ◌>>◌, done, sys, load_word, codes, print, give_up}

module _ (x : Variables) where
  pub p9 : Process
  p9 = do
    print x (codes "p9 starts\n")
    _ ← sys create_process_sys x.p10state null null
    _ ← sys passeren_sys x.sem_blkp9 0 0
    done

  unfoldable pub p10 : Process
  p10 = do
    print x (codes "p10 starts\n")
    ppid ← sys get_process_id_sys 1 0 0
    expected ← load_word x.p9pid
    (if not (ppid == expected) then give_up x (codes "Inconsistent process id for p9!\n") else done)
    _ ← sys term_process_sys ppid 0 0
    give_up x (codes "Error: p10 didn't die with its parent!\n")

  unfoldable pub hp_p1 : Process
  hp_p1 = do
    print x (codes "hp_p1 starts\n")
    _ ← sys term_process_sys 0 0 0
    give_up x (codes "Error: hp_p1 didn't die!\n")

  pub clock_waits : ℕ → Process
  clock_waits zero = done
  clock_waits (suc k) = do _ ← sys clock_wait_sys 0 0 0; clock_waits k

  unfoldable pub hp_p2 : Process
  hp_p2 = do
    print x (codes "hp_p2 starts\n")
    clock_waits 10
    _ ← sys term_process_sys 0 0 0
    give_up x (codes "Error: hp_p2 didn't die!\n")
