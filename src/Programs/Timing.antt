-- ===== src/Programs/Timing.antt =====
-- p2, p4 and p6 of pandos/phase2/p2test_04.c. The empty delay loop of p2 does nothing that the model
-- sees, and the time scale is taken for a positive number.
use pand_os.Prelude.{ℕ, zero, suc, ◌+◌, ◌*◌, false, not, ◌==◌, if◌then◌else◌}
use pand_os.Mem.{null}
use pand_os.Words.{add32, sub32, lt_int, div_int}
use pand_os.Scheduler.{timescale_addr}
use pand_os.Syscall.{
  create_process_sys, term_process_sys, passeren_sys, verhogen_sys, get_time_sys,
  get_process_id_sys,
}
use pand_os.Programs.{
  returned, stck, Process, pure, ◌>>=◌, ◌>>◌, done, sys, load_word, store_word, codes, Variables,
  print, give_up,
}
use pand_os.Programs.Trees.{clear_words}

abbrev pub max_sem : ℕ
max_sem = 20

abbrev pub min_loop_time : ℕ
min_loop_time = 30000

abbrev pub q_page : ℕ
q_page = 1024

abbrev pub user_syscall : ℕ
user_syscall = 11

module _ (x : Variables) where
  pub pairs_loop : (rounds i : ℕ) → Process
  pairs_loop zero i = done
  pairs_loop (suc k) i = do
    _ ← sys verhogen_sys (x.sems + 4 * i) 0 0
    _ ← sys passeren_sys (x.sems + 4 * i) 0 0
    value ← load_word (x.sems + 4 * i)
    (if not (value == 0) then print x (codes "error: p2 bad v/p pairs\n") else done)
    pairs_loop k (i + 1)

  -- `real` is now2 - now1, and `used` is cpu_t2 - cpu_t1.
  pub judge : (real used : ℕ) → Process
  judge real used = do
    fine ←
        (if lt_int real used then pure false else do
          scale ← load_word timescale_addr
          pure (not (lt_int used (div_int min_loop_time scale))))
    if fine then print x (codes "p2 is OK\n") else do
      (if lt_int real used then print x (codes "error: more cpu time than real time\n") else done)
      scale ← load_word timescale_addr
      (if lt_int used (div_int min_loop_time scale)
          then print x (codes "error: not enough cpu time went by\n")
          else done)
      print x (codes "p2 blew it!\n")

  unfoldable pub p2 : Process
  p2 = do
    _ ← sys passeren_sys x.sem_startp2 0 0
    print x (codes "p2 starts\n")
    pid ← sys get_process_id_sys 0 0 0
    expected ← load_word x.p2pid
    (if not (pid == expected) then give_up x (codes "Inconsistent process id for p2!\n") else done)
    clear_words x.sems (max_sem + 1) 0
    pairs_loop (max_sem + 1) 0
    print x (codes "p2 v's successfully\n")
    now1 ← stck returned
    cpu_t1 ← sys get_time_sys 0 0 0
    cpu_t2 ← sys get_time_sys 0 0 0
    now2 ← stck returned
    judge (sub32 now2 now1) (sub32 cpu_t2 cpu_t1)
    store_word x.p1p2synch 1
    _ ← sys passeren_sys x.sem_endp2 0 0
    _ ← sys term_process_sys 0 0 0
    give_up x (codes "error: p2 didn't terminate\n")

  -- The switch over the incarnation.
  pub incarnate : Process
  incarnate = do
    n ← load_word x.p4inc
    if n == 1
        then (do
          print x (codes "first incarnation of p4 starts\n")
          now ← load_word x.p4inc
          store_word x.p4inc (add32 now 1))
        else if n == 2
        then print x (codes "second incarnation of p4 starts\n")
        else done

  unfoldable pub p4 : Process
  p4 = do
    incarnate
    pid ← sys get_process_id_sys 0 0 0
    expected ← load_word x.p4pid
    (if not (pid == expected) then give_up x (codes "Inconsistent process id for p4!\n") else done)
    _ ← sys verhogen_sys x.sem_synp4 0 0
    _ ← sys passeren_sys x.sem_blkp4 0 0
    _ ← sys passeren_sys x.sem_synp4 0 0
    sp ← load_word x.p4state_sp
    store_word x.p4state_sp (sub32 sp q_page)
    started ← sys create_process_sys x.p4state null 0
    store_word x.p4pid started
    _ ← sys passeren_sys x.sem_synp4 0 0
    _ ← sys verhogen_sys x.sem_endp4 0 0
    print x (codes "p4 incarnation terminating\n")
    _ ← sys term_process_sys 0 0 0
    give_up x (codes "error: p4 didn't terminate\n")

  unfoldable pub p6 : Process
  p6 = do
    print x (codes "p6 starts\n")
    _ ← sys user_syscall 0 0 0
    give_up x (codes "error: p6 alive after SYS9() with no trap vector\n")
