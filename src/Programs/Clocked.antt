-- ===== src/Programs/Clocked.antt =====
-- p3 of pandos/phase2/p2test_04.c and the loop that it shares with p5b: the processes that wait for the
-- pseudo clock. `rounds` is how often the loop may go round, as nothing in the program bounds it.
use pand_os.Prelude.{ℕ, zero, ◌%◌, ◌^◌, ◌+◌, ◌≤◌, suc, ◌≡◌, not, ltb, ◌==◌, if◌then◌else◌, some}
use pand_os.Words.{sub32, lt_int, div_int}
use pand_os.Scheduler.{timescale_addr, it_interval}
use pand_os.Syscall.{
  term_process_sys, verhogen_sys, get_time_sys, clock_wait_sys, get_process_id_sys,
}
use pand_os.Programs.{
  returned, stck, spent, Process, ◌>>=◌, ◌>>◌, done, sys, load_word, codes, Variables, print,
  give_up,
}
use pand_os.Programs.Runs.{Machine}

-- CLOCKINTERVAL, an unsigned long
abbrev pub clock_interval : ℕ
clock_interval = 100000

abbrev pub clock_loop_rounds : ℕ
clock_loop_rounds = 10

abbrev pub min_clock_loop : ℕ
min_clock_loop = 3000

-- `while (time2 - time1 < (CLOCKINTERVAL >> 1))`, in unsigned arithmetic
pub delay_loop : (rounds time1 time2 : ℕ) → Process
delay_loop zero time1 time2 = spent
delay_loop (suc k) time1 time2 =
    if ltb (sub32 time2 time1) 50000
    then (do
      start ← stck returned
      _ ← sys clock_wait_sys 0 0 0
      end ← stck returned
      delay_loop k start end)
    else done

pub clock_wait_loop : (rounds : ℕ) → Process
clock_wait_loop zero = done
clock_wait_loop (suc k) = do _ ← sys clock_wait_sys 0 0 0; clock_wait_loop k

module _ (x : Variables) where
  unfoldable pub p3 : (rounds : ℕ) → Process
  p3 rounds = do
    delay_loop rounds 0 0
    print x (codes "p3 - CLOCKWAIT OK\n")
    cpu_t1 ← sys get_time_sys 0 0 0
    clock_wait_loop clock_loop_rounds
    cpu_t2 ← sys get_time_sys 0 0 0
    scale ← load_word timescale_addr
    (if lt_int (sub32 cpu_t2 cpu_t1) (div_int min_clock_loop scale)
        then print x (codes "error: p3 - CPU time incorrectly maintained\n")
        else print x (codes "p3 - CPU time correctly maintained\n"))
    pid ← sys get_process_id_sys 0 0 0
    expected ← load_word x.p3pid
    (if not (pid == expected) then give_up x (codes "Inconsistent process id for p3!\n") else done)
    _ ← sys verhogen_sys x.sem_endp3 0 0
    _ ← sys term_process_sys 0 0 0
    give_up x (codes "error: p3 didn't terminate\n")

-- A kernel with a time and a pseudo clock, whose next tick is due at a time. Reading the clock takes at
-- most 1000 and brings no tick forward. CLOCKWAIT comes back after the tick that was due, within
-- 2 ^ 30, and at most 40000 after the last one, when the timer was set to ITINTERVAL.
pub record Ticks {S : Type 0} (k : Machine S) (time due : S → ℕ) : Type 0 where
  pub reply : S → ℕ
  pub woken : S → S
  pub answer_lem : (s : S) → k.answer clock_wait_sys 0 0 0 s ≡ some (reply s, woken s)
  pub clock_lem : (s : S) → (k.clock s).0 ≡ time s % 2 ^ 32
  pub on : (s : S) → time s ≤ time (k.clock s).1
  pub brief : (s : S) → time (k.clock s).1 ≤ time s + 1000
  pub due_later : (s : S) → due s ≤ due (k.clock s).1
  pub ticked : (s : S) → due s ≤ time (woken s)
  pub soon : (s : S) → time (woken s) + it_interval ≤ due (woken s) + 40000
  pub near : (s : S) → time (woken s) ≤ time s + 2 ^ 30

module _ {S : Type 0} (k : Machine S) (time due : S → ℕ) (w : Ticks k time due) where
  -- The state after a round.
  abbrev round : S → S
  round s = (k.clock (w.woken (k.clock s).1)).1
