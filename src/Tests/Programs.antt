-- ===== src/Tests/Programs.antt =====
-- The processes of the test on a small kernel: a memory of words, and the words sent to the terminal.
use pand_os.Prelude.{
  ◌/◌, ◌*◌, ℕ, ◌+◌, ◌%◌, ◌^◌, ◌≢◌, List, [], ◌∷◌, ◌++◌, Option, none, some, ◌==◌, if◌then◌else◌,
  upd,
}
use pand_os.Programs.{Variables}
use pand_os.Programs.Processes.{hp_p1}
use pand_os.Programs.Runs.{Machine, returns, run}
use pand_os.Programs.Endings.{hp_p1_terminated, run-Terminated}

abbrev variables : Variables
variables = record {
  sem_term_mut = 100;
  sem_blkp9 = 104;
  sem_p11 = 108;
  sem_l_ns1_a = 112;
  sem_l_ns1_b = 116;
  sem_l_ns2_a = 120;
  sem_l_ns2_b = 124;
  sem_r_ns1_a = 128;
  sem_r_ns1_b = 132;
  sem_r_ns2_a = 136;
  sem_r_ns2_b = 140;
  sem_startp2 = 500;
  sem_endp2 = 504;
  sem_blkp4 = 508;
  sem_synp4 = 512;
  sem_endp4 = 516;
  sem_endp8 = 520;
  sem_blkp8 = 524;
  p2pid = 528;
  p4pid = 532;
  p8pid = 536;
  p1p2synch = 540;
  p4inc = 544;
  sems = 600;
  sem_endcreate = 700;
  p4state = 2000;
  p4state_sp = 2132;
  child1state = 2200;
  child2state = 2400;
  gchild1state = 2600;
  gchild2state = 2800;
  gchild3state = 3000;
  gchild4state = 3200;
  p10state = 1000;
  ns1_a_state = 1200;
  ns1_b_state = 1400;
  ns2_a_state = 1600;
  ns2_b_state = 1800;
  p9pid = 200;
  ns1_a_pid = 204;
  ns1_b_pid = 208;
  ns2_a_pid = 212;
  ns2_b_pid = 216;
  value = 300;
  children_pids = 400;
  sem_endp3 = 548;
  p3pid = 552;
  sem_endp5 = 556;
  p5_support = 4000;
  general_state = 4000;
  general_cause = 4004;
  general_status = 4008;
  general_pc = 4012;
  general_t9 = 4112;
  fault_state = 4200;
  fault_status = 4208;
  fault_pc = 4212;
  fault_t9 = 4312;
  p5_mem_location = 560;
  p5a_code = 5000;
  p5b_code = 5400;
}

abbrev Small : Type 0
Small = (ℕ → ℕ) × List ℕ

-- SYS2 does not return, SYS5 prints, and every other call leaves its number in the register.
abbrev small_answer : (number a1 a2 a3 : ℕ) → Small → Option (ℕ × Small)
small_answer number a1 a2 a3 (words, out) =
    if number == 2
    then none
    else if number == 5
    then some (0, (upd words a2 5, out ++ words (a2 + 4) ∷ []))
    else some (number, (words, out))

abbrev small : Machine Small
small = record {
  answer = small_answer;
  allocate = λ t s. (0, s);
  clock = λ s. (0, s);
  save = λ a s. s;
  refused = λ a v s. none;
  peeked = λ a s. none;
  execute = λ i s. s;
  word = λ s a. s.0 a;
  put = λ a v s. (upd s.0 a v, s.1);
}

abbrev printed : Small → List ℕ
printed s = s.1

abbrev start : Small
start = (λ a. 0, [])

run-Terminated_example : (run small (hp_p1 variables) start).0 ≢ returns tt
run-Terminated_example = run-Terminated variables small (hp_p1 variables) hp_p1_terminated start

-- A kernel with a tick at every 100100; the state is the time.
abbrev next_tick : ℕ → ℕ
next_tick t = (t / 100100 + 1) * 100100

abbrev ticking : Machine ℕ
ticking = record {
  answer = λ n a b c t. some (0, next_tick t + 30);
  allocate = λ kind t. (0, t);
  clock = λ t. (t % 2 ^ 32, t + 10);
  save = λ a t. t;
  refused = λ a v t. none;
  peeked = λ a t. none;
  execute = λ i t. t;
  word = λ t a. 0;
  put = λ a v t. t;
}
