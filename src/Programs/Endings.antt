-- ===== src/Programs/Endings.antt =====
-- The processes of pandos/phase2/p2test_04.c that do not come back from their functions.
use pand_os.Prelude.{ℕ, ◌≢◌}
use pand_os.Programs.{Process, codes, Variables, print}
use pand_os.Programs.Runs.{
  Machine, returns, run, NeverReturns, after, calling, allocating, timing, loading, storing,
  reloading, run-NeverReturns, endless,
}
use pand_os.Programs.Processes.{p10, hp_p1, hp_p2}
use pand_os.Programs.Trees.{clear_words}
use pand_os.Programs.Root.{Root, set_up_states, set_up_support, p8_loop, test, p7}
use pand_os.Programs.Timing.{pairs_loop, judge, p2, incarnate, p4, p6}
use pand_os.Words.{sub32}
use pand_os.Programs.Clocked.{delay_loop, clock_wait_loop, p3}
use pand_os.Programs.Traps.{utlb_refill_handler, p5sys, p5gen, p5mm, p5b}
use pand_os.Programs.Namespaces.{ns_p_parent_ns, ns_p_new_ns, match_loop, found_loop, p11}

utlb_refill_handler-NeverReturns : NeverReturns utlb_refill_handler
unfolding utlb_refill_handler
utlb_refill_handler-NeverReturns = search endless

module _ (x : Variables) where
  hp_p1-NeverReturns : NeverReturns (hp_p1 x)
  unfolding hp_p1
  hp_p1-NeverReturns = search endless

  hp_p2-NeverReturns : NeverReturns (hp_p2 x)
  unfolding hp_p2
  hp_p2-NeverReturns = search endless

  p10-NeverReturns : NeverReturns (p10 x)
  unfolding p10
  p10-NeverReturns = search endless depth 40

  ns_p_parent_ns-NeverReturns : NeverReturns (ns_p_parent_ns x)
  unfolding ns_p_parent_ns
  ns_p_parent_ns-NeverReturns = search endless depth 40

  ns_p_new_ns-NeverReturns : NeverReturns (ns_p_new_ns x)
  unfolding ns_p_new_ns
  ns_p_new_ns-NeverReturns = search endless depth 40

  p2-NeverReturns : NeverReturns (p2 x)
  unfolding p2
  p2-NeverReturns = calling λ _. after (print x (codes "p2 starts\n")) λ _. calling λ _.
      loading λ _. after _ λ _. after (clear_words x.sems 21 0) λ _. after (pairs_loop x 21 0) λ _.
        after (print x (codes "p2 v's successfully\n")) λ _. timing λ t. calling λ c.
          calling
            λ d. timing λ u. after (judge x (sub32 u t) (sub32 d c)) λ _. storing (search endless)

  p4-NeverReturns : NeverReturns (p4 x)
  unfolding p4
  p4-NeverReturns = after (incarnate x) λ _. calling λ _. loading λ _. after _ λ _. calling λ _.
      calling λ _. calling λ _. loading λ _.
        storing
          (calling λ _. storing (calling λ _. calling λ _. after (print x _) λ _. search endless))

  p6-NeverReturns : NeverReturns (p6 x)
  unfolding p6
  p6-NeverReturns = search endless

  p7-NeverReturns : (r : Root) → NeverReturns (p7 x r)
  unfolding p7
  p7-NeverReturns r = search endless

  test-NeverReturns : (r : Root) → NeverReturns (test x r)
  unfolding test
  test-NeverReturns r = calling λ _. after (print x (codes "p1 v(sem_testsem)\n")) λ _.
      after (set_up_states x r) λ _. calling λ _. storing (
        after (print x (codes "p2 was started\n")) λ _. calling λ _. calling λ _. loading λ _.
          after _ λ _. calling λ _. storing (
            after (print x (codes "p3 is started\n")) λ _. calling λ _. calling λ _. calling λ _.
              calling λ _. storing (
                after (set_up_support x r) λ _. calling λ _. calling λ _. calling λ _. calling λ _.
                  storing (
                    calling λ _. after (print x (codes "p1 knows p5 ended\n")) λ _. calling λ _.
                      storing
                        (after (p8_loop x r 4) λ _. calling λ _. calling λ _. search endless)))))

  p3-NeverReturns : (rounds : ℕ) → NeverReturns (p3 x rounds)
  unfolding p3
  p3-NeverReturns rounds = after (delay_loop rounds 0 0) λ _.
      after (print x (codes "p3 - CLOCKWAIT OK\n")) λ _. calling λ _.
        after (clock_wait_loop 10) λ _. calling λ _. loading λ _.
          after _
            λ _. calling λ _. loading λ _. after _ λ _. calling λ _. calling λ _. search endless

  p5b-NeverReturns : (rounds : ℕ) → NeverReturns (p5b x rounds)
  unfolding p5b
  p5b-NeverReturns rounds = calling λ _.
      calling λ _.
        after (delay_loop rounds 0 0) λ _. calling λ _. calling λ _. calling λ _. search endless

  p5sys-NeverReturns : NeverReturns (p5sys x)
  unfolding p5sys
  p5sys-NeverReturns = loading λ _. after _ λ _. loading λ _. storing reloading

  p5gen-NeverReturns : NeverReturns (p5gen x)
  unfolding p5gen
  p5gen-NeverReturns = loading λ _. after _ λ _. reloading

  p5mm-NeverReturns : NeverReturns (p5mm x)
  unfolding p5mm
  p5mm-NeverReturns =
      after (print x (codes "memory management trap\n"))
        λ _. calling λ _. after _ λ _. loading λ _. storing (storing (storing reloading))

  p11-NeverReturns : NeverReturns (p11 x)
  unfolding p11
  p11-NeverReturns = after (print x (codes "p11 starts\n")) λ _. allocating λ _. after _ λ _.
      calling λ _. storing (
        calling λ _. storing (
          calling λ _. storing (
            calling λ _. storing (
              calling λ _. after _ λ _. calling λ n. after _ λ _.
                after (match_loop x n 0 (λ _. 0)) λ f. after (found_loop x n 0 f) λ _.
                  after (print x (codes "p11, waiting for children\n")) λ _. calling λ _.
                    calling λ _. calling λ _. calling λ _.
                      calling
                        λ _. calling λ _. calling λ _. calling λ _. calling λ _. search endless))))

-- The processes that end with a call that they do not survive and PANIC behind it, and the trap
-- handlers, which end with LDST.
pub data Terminated (x : Variables) : Process → Type 0 where
  p2_terminated : Terminated x (p2 x)
  p4_terminated : Terminated x (p4 x)
  p6_terminated : Terminated x (p6 x)
  p7_terminated : (r : Root) → Terminated x (p7 x r)
  test_terminated : (r : Root) → Terminated x (test x r)
  p10_terminated : Terminated x (p10 x)
  hp_p1_terminated : Terminated x (hp_p1 x)
  hp_p2_terminated : Terminated x (hp_p2 x)
  parent_ns_terminated : Terminated x (ns_p_parent_ns x)
  new_ns_terminated : Terminated x (ns_p_new_ns x)
  p11_terminated : Terminated x (p11 x)
  p3_terminated : (rounds : ℕ) → Terminated x (p3 x rounds)
  p5b_terminated : (rounds : ℕ) → Terminated x (p5b x rounds)
  p5gen_terminated : Terminated x (p5gen x)
  p5mm_terminated : Terminated x (p5mm x)
  p5sys_terminated : Terminated x (p5sys x)
  refill_terminated : Terminated x utlb_refill_handler

Terminated-NeverReturns : (x : Variables) (p : Process) → Terminated x p → NeverReturns p
Terminated-NeverReturns x p p2_terminated = p2-NeverReturns x
Terminated-NeverReturns x p p4_terminated = p4-NeverReturns x
Terminated-NeverReturns x p p6_terminated = p6-NeverReturns x
Terminated-NeverReturns x p (p7_terminated r) = p7-NeverReturns x r
Terminated-NeverReturns x p (test_terminated r) = test-NeverReturns x r
Terminated-NeverReturns x p p10_terminated = p10-NeverReturns x
Terminated-NeverReturns x p hp_p1_terminated = hp_p1-NeverReturns x
Terminated-NeverReturns x p hp_p2_terminated = hp_p2-NeverReturns x
Terminated-NeverReturns x p parent_ns_terminated = ns_p_parent_ns-NeverReturns x
Terminated-NeverReturns x p new_ns_terminated = ns_p_new_ns-NeverReturns x
Terminated-NeverReturns x p p11_terminated = p11-NeverReturns x
Terminated-NeverReturns x p (p3_terminated rounds) = p3-NeverReturns x rounds
Terminated-NeverReturns x p (p5b_terminated rounds) = p5b-NeverReturns x rounds
Terminated-NeverReturns x p p5gen_terminated = p5gen-NeverReturns x
Terminated-NeverReturns x p p5mm_terminated = p5mm-NeverReturns x
Terminated-NeverReturns x p p5sys_terminated = p5sys-NeverReturns x
Terminated-NeverReturns x p refill_terminated = utlb_refill_handler-NeverReturns

-- Whatever the kernel answers to its calls, none of test, p2, p3, p4, p5b, p5gen, p5mm, p5sys, p6,
-- p7, p10, p11, hp_p1, hp_p2, ns_p_parent_ns, ns_p_new_ns and uTLB_RefillHandler comes back from
-- its function: it panics, loads a saved state, the kernel does not come back from a call or a
-- trap, or the loop of p3 and p5b goes round more often than it is given.
pub run-Terminated :
    {S : Type 0} (x : Variables) (k : Machine S) (p : Process)
    → Terminated x p
    → (s : S) → (run k p s).0 ≢ returns tt
run-Terminated x k p t s = run-NeverReturns k (Terminated-NeverReturns x p t) s tt
