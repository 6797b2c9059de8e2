-- ===== src/Programs/Root.antt =====
-- test of pandos/phase2/p2test_04.c, the root process of the test, and p7. The offsets in a state_t, the
-- addresses of the states, of the fields of pFiveSupport and of the functions are parameters.
use pand_os.Prelude.{ℕ, zero, suc, ◌+◌, ◌*◌, Option, none, some, ◌==◌, if◌then◌else◌, bit_or}
use pand_os.Mem.{Addr, null}
use pand_os.Words.{add32, sub32}
use pand_os.Syscall.{create_process_sys, passeren_sys, verhogen_sys}
use pand_os.Programs.{
  stst, trap, Process, ◌>>=◌, ◌>>◌, done, sys, load_word, store_word, codes, Variables, print,
  give_up,
}
use pand_os.Programs.Timing.{q_page}
use pand_os.Programs.Trees.{no_leaves, clear_words}

-- IEPBITON, CAUSEINTMASK, TEBITON, ALLOFF and BADADDR
abbrev pub iep_bit_on : ℕ
iep_bit_on = 0x4

abbrev pub cause_int_mask : ℕ
cause_int_mask = 0xFD00

abbrev pub te_bit_on : ℕ
te_bit_on = 0x08000000

abbrev pub all_off : ℕ
all_off = 0

abbrev pub bad_addr : Addr
bad_addr = 0xFFFFFFFF

pub record Root : Type 0 where
  pub reg_sp : ℕ
  pub pc_epc : ℕ
  pub reg_t9 : ℕ
  pub status : ℕ
  pub hp_p1state : Addr
  pub hp_p2state : Addr
  pub p2state : Addr
  pub p3state : Addr
  pub p5state : Addr
  pub p6state : Addr
  pub p7state : Addr
  pub p8rootstate : Addr
  pub p9state : Addr
  pub p11state : Addr
  pub hp_p1_entry : Addr
  pub hp_p2_entry : Addr
  pub p2_entry : Addr
  pub p3_entry : Addr
  pub p4_entry : Addr
  pub p5_entry : Addr
  pub p6_entry : Addr
  pub p7_entry : Addr
  pub p8root_entry : Addr
  pub child1_entry : Addr
  pub child2_entry : Addr
  pub p8leaf1_entry : Addr
  pub p8leaf2_entry : Addr
  pub p8leaf3_entry : Addr
  pub p8leaf4_entry : Addr
  pub p9_entry : Addr
  pub p10_entry : Addr
  pub p11_entry : Addr
  pub ns_p_parent_ns_entry : Addr
  pub ns_p_new_ns_entry : Addr
  pub p5gen_entry : Addr
  pub p5mm_entry : Addr
  pub five_support : Addr
  pub general_stack : Addr
  pub general_status : Addr
  pub general_pc : Addr
  pub fault_stack : Addr
  pub fault_status : Addr
  pub fault_pc : Addr
  pub sem_testsem : Addr
  pub sem_endp3 : Addr
  pub sem_endp5 : Addr
  pub p3pid : Addr
  pub p8inc : Addr
  pub p5_stack : Addr

module _ (x : Variables) (r : Root) where
  -- STST, and the stack, the entry and the status of a state: the stack is `pages` below the stack of
  -- `above`; of p5, it goes to p5Stack as well.
  pub set_up : (above : Addr) (pages : ℕ) (state entry : Addr) → Option Addr → Process
  set_up above pages state entry copy = do
    stst state done
    sp ← load_word (above + r.reg_sp)
    store_word (state + r.reg_sp) (sub32 sp (pages * q_page))
    copy_stack copy (sub32 sp (pages * q_page))
    store_word (state + r.reg_t9) entry
    store_word (state + r.pc_epc) entry
    status ← load_word (state + r.status)
    store_word (state + r.status)
        (bit_or (bit_or (bit_or status iep_bit_on) cause_int_mask) te_bit_on)
    where
      copy_stack : Option Addr → ℕ → Process
      copy_stack none sp = done
      copy_stack (some a) sp = store_word a sp

  pub set_up_states : Process
  set_up_states = do
    set_up r.hp_p1state 1 r.hp_p1state r.hp_p1_entry none
    set_up r.hp_p1state 1 r.hp_p2state r.hp_p2_entry none
    set_up r.hp_p2state 1 r.p2state r.p2_entry none
    set_up r.p2state 1 r.p3state r.p3_entry none
    set_up r.p3state 1 x.p4state r.p4_entry none
    set_up x.p4state 2 r.p5state r.p5_entry (some r.p5_stack)
    set_up r.p5state 2 r.p6state r.p6_entry none
    set_up r.p6state 1 r.p7state r.p7_entry none
    set_up r.p7state 1 r.p8rootstate r.p8root_entry none
    set_up r.p8rootstate 1 x.child1state r.child1_entry none
    set_up x.child1state 1 x.child2state r.child2_entry none
    set_up x.child2state 1 x.gchild1state r.p8leaf1_entry none
    set_up x.gchild1state 1 x.gchild2state r.p8leaf2_entry none
    set_up x.gchild2state 1 x.gchild3state r.p8leaf3_entry none
    set_up x.gchild3state 1 x.gchild4state r.p8leaf4_entry none
    set_up x.gchild4state 1 r.p9state r.p9_entry none
    set_up r.p9state 1 x.p10state r.p10_entry none
    set_up x.p10state 1 r.p11state r.p11_entry none
    set_up r.p11state 1 x.ns1_a_state r.ns_p_parent_ns_entry none
    set_up x.ns1_a_state 1 x.ns1_b_state r.ns_p_parent_ns_entry none
    set_up x.ns1_b_state 1 x.ns2_a_state r.ns_p_new_ns_entry none
    set_up x.ns2_a_state 1 x.ns2_b_state r.ns_p_new_ns_entry none

  -- The two contexts of pFiveSupport.
  pub set_up_support : Process
  set_up_support = do
    sp ← load_word r.p5_stack
    store_word r.general_stack sp
    store_word r.general_status
        (bit_or (bit_or (bit_or all_off iep_bit_on) cause_int_mask) te_bit_on)
    store_word r.general_pc r.p5gen_entry
    sp ← load_word r.p5_stack
    store_word r.fault_stack sp
    store_word r.fault_status (bit_or (bit_or (bit_or all_off iep_bit_on) cause_int_mask) te_bit_on)
    store_word r.fault_pc r.p5mm_entry

  -- The loop over p8inc, which no other process uses.
  pub p8_loop : (rounds : ℕ) → Process
  p8_loop zero = done
  p8_loop (suc k) = do
    store_word x.sem_blkp8 0
    store_word x.sem_endp8 0
    clear_words x.sem_endcreate no_leaves 0
    p8pid ← sys create_process_sys r.p8rootstate null null
    store_word x.p8pid p8pid
    _ ← sys passeren_sys x.sem_endp8 0 0
    p8inc ← load_word r.p8inc
    store_word r.p8inc (add32 p8inc 1)
    p8_loop k

  unfoldable pub test : Process
  test = do
    _ ← sys verhogen_sys r.sem_testsem 0 0
    print x (codes "p1 v(sem_testsem)\n")
    set_up_states
    p2pid ← sys create_process_sys r.p2state null null
    store_word x.p2pid p2pid
    print x (codes "p2 was started\n")
    _ ← sys verhogen_sys x.sem_startp2 0 0
    _ ← sys verhogen_sys x.sem_endp2 0 0
    synch ← load_word x.p1p2synch
    (if synch == 0 then print x (codes "error: p1/p2 synchronization bad\n") else done)
    p3pid ← sys create_process_sys r.p3state null null
    store_word r.p3pid p3pid
    print x (codes "p3 is started\n")
    _ ← sys passeren_sys r.sem_endp3 0 0
    _ ← sys create_process_sys r.hp_p1state null null
    _ ← sys create_process_sys r.hp_p2state null null
    p4pid ← sys create_process_sys x.p4state null null
    store_word x.p4pid p4pid
    set_up_support
    _ ← sys create_process_sys r.p5state r.five_support null
    _ ← sys create_process_sys r.p6state null null
    _ ← sys create_process_sys r.p7state null null
    p9pid ← sys create_process_sys r.p9state null null
    store_word x.p9pid p9pid
    _ ← sys passeren_sys r.sem_endp5 0 0
    print x (codes "p1 knows p5 ended\n")
    _ ← sys passeren_sys x.sem_blkp4 0 0
    store_word r.p8inc 0
    p8_loop 4
    _ ← sys create_process_sys r.p11state null null
    _ ← sys passeren_sys x.sem_p11 0 0
    print x (codes "p1 finishes OK -- TTFN\n")
    trap bad_addr 0 done
    give_up x (codes "error: p1 still alive after progtrap & no trap vector\n")

  unfoldable pub p7 : Process
  p7 = do
    print x (codes "p7 starts\n")
    trap bad_addr 0 done
    give_up x (codes "error: p7 alive after program trap with no trap vector\n")
