-- ===== src/Programs/Traps.antt =====
-- p5 of pandos/phase2/p2test_04.c with its second and third part and its trap handlers, and the handler
-- of TLB-Refill events.
use pand_os.Prelude.{ℕ, ◌*◌, ◌/◌, ◌%◌, ◌^◌, ◌==◌, if◌then◌else◌, bit_and, bit_or}
use pand_os.Words.{add32}
use pand_os.Syscall.{term_process_sys, passeren_sys, verhogen_sys, get_support_ptr_sys}
use pand_os.Programs.{
  returned, trap, peek, ldst, tlb, set_entry_hi, set_entry_lo, tlbwr, Process, ◌>>=◌, ◌>>◌, done,
  sys, load_word, store_word, codes, Variables, print, give_up,
}
use pand_os.Programs.Timing.{user_syscall}
use pand_os.Programs.Clocked.{delay_loop}

-- BUSERROR, RESVINSTR, ADDRERROR, SYSCALLEXCPT, CAUSEMASK, KUPBITON and KUPBITOFF
abbrev pub bus_error : ℕ
bus_error = 6

abbrev pub resv_instr : ℕ
resv_instr = 10

abbrev pub addr_error : ℕ
addr_error = 4

abbrev pub syscall_excpt : ℕ
syscall_excpt = 8

abbrev pub cause_mask : ℕ
cause_mask = 0xFF

abbrev pub kup_bit_on : ℕ
kup_bit_on = 8

abbrev pub kup_bit_off : ℕ
kup_bit_off = 0xFFFFFFF7

unfoldable pub utlb_refill_handler : Process
utlb_refill_handler =
    tlb (set_entry_hi 0x80000000) (tlb (set_entry_lo 0) (tlb tlbwr (ldst 0x0FFFF000)))

module _ (x : Variables) where
  unfoldable pub p5sys : Process
  p5sys = do
    status ← load_word x.general_status
    (if ((status * 2 ^ 28) % 2 ^ 32) / 2 ^ 31 == 1
        then print x (codes "High level SYS call from user mode process\n")
        else print x (codes "High level SYS call from kernel mode process\n"))
    pc ← load_word x.general_pc
    store_word x.general_pc (add32 pc 4)
    ldst x.general_state

  -- The two cases that continue with p5b in kernel mode.
  pub resume_p5b : Process
  resume_p5b = do
    store_word x.general_pc x.p5b_code
    store_word x.general_t9 x.p5b_code
    status ← load_word x.general_status
    store_word x.general_status (bit_and status kup_bit_off)

  unfoldable pub p5gen : Process
  p5gen = do
    cause ← load_word x.general_cause
    (let code = bit_and cause cause_mask / 4 in
        if code == bus_error
        then (do
          print x (codes "Bus Error (as expected): Access non-existent memory\n")
          store_word x.general_pc x.p5a_code
          store_word x.general_t9 x.p5a_code)
        else if code == resv_instr
        then (do print x (codes "privileged instruction\n"); resume_p5b)
        else if code == addr_error
        then (do
          print x (codes "Address Error (as expected): non-kuseg access w/KU=1\n")
          resume_p5b)
        else if code == syscall_excpt
        then p5sys
        else print x (codes "other program trap\n"))
    ldst x.general_state

  unfoldable pub p5mm : Process
  p5mm = do
    print x (codes "memory management trap\n")
    support ← sys get_support_ptr_sys 0 0 0
    (if support == x.p5_support
        then print x (codes "Correct Support Structure Address\n")
        else print x (codes "Support Structure Address Error\n"))
    status ← load_word x.fault_status
    store_word x.fault_status (bit_or status kup_bit_on)
    store_word x.fault_pc x.p5b_code
    store_word x.fault_t9 x.p5b_code
    ldst x.fault_state

  -- The last statement of p5 and of p5a is an access that traps.
  pub p5 : Process
  p5 = do
    print x (codes "p5 starts\n")
    place ← load_word x.p5_mem_location
    value ← peek place returned
    trap place (add32 value 1) done

  pub p5a : Process
  p5a = do
    store_word x.p5_mem_location 0x80000000
    place ← load_word x.p5_mem_location
    trap place 42 done

  unfoldable pub p5b : (rounds : ℕ) → Process
  p5b rounds = do
    _ ← sys user_syscall 0 0 0
    _ ← sys passeren_sys x.sem_endp4 0 0
    delay_loop rounds 0 0
    _ ← sys verhogen_sys x.sem_blkp4 0 0
    _ ← sys verhogen_sys x.sem_endp5 0 0
    _ ← sys term_process_sys 0 0 0
    give_up x (codes "error: p5 didn't terminate\n")
