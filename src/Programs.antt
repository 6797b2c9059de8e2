-- ===== src/Programs.antt =====
-- The processes of pandos/phase2/p2test_04.c that run on the kernel, as programs of system calls, with
-- the kernel as a parameter. A text is the list of its characters in front of EOS. The addresses of
-- the test's variables and of the local arrays are parameters.
pub mod Runs
pub mod Printing
pub mod Processes
pub mod Namespaces
pub mod Trees
pub mod Timing
pub mod Root
pub mod Endings
pub mod Clocked
pub mod Traps
use Prim.Native.Char.{code}
use Prim.Native.String.{String}
use pand_os.Prelude.{
  ℕ, zero, suc, ◌+◌, ◌*◌, ◌%◌, ◌^◌, Bool, not, ◌||◌, bit_and, bit_or, List, [], ◌∷◌, Option, none,
  some, ◌==◌, ltb, if◌then◌else◌, upd,
}
use pand_os.Mem.{Addr, null}
use pand_os.Words.{sub32}
use pand_os.Print.{char_value, char_offset, print_chr, term0_addr}
use pand_os.Ns.{ns_pid}
use pand_os.Syscall.{
  create_process_sys, term_process_sys, passeren_sys, verhogen_sys, do_io_sys, clock_wait_sys,
  get_process_id_sys, get_children_sys,
}

-- The instructions on the TLB: setENTRYHI, setENTRYLO and TLBWR.
pub data TlbInstruction : Type 0 where
  set_entry_hi : ℕ → TlbInstruction
  set_entry_lo : ℕ → TlbInstruction
  tlbwr : TlbInstruction

-- What a process does next: it returns from its function, panics, makes a system call and goes on
-- with the answer, calls allocNamespace, reads the clock (STCK), stores the state of
-- the processor (STST), or uses a variable; `trap` is a store and `peek` a read that the processor may
-- refuse, `ldst` loads the state at an address (LDST), `tlb` is an instruction on the TLB, and `spent` stands for the rest of a loop that has
-- gone round as often as it was given.
pub data Program (A : Type 0) : Type 0 where
  returned : A → Program A
  panic : Program A
  syscall : (number a1 a2 a3 : ℕ) → (ℕ → Program A) → Program A
  alloc_namespace : ℕ → (Addr → Program A) → Program A
  stck : (ℕ → Program A) → Program A
  stst : Addr → Program A → Program A
  trap : Addr → ℕ → Program A → Program A
  load : Addr → (ℕ → Program A) → Program A
  store : Addr → ℕ → Program A → Program A
  peek : Addr → (ℕ → Program A) → Program A
  ldst : Addr → Program A
  tlb : TlbInstruction → Program A → Program A
  spent : Program A

abbrev pub Process : Type 0
Process = Program (Unit {0})

abbrev pub pure : {A : Type 0} → A → Program A
pure = returned

module _ {A B : Type 0} where
  infixl 5 ◌>>=◌ ◌>>◌
  abbrev pub ◌>>=◌ : Program A → (A → Program B) → Program B
  (returned a) >>= f = f a
  panic >>= f = panic
  (syscall n a b c k) >>= f = syscall n a b c λ v. k v >>= f
  (alloc_namespace t k) >>= f = alloc_namespace t λ v. k v >>= f
  (stck k) >>= f = stck λ v. k v >>= f
  (stst a k) >>= f = stst a (k >>= f)
  (trap a v k) >>= f = trap a v (k >>= f)
  (load a k) >>= f = load a λ v. k v >>= f
  (store a v k) >>= f = store a v (k >>= f)
  (peek a k) >>= f = peek a λ v. k v >>= f
  (ldst a) >>= f = ldst a
  (tlb i k) >>= f = tlb i (k >>= f)
  spent >>= f = spent

  abbrev pub ◌>>◌ : Program A → Program B → Program B
  p >> q = p >>= λ _. q

abbrev pub done : Process
done = returned tt

abbrev pub sys : (number a1 a2 a3 : ℕ) → Program ℕ
sys number a1 a2 a3 = syscall number a1 a2 a3 returned

abbrev pub load_word : Addr → Program ℕ
load_word a = load a returned

abbrev pub store_word : Addr → ℕ → Process
store_word a v = store a v done

-- The characters of a string literal.
abbrev pub codes : String → List ℕ
codes String.[] = []
codes (String.◌∷◌ c s) = code c ∷ codes s

-- RECVD, TERMSTATMASK and NS_MAXCHILDREN
abbrev pub recvd : ℕ
recvd = 5

abbrev pub termstat_mask : ℕ
termstat_mask = 0xFF

abbrev pub ns_max_children : ℕ
ns_max_children = 5

-- The addresses of the variables (`sems` is the array `s`), of `p4state.reg_sp`, of `value` of print and
-- `children_pids` of p11, of the two saved states of pFiveSupport with their fields, and of the code of
-- p5a and p5b.
pub record Variables : Type 0 where
  pub sem_term_mut : Addr
  pub sem_blkp9 : Addr
  pub sem_p11 : Addr
  pub sem_l_ns1_a : Addr
  pub sem_l_ns1_b : Addr
  pub sem_l_ns2_a : Addr
  pub sem_l_ns2_b : Addr
  pub sem_r_ns1_a : Addr
  pub sem_r_ns1_b : Addr
  pub sem_r_ns2_a : Addr
  pub sem_r_ns2_b : Addr
  pub sems : Addr
  pub sem_startp2 : Addr
  pub sem_endp2 : Addr
  pub sem_blkp4 : Addr
  pub sem_synp4 : Addr
  pub sem_endp4 : Addr
  pub sem_endp8 : Addr
  pub sem_endcreate : Addr
  pub sem_blkp8 : Addr
  pub p4state : Addr
  pub p4state_sp : Addr
  pub child1state : Addr
  pub child2state : Addr
  pub gchild1state : Addr
  pub gchild2state : Addr
  pub gchild3state : Addr
  pub gchild4state : Addr
  pub p10state : Addr
  pub ns1_a_state : Addr
  pub ns1_b_state : Addr
  pub ns2_a_state : Addr
  pub ns2_b_state : Addr
  pub p2pid : Addr
  pub p4pid : Addr
  pub p8pid : Addr
  pub p9pid : Addr
  pub ns1_a_pid : Addr
  pub ns1_b_pid : Addr
  pub ns2_a_pid : Addr
  pub ns2_b_pid : Addr
  pub p1p2synch : Addr
  pub p4inc : Addr
  pub value : Addr
  pub children_pids : Addr
  pub sem_endp3 : Addr
  pub p3pid : Addr
  pub sem_endp5 : Addr
  pub p5_support : Addr
  pub general_state : Addr
  pub general_cause : Addr
  pub general_status : Addr
  pub general_pc : Addr
  pub general_t9 : Addr
  pub fault_state : Addr
  pub fault_status : Addr
  pub fault_pc : Addr
  pub fault_t9 : Addr
  pub p5_mem_location : Addr
  pub p5a_code : Addr
  pub p5b_code : Addr

module _ (x : Variables) where
  -- one character of the message; `value` is an array of two words
  pub put_char : ℕ → Process
  put_char c = do
    store_word x.value 0
    store_word (x.value + 4) (bit_or print_chr ((char_value c * 2 ^ char_offset) % 2 ^ 32))
    status ← sys do_io_sys (term0_addr + 8) x.value 0
    answer ← load_word x.value
    if not (status == 0) || not (bit_and answer termstat_mask == recvd) then panic else done

  pub put_chars : List ℕ → Process
  put_chars [] = done
  put_chars (c ∷ s) = do put_char c; put_chars s

  pub print : List ℕ → Process
  print msg = do
    _ ← sys passeren_sys x.sem_term_mut 0 0
    put_chars msg
    _ ← sys verhogen_sys x.sem_term_mut 0 0
    done

  -- `print(...); PANIC();`
  abbrev pub give_up : {A : Type 0} → List ℕ → Program A
  give_up msg = do print msg; panic
