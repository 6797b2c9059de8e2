-- ===== src/Env.antt =====
-- What the kernel's code takes from outside the repository's own code: the addresses that the linker
-- gives its variables, the list and hash table libraries, and the uMPS3 headers.
use pand_os.Prelude.{ℕ, ◌≡◌, ◌≢◌, ◌==◌, if◌then◌else◌, List, [], ◌∷◌, ◌∈◌, ◌∉◌}
use pand_os.Mem.{Addr, null, Mem, Run, ok, Cmd, Proc}
use pand_os.Links.{ListOps, ListLaws}

-- the variables of pcb.c, ash.c, ns.c, scheduler.c and devices.c that are used by address
pub record Globals : Type 0 where
  pub pcb_free_h : Addr
  pub pcb_free_table : Addr
  pub semd_free_h : Addr
  pub semd_free_table : Addr
  pub pid_nsd : Addr
  pub pid_ns_free_h : Addr
  pub pid_ns_list_h : Addr
  pub ready_queue : Addr
  pub dev_sems : Addr
  pub pseudo_clock_sem : Addr
  -- the entry points that initKernel stores
  pub utlb_refill_handler : Addr
  pub exception_handler : Addr
  pub test : Addr

-- phase1/include/hashtable.h (a copy of the Linux header), at the table `semd_h`. The two loops are
-- given by the nodes that they visit, in order.
pub record HashOps : Type 0 where
  pub hash_init : Proc
  -- the node, and then its key
  pub hash_add : Addr → Addr → Proc
  pub hash_del : Addr → Proc
  pub hash_possible : Addr → Cmd (List Addr)
  pub hash_each : Cmd (List Addr)

-- the constants and macros of umps3/umps/{const,cp0,arch,types}.h
pub record Umps : Type 0 where
  -- the places of reg_v0, reg_a0, ... in `gpr`, and STATE_GPR_LEN
  pub reg_v0 : ℕ
  pub reg_a0 : ℕ
  pub reg_a1 : ℕ
  pub reg_a2 : ℕ
  pub reg_a3 : ℕ
  pub reg_t9 : ℕ
  pub reg_sp : ℕ
  pub state_gpr_len : ℕ
  -- exception codes
  pub exc_int : ℕ
  pub exc_mod : ℕ
  pub exc_tlbl : ℕ
  pub exc_tlbs : ℕ
  pub exc_sys : ℕ
  pub exc_ri : ℕ
  pub cause_get_exccode : ℕ → ℕ
  pub cause_exccode_bit : ℕ
  pub cause_ip : ℕ → ℕ
  pub status_kup : ℕ
  pub status_kup_bit : ℕ
  pub status_te : ℕ
  pub status_te_bit : ℕ
  -- interrupt lines and devices
  pub il_disk : ℕ
  pub il_flash : ℕ
  pub il_ethernet : ℕ
  pub il_printer : ℕ
  pub il_terminal : ℕ
  pub disk_int : ℕ
  pub flash_int : ℕ
  pub netw_int : ℕ
  pub prnt_int : ℕ
  pub term_int : ℕ
  pub dev_il_start : ℕ
  pub dev_reg_start : Addr
  pub dev_reg_size : ℕ
  pub dev_per_int : ℕ
  pub n_dev_per_il : ℕ
  pub dev_int_num : ℕ
  pub ext_il_index : ℕ → ℕ
  pub dev_reg_addr : ℕ → ℕ → Addr
  pub idev_bitmap_addr : ℕ → Addr
  pub cdev_bitmap_addr : ℕ → Addr
  -- the byte offsets of the fields of dtpreg_t, termreg_t and passupvector_t
  pub dtp_status : ℕ
  pub dtp_command : ℕ
  pub dtp_data0 : ℕ
  pub dtp_data1 : ℕ
  pub recv_status : ℕ
  pub recv_command : ℕ
  pub transm_status : ℕ
  pub transm_command : ℕ
  pub tlb_refill_handler : ℕ
  pub tlb_refill_stack_ptr : ℕ
  pub puv_exception_handler : ℕ
  pub exception_stack_ptr : ℕ
  -- device status and commands, and the places in the array that SYS5 is given
  pub ready : ℕ
  pub busy : ℕ
  pub ack : ℕ
  pub status : ℕ
  pub command : ℕ
  pub data0 : ℕ
  pub data1 : ℕ

pub record Env : Type 0 where
  pub globals : Globals
  pub open globals use *
  pub lists : ListOps
  pub open lists use *
  pub hash : HashOps
  pub open hash use *
  pub umps : Umps
  pub open umps use *

-- The table without a node.
abbrev pub unhash : Addr → List (Addr × Addr) → List (Addr × Addr)
unhash n [] = []
unhash n ((a, k) ∷ t) = if a == n then unhash n t else (a, k) ∷ unhash n t

abbrev pub nodes : List (Addr × Addr) → List Addr
nodes [] = []
nodes ((a, k) ∷ t) = a ∷ nodes t

-- The node that was added last under a key, or NULL.
abbrev pub lookup : Addr → List (Addr × Addr) → Addr
lookup key [] = null
lookup key ((a, k) ∷ t) = if k == key then a else lookup key t

-- What the loop over one bucket visits: nodes of the table, and the node of the key among them.
pub record Visits (key : Addr) (t : List (Addr × Addr)) (ns : List Addr) : Type 0 where
  pub sound : (a : Addr) → a ∈ ns → a ∈ nodes t
  pub complete : lookup key t ≢ null → lookup key t ∈ ns

-- What the loop over the table visits: each of its nodes and nothing else.
pub record VisitsAll (t : List (Addr × Addr)) (ns : List Addr) : Type 0 where
  pub sound : (a : Addr) → a ∈ ns → a ∈ nodes t
  pub complete : (a : Addr) → a ∈ nodes t → a ∈ ns

pub data Yields (m : Mem) (Q : List Addr → Type 0) : Run (List Addr) → Type 0 where
  yields : {ns : List Addr} → Q ns → Yields m Q (ok ns m)

abbrev pub set_table : List (Addr × Addr) → Mem → Mem
set_table t m = record m { table = t }

pub record HashLaws (o : HashOps) : Type 0 where
  pub hash_init_lem : (m : Mem) → o.hash_init m ≡ ok tt (set_table [] m)
  pub hash_add_lem :
      (n key : Addr) (m : Mem)
      → n ≢ null
      → n ∉ nodes m.table
      → o.hash_add n key m ≡ ok tt (set_table ((n, key) ∷ m.table) m)
  pub hash_del_lem :
      (n : Addr) (m : Mem) → n ≢ null → o.hash_del n m ≡ ok tt (set_table (unhash n m.table) m)
  pub hash_possible_lem :
      (key : Addr) (m : Mem) → Yields m (Visits key m.table) (o.hash_possible key m)
  pub hash_each_lem : (m : Mem) → Yields m (VisitsAll m.table) (o.hash_each m)

-- What the proofs assume of the libraries.
pub record Laws (e : Env) : Type 0 where
  pub lists : ListLaws e.lists
  pub open lists use *
  pub hash : HashLaws e.hash
  pub open hash use *
