-- ===== src/Mem.antt =====
-- The kernel's memory and the machine's registers, and commands over them.
-- Addresses, machine words and counters are natural numbers. Every struct field of
-- pandos/phase1/include/pandos_types.h and types.h is one map from the address of the struct.
use pand_os.Prelude.{ℕ, List, ◌==◌, if◌then◌else◌, upd}

abbrev pub Addr : Type 0
Addr = ℕ

abbrev pub null : Addr
null = 0

-- `state_t` of the machine, at the fields that the kernel uses.
pub record State : Type 0 where
  pub entry_hi : ℕ
  pub cause : ℕ
  pub status : ℕ
  pub pc_epc : ℕ
  pub gpr : ℕ → ℕ
  pub hi : ℕ
  pub lo : ℕ

-- `context_t`
pub record Context : Type 0 where
  pub stack_ptr : ℕ
  pub status : ℕ
  pub pc : ℕ

-- struct list_head
pub record Links : Type 0 where
  pub next : Addr → Addr
  pub prev : Addr → Addr

-- struct pcb_t, without its list heads and `p_s`
pub record Pcbs : Type 0 where
  pub p_parent : Addr → Addr
  pub p_time : Addr → ℕ
  pub p_sem_add : Addr → Addr
  pub p_support_struct : Addr → Addr
  pub namespaces : Addr → ℕ → Addr
  pub p_pid : Addr → ℕ
  pub p_saved_device_status : Addr → Addr

pub record Objects : Type 0 where
  -- struct semd_t and struct nsd_t, without their links
  pub s_key : Addr → Addr
  pub n_type : Addr → ℕ
  -- every `state_t` and `context_t`, by its address
  pub state : Addr → State
  pub context : Addr → Context
  -- int variables and arrays, semaphores and device registers
  pub word : Addr → ℕ

-- the variables of scheduler.c
pub record Sched : Type 0 where
  pub process_count : ℕ
  pub soft_block_count : ℕ
  pub current_active_process : Addr
  pub pid_counter : ℕ
  pub start_time : ℕ

-- the processor: what STCK reads, STATUS and CAUSE, the local timer and the interval timer
pub record Cpu : Type 0 where
  pub clock : ℕ
  pub status_reg : ℕ
  pub cause_reg : ℕ
  pub local_timer : ℕ
  pub interval_timer : ℕ

pub record Mem : Type 0 where
  pub links : Links
  pub open links use *
  -- the nodes of the hash table `semd_h` with the keys that they were added under, newest first
  pub table : List (Addr × Addr)
  pub pcbs : Pcbs
  pub open pcbs use *
  pub objects : Objects
  pub open objects use *
  pub sched : Sched
  pub open sched use *
  pub cpu : Cpu
  pub open cpu use *

abbrev pub set_next : Addr → Addr → Mem → Mem
set_next p v m = record m { links = record m.links { next = upd m.next p v } }

abbrev pub set_prev : Addr → Addr → Mem → Mem
set_prev p v m = record m { links = record m.links { prev = upd m.prev p v } }

abbrev pub relink : Mem → (Addr → Addr) → (Addr → Addr) → Mem
relink m n v = record m { links = record { next = n; prev = v } }

abbrev pub set_pcbs : (Pcbs → Pcbs) → Mem → Mem
set_pcbs f m = record m { pcbs = f m.pcbs }

abbrev pub set_objects : (Objects → Objects) → Mem → Mem
set_objects f m = record m { objects = f m.objects }

abbrev pub set_sched : (Sched → Sched) → Mem → Mem
set_sched f m = record m { sched = f m.sched }

abbrev pub set_cpu : (Cpu → Cpu) → Mem → Mem
set_cpu f m = record m { cpu = f m.cpu }

-- How the kernel leaves the processor: the calls that do not return.
pub data Exit : Type 0 where
  halted : Exit
  waiting : Exit
  panicked : Exit
  load_state : State → Exit
  load_context : Context → Exit

-- `fault` is an access through NULL. `out_of_fuel` is a loop that ran past its bound.
pub data Run (A : Type 0) : Type 0 where
  ok : A → Mem → Run A
  exit : Exit → Mem → Run A
  fault : Run A
  out_of_fuel : Run A

abbrev pub Cmd : Type 0 → Type 0
Cmd A = Mem → Run A

abbrev pub Proc : Type 0
Proc = Cmd (Unit {0})

abbrev pub pure : {A : Type 0} → A → Cmd A
pure = ok

abbrev pub done : Proc
done = ok tt

module _ {A B : Type 0} where
  abbrev pub and_then : Run A → (A → Cmd B) → Run B
  and_then (ok a m) k = k a m
  and_then (exit e m) k = exit e m
  and_then fault k = fault
  and_then out_of_fuel k = out_of_fuel

  infixl 5 ◌>>=◌ ◌>>◌
  abbrev pub ◌>>=◌ : Cmd A → (A → Cmd B) → Cmd B
  c >>= k = λ m. and_then (c m) k

  abbrev pub ◌>>◌ : Cmd A → Cmd B → Cmd B
  c >> d = c >>= λ _. d

abbrev pub gets : {A : Type 0} → (Mem → A) → Cmd A
gets f m = ok (f m) m

abbrev pub modify : (Mem → Mem) → Proc
modify f m = ok tt (f m)

-- A read or a write through a pointer, which must not be NULL.
abbrev pub read : {A : Type 0} → (Mem → Addr → A) → Addr → Cmd A
read f p m = if p == null then fault else ok (f m p) m

abbrev pub write : Addr → (Mem → Mem) → Proc
write p f m = if p == null then fault else ok tt (f m)

abbrev pub exits : {A : Type 0} → Exit → Cmd A
exits = exit
