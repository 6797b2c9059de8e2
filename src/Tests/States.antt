-- ===== src/Tests/States.antt =====
-- A memory with one ready queue, free lists, a process tree and a semaphore that has a waiter.
use pand_os.Prelude.{ℕ, refl, List, [], ◌∷◌, arith, upd}
use pand_os.Mem.{Addr, State, Links, Mem}
use pand_os.Links.Rings.{Ring}
use pand_os.Ash.Find.{IsKeyed}
use pand_os.Ash.Wake.{IsWaiting}
use pand_os.Scheduler.Wake.{IsSeparate}
use pand_os.Interrupt.Semaphores.{set_word}
use pand_os.Instance.{env}

abbrev pub zero_state : State
zero_state = record {
  entry_hi = 0;
  cause = 0;
  status = 0;
  pc_epc = 0;
  gpr = λ r. 0;
  hi = 0;
  lo = 0;
}

-- The links of a list, over others.
abbrev pub chain : Addr → Addr → List Addr → Links → Links
chain h a [] l = record { next = upd l.next a h; prev = upd l.prev h a }
chain h a (x ∷ xs) l = chain h x xs (record { next = upd l.next a x; prev = upd l.prev x a })

abbrev pub no_links : Links
no_links = record { next = λ a. 0; prev = λ a. 0 }

-- The memory that the machine starts with: all zero.
abbrev pub blank : Mem
blank = record {
  links = no_links;
  table = [];
  pcbs = record {
    p_parent = λ p. 0;
    p_time = λ p. 0;
    p_sem_add = λ p. 0;
    p_support_struct = λ p. 0;
    namespaces = λ p i. 0;
    p_pid = λ p. 0;
    p_saved_device_status = λ p. 0;
  };
  objects = record {
    s_key = λ s. 0;
    n_type = λ s. 0;
    state = λ a. zero_state;
    context = λ a. record { stack_ptr = 0; status = 0; pc = 0 };
    word = λ a. 0;
  };
  sched = record {
    process_count = 0;
    soft_block_count = 0;
    current_active_process = 0;
    pid_counter = 0;
    start_time = 0;
  };
  cpu = record { clock = 77; status_reg = 0; cause_reg = 0; local_timer = 0; interval_timer = 0 };
}

-- Processes at 2000 + 192 i; semaphore descriptors at 7000 and 7028.
-- 2000 runs; 2192 and 2384 are ready; 2576 waits on the semaphore at 9000; 2768 and 2960 are free.
-- 2192 and 2384 are the children of 2000.
abbrev pub busy : Mem
busy = record blank {
  links = chain 1000 1000 (2192 ∷ 2384 ∷ []) (
      chain 1008 1008 (2768 ∷ 2960 ∷ []) (
        chain 1016 1016 (7048 ∷ [])
          (chain 7004 7004 (2576 ∷ []) (chain 2012 2012 (2212 ∷ 2404 ∷ []) no_links))));
  table = (7012, 9000) ∷ [];
  pcbs = record blank.pcbs {
    p_parent = upd (upd (λ p. 0) 2192 2000) 2384 2000;
    p_sem_add = upd (λ p. 0) 2576 9000;
    p_pid = upd (upd (upd (upd (λ p. 0) 2000 1) 2192 2) 2384 3) 2576 4;
  };
  objects = record blank.objects { s_key = upd (λ s. 0) 7000 9000 };
  sched = record {
    process_count = 4;
    soft_block_count = 0;
    current_active_process = 2000;
    pid_counter = 5;
    start_time = 5;
  };
}

pub ready-Ring : Ring busy.next busy.prev 1000 (2192 ∷ 2384 ∷ [])
ready-Ring = record { links = omega arith; apart = (refl, (refl, (refl, tt))); mapped = refl }

pub free-Ring : Ring busy.next busy.prev 1008 (2768 ∷ 2960 ∷ [])
free-Ring = record { links = omega arith; apart = (refl, (refl, (refl, tt))); mapped = refl }

pub semds-Ring : Ring busy.next busy.prev 1016 (7048 ∷ [])
semds-Ring = record { links = omega arith; apart = (refl, (refl, tt)); mapped = refl }

pub blocked-Ring : Ring busy.next busy.prev 7004 (2576 ∷ [])
blocked-Ring = record { links = omega arith; apart = (refl, (refl, tt)); mapped = refl }

pub children-Ring : Ring busy.next busy.prev 2012 (2212 ∷ 2404 ∷ [])
children-Ring = record { links = omega arith; apart = (refl, (refl, (refl, tt))); mapped = refl }

pub busy-IsKeyed : IsKeyed busy.s_key busy.table
busy-IsKeyed = (refl, refl, refl, refl, tt)

pub busy-IsWaiting : IsWaiting env busy 9000 7000 (2576 ∷ []) (7048 ∷ [])
busy-IsWaiting = record {
  keyed = busy-IsKeyed;
  key_mapped = omega arith;
  sem_mapped = omega arith;
  found = refl;
  queue = blocked-Ring;
  free = semds-Ring;
  apart = λ a i. ground arith;
  in_use = refl;
  waiting = λ a i. ground arith;
}

pub busy-IsSeparate : IsSeparate env 7000 (2192 ∷ 2384 ∷ []) (2576 ∷ []) (7048 ∷ [])
busy-IsSeparate = λ a i. ground arith

-- The same with another value of the semaphore.
abbrev pub with_word : ℕ → Mem
with_word v = set_word 9000 v busy

-- The same with nothing ready.
abbrev pub quiet : Mem
quiet = record busy { links = chain 1000 1000 [] no_links }

pub quiet-Ring : Ring quiet.next quiet.prev 1000 []
quiet-Ring = record { links = omega arith; apart = (refl, tt); mapped = refl }

-- The same with no free semaphore descriptor.
abbrev pub full : Mem
full = record busy { links = chain 1016 1016 [] no_links }

pub full-Ring : Ring full.next full.prev 1016 []
full-Ring = record { links = omega arith; apart = (refl, tt); mapped = refl }

pub word-IsWaiting : IsWaiting env (with_word 1) 9000 7000 (2576 ∷ []) (7048 ∷ [])
word-IsWaiting = record {
  keyed = busy-IsKeyed;
  key_mapped = omega arith;
  sem_mapped = omega arith;
  found = refl;
  queue = blocked-Ring;
  free = semds-Ring;
  apart = λ a i. ground arith;
  in_use = refl;
  waiting = λ a i. ground arith;
}
