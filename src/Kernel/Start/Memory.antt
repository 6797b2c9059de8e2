-- ===== src/Kernel/Start/Memory.antt =====
-- The memory that initDevSems, initPassUpVector and initScheduler leave, and the lists in it.
use pand_os.Prelude.{
  ℕ, zero, suc, ◌+◌, ◌*◌, ◌≡◌, ◌≢◌, inl, inr, refl, false, List, [], arith, ◌==◌, ◌∈◌, upd,
}
use pand_os.Mem.{Addr, null, Mem, relink, set_objects, set_sched, ok}
use pand_os.Fields.{s_freelink, semd_of_freelink}
use pand_os.Links.Rings.{Ring}
use pand_os.Env.{Env, Laws}
use pand_os.Pcb.{mk_empty_proc_q}
use pand_os.Pcb.Start.{blocks}
use pand_os.Devices.{init_sems_loop, init_dev_sems, sem_num, get_dev_sem, get_pseudo_clock_sem}
use pand_os.Scheduler.{init_scheduler}
use pand_os.Boot.{pass_up_vector, kernel_stack, init_pass_up_vector}
use pand_os.Invariant.{IsPcb, IsSemd, Holds}
use pand_os.Kernel.{Lists, view}
use pand_os.Kernel.Start.{IsSpread, block-IsPcb, block-IsSemd}
use pand_os.Kernel.Start.Arrays.{descriptors, mem-blocks, mem-descriptors}

abbrev pub set_words : (Addr → ℕ) → Mem → Mem
set_words w = set_objects (λ b. record b { word = w })

init_sems_loop-words :
    (e : Env) (k i : ℕ) (m : Mem)
    → e.dev_sems ≢ null
    → (w : Addr → ℕ) × (init_sems_loop e k i m ≡ ok tt (set_words w m))
unfolding init_sems_loop
init_sems_loop-words e zero i m ne = (m.word, refl)
init_sems_loop-words e (suc k) i m ne =
    let es : (get_dev_sem e i == null) ≡ false = ground arith in
    let w = upd m.word (get_dev_sem e i) 0 in
    let rest = init_sems_loop-words e k (i + 1) (set_words w m) ne in (rest.0, simp es rest.1)

pub init_dev_sems-words :
    (e : Env) (m : Mem)
    → e.dev_sems ≢ null
    → get_pseudo_clock_sem e ≢ null
    → (w : Addr → ℕ) × (init_dev_sems e m ≡ ok tt (set_words w m))
unfolding init_dev_sems
init_dev_sems-words e m ne nc =
    let first = init_sems_loop-words e (sem_num e) 0 m ne in
    let es : (get_pseudo_clock_sem e == null) ≡ false = ground arith in
    (upd first.0 (get_pseudo_clock_sem e) 0, simp (first.1, es))

pub init_pass_up_vector-words :
    (e : Env) (m : Mem) → (w : Addr → ℕ) × (init_pass_up_vector e m ≡ ok tt (set_words w m))
unfolding init_pass_up_vector
init_pass_up_vector-words e m =
    let a = pass_up_vector + e.tlb_refill_handler in
    let b = pass_up_vector + e.tlb_refill_stack_ptr in
    let c = pass_up_vector + e.puv_exception_handler in
    let d = pass_up_vector + e.exception_stack_ptr in
    let ea : (a == null) ≡ false = ground arith in
    let eb : (b == null) ≡ false = ground arith in
    let ec : (c == null) ≡ false = ground arith in
    let ed : (d == null) ≡ false = ground arith in
    let w =
      upd (upd (upd (upd m.word a e.utlb_refill_handler) b kernel_stack) c e.exception_handler) d
        kernel_stack in
    (w, simp (ea, eb, ec, ed))

-- The variables of scheduler.c at the start.
abbrev pub fresh_sched : Mem → Mem
fresh_sched m =
    set_sched
      (λ _. record {
        process_count = 0;
        soft_block_count = 0;
        current_active_process = null;
        pid_counter = 1;
        start_time = m.clock;
      })
      m

-- A memory of zeroes, at what the start relies on.
pub record IsBlank (e : Env) (m : Mem) : Type 0 where
  pub no_queue : m.next e.ready_queue ≡ null
  pub no_waits : (a : Addr) → m.p_sem_add a ≡ null

-- The lists at the start: every process and every descriptor is free.
abbrev pub start_lists : Env → Lists
start_lists e = record { ready = []; pool = blocks e.pcb_free_table 0 20 []; waiting = λ s. [] }

abbrev pub start_semds : Env → List Addr
start_semds e = descriptors e.semd_free_table 0 20 []

module _ (e : Env) (L : Laws e) (s : IsSpread e) where
  open e use {ready_queue, pcb_free_h, semd_free_h, pcb_free_table, semd_free_table}

  pub init_scheduler-ready :
      (m : Mem)
      → ready_queue ≢ null
      → m.next ready_queue ≡ null
      → init_scheduler e m
        ≡ ok tt (
            relink
              (fresh_sched m)
              (upd m.next ready_queue ready_queue)
              (upd m.prev ready_queue ready_queue))
  unfolding init_scheduler mk_empty_proc_q
  init_scheduler-ready m nr fresh =
      let er : (ready_queue == null) ≡ false = ground arith in
      let miss : (null == ready_queue) ≡ false = ground arith in
      simp (L.empty_lem ready_queue (fresh_sched m), er, fresh, miss)
        (L.init_lem ready_queue (fresh_sched m) nr)

  pub block-mem : (a : Addr) → a ∈ blocks pcb_free_table 0 20 [] → IsPcb e a
  block-mem a j = elim (mem-blocks pcb_free_table 0 20 [] a j) [
    | inl (i, lt, eq) ↦ rw eq (block-IsPcb e s i lt)
    | inr none ↦ absurd (ground (arith, none))
  ]

  pub descriptor-mem :
      (a : Addr)
      → a ∈ start_semds e
      → IsSemd e (semd_of_freelink a) × (s_freelink (semd_of_freelink a) ≡ a)
  descriptor-mem a j = elim (mem-descriptors semd_free_table 0 20 [] a j) [
    | inl (i, lt, eq) ↦
        let back : semd_of_freelink a ≡ semd_free_table + 28 * i = omega arith in
        (rw back (block-IsSemd e s i lt), omega arith)
    | inr none ↦ absurd (ground (arith, none))
  ]

  pub start-Holds :
      (m : Mem)
      → m.table ≡ []
      → ((a : Addr) → m.p_sem_add a ≡ null)
      → Ring m.next m.prev ready_queue []
      → Ring m.next m.prev pcb_free_h (blocks pcb_free_table 0 20 [])
      → Ring m.next m.prev semd_free_h (start_semds e)
      → Holds e m (view (start_lists e) (start_semds e))
  start-Holds m none idle ready pool semds = record {
    keyed = rw none tt;
    ready = ready;
    pool = pool;
    semds = semds;
    known = λ key. rw none λ ne. absurd (ne refl);
    unknown = λ key at. refl;
    ready_pcb = λ a j. absurd (ground (arith, j));
    ready_idle = λ a j. idle a;
    pool_pcb = block-mem;
    pool_idle = λ a j. idle a;
    apart = λ a j. absurd (ground (arith, j));
    free_semd = λ a j. (descriptor-mem a j).0;
    count = rw none refl;
    free_link = λ a j. (descriptor-mem a j).1;
  }
