-- ===== src/Kernel/Entry.antt =====
-- A SYSCALL from its exception on: exceptionHandler of phase2/exception.c charges the time,
-- syscallHandler of phase2/syscall.c steps over the instruction and calls the operation, and the state
-- saved at BIOSDATAPAGE is loaded where the process goes on.
use pand_os.Prelude.{
  ℕ, ◌≡◌, ◌≢◌, true, false, ◌⊎◌, inl, inr, ◌||◌, ◌/◌, ◌^◌, arith, ◌==◌, bit_and, upd, ap, ◌∙◌,
}
use pand_os.Mem.{
  Addr, null, State, Mem, set_pcbs, set_objects, Exit, load_state, Run, Proc, ok, exit, and_then,
  ◌>>=◌,
}
use pand_os.Fields.{get_state}
use pand_os.Outcome.{Exits, exits, comes_back, leaves}
use pand_os.Words.{add32, sub32}
use pand_os.Env.{Env, Laws}
use pand_os.Processes.{bios_data_page}
use pand_os.Syscall.{word_len, dispatch, syscall_handler}
use pand_os.Exception.{charge_time, exception_handler}
use pand_os.Invariant.{Layout, Runs}
use pand_os.Kernel.{Lists, Models, Effect, Shows, passeren_spec, verhogen_spec}
use pand_os.Kernel.Scheduling.{Scheduled}
use pand_os.Kernel.Calls.{waits_with, Called, dispatch-passeren, dispatch-verhogen}
use pand_os.Kernel.Steps.{IsOperation, is_passeren, is_verhogen, IsCalling}

-- The exception is a SYSCALL in kernel mode.
pub record IsSyscall (e : Env) (m : Mem) (s : State) : Type 0 where
  pub no_interrupt : (e.cause_get_exccode s.cause == e.exc_int) ≡ false
  pub no_fault :
      (e.cause_get_exccode s.cause == e.exc_mod
        || e.cause_get_exccode s.cause == e.exc_tlbl
        || e.cause_get_exccode s.cause == e.exc_tlbs)
      ≡ false
  pub syscall : (e.cause_get_exccode s.cause == e.exc_sys) ≡ true
  pub kernel_mode : (bit_and m.status_reg e.status_kup / 2 ^ e.status_kup_bit == 0) ≡ true

-- The state with the program counter behind the instruction.
abbrev pub advanced : State → State
advanced s = record s { pc_epc = add32 s.pc_epc word_len }

abbrev pub stepped : Mem → Mem
stepped m =
    set_objects
      (λ b. record b { state = upd b.state bios_data_page (advanced (b.state bios_data_page)) }) m

-- The time since the process was loaded is charged to it.
abbrev pub charged : Mem → Mem
charged m =
    set_pcbs
      (λ b. record b {
        p_time =
            upd b.p_time m.current_active_process
              (add32 (b.p_time m.current_active_process) (sub32 m.clock m.start_time));
      })
      m

-- The end of both handlers.
abbrev pub reload : Proc
reload = do final ← get_state bios_data_page; exit (load_state final)

-- What SYS3 and SYS4 promise.
abbrev pub promised :
    {number : ℕ} → IsOperation number → (c s : Addr) (word : Addr → ℕ) → Lists → Effect
promised is_passeren c s word a = passeren_spec c s word a
promised is_verhogen c s word a = verhogen_spec c s word a

-- The process goes on with that state, or waits with it, and the next ready process runs.
abbrev pub Answered : (e : Env) → Mem → State → Effect → Exit → Mem → Type 0
Answered e m s x y m' =
    ((x.blocked ≡ 0) × Shows e m x 0 m' × (y ≡ load_state s))
    ⊎ ((x.blocked ≡ 1) × Scheduled e (waits_with bios_data_page m x) x.lists y m')

module _ (e : Env) where
  syscall_handler-dispatch :
      (m : Mem)
      → (bit_and m.status_reg e.status_kup / 2 ^ e.status_kup_bit == 0) ≡ true
      → syscall_handler e bios_data_page m
        ≡ and_then
            (dispatch e bios_data_page
              (advanced (m.state bios_data_page))
              ((m.state bios_data_page).gpr e.reg_a0)
              (stepped m))
            (λ _. reload)
  unfolding syscall_handler
  syscall_handler-dispatch m kernel = simp kernel

  charge_time-charged :
      (m : Mem) → m.current_active_process ≢ null → charge_time m ≡ ok tt (charged m)
  unfolding charge_time
  charge_time-charged m nc =
      let ec : (m.current_active_process == null) ≡ false = ground arith in simp ec

  -- A SYSCALL of a process that runs leads to the operation, and the saved state is loaded where the
  -- operation comes back.
  pub exception_handler-dispatch :
      (m : Mem)
      → IsSyscall e m (m.state bios_data_page)
      → m.current_active_process ≢ null
      → exception_handler e m
        ≡ and_then
            (and_then
              (dispatch e bios_data_page
                (advanced (m.state bios_data_page))
                ((m.state bios_data_page).gpr e.reg_a0)
                (stepped (charged m)))
              (λ _. reload))
            (λ _. reload)
  unfolding exception_handler
  exception_handler-dispatch m c nc =
      simp (charge_time-charged m nc, c.no_interrupt, c.no_fault, c.syscall)
        (ap (λ r. and_then r (λ _. reload)) (syscall_handler-dispatch (charged m) c.kernel_mode))

  Called-Answered :
      (m : Mem) (s : State) (x : Effect) (r : Run (Unit {0}))
      → m.state bios_data_page ≡ s
      → Called e bios_data_page m x r
      → Exits (Answered e m s x) (and_then (and_then r (λ _. reload)) (λ _. reload))
  Called-Answered m s x r at (comes_back (zero, w)) =
      exits (inl (zero, w, ap (λ f. load_state (f bios_data_page)) w.state ∙ ap load_state at))
  Called-Answered m s x r at (leaves (one, w)) = exits (inr (one, w))

module _ (e : Env) (L : Laws e) (o : Layout e) (m : Mem) (a : Lists) (i : Models e m a)
    (runs : Runs e m) where
  abbrev s0 : State
  s0 = m.state bios_data_page

  operation-Called :
      (number : ℕ) (op : IsOperation number) (m1 : Mem)
      → Models e m1 a
      → Runs e m1
      → (st : State) → IsCalling e m1 st
      → Called e bios_data_page m1
          (promised op m1.current_active_process (st.gpr e.reg_a1) m1.word a)
          (dispatch e bios_data_page st number m1)
  operation-Called number is_passeren m1 i1 runs1 st c =
      dispatch-passeren e L o bios_data_page (omega arith) m1 c.current a i1 runs1 st c.semaphore
  operation-Called number is_verhogen m1 i1 runs1 st c =
      dispatch-verhogen e L o bios_data_page (omega arith) m1 c.current a i1 runs1 st c.semaphore

  -- In a kernel in order, an exception by a SYSCALL in kernel mode, of SYS3 or SYS4 on a semaphore
  -- that is not at NULL, charges the time to the process that runs and does what the operation
  -- promises: the saved state is loaded again with the program counter behind the instruction, or
  -- the process waits with that state saved and the next ready process runs.
  pub exception_handler-Answered :
      IsSyscall e m s0
      → (op : IsOperation (s0.gpr e.reg_a0)) → IsCalling e m s0
      → Exits
          (Answered e
            (stepped (charged m))
            (advanced s0)
            (promised op m.current_active_process (s0.gpr e.reg_a1) m.word a))
          (exception_handler e m)
  exception_handler-Answered c op calling =
      let m1 = stepped (charged m) in
      rw (exception_handler-dispatch e m c calling.current) (
        Called-Answered e m1 (advanced s0) _ _ (ground arith) (
          operation-Called (s0.gpr e.reg_a0) op m1 (record { semds = i.semds; holds = i.holds })
            runs (advanced s0)
            (record { current = calling.current; semaphore = calling.semaphore })))
