-- ===== src/Kernel/Calls.antt =====
-- SYS3 and SYS4 in syscallHandler of phase2/syscall.c: the operation, and the switch to another
-- process where it blocks.
use pand_os.Prelude.{
  ℕ, ◌≡◌, ◌≢◌, refl, false, ◌⊎◌, inl, inr, Bool-cases, List, [], ◌∷◌, arith, ap, ◌==◌, ◌∙◌,
  if◌then◌else◌, upd,
}
use pand_os.Mem.{Addr, null, State, Mem, set_objects, Exit, load_state, Run, Proc, done, ◌>>◌}
use pand_os.Fields.{p_s}
use pand_os.Outcome.{Ends, comes_back, Returns-end, Exits-end}
use pand_os.Env.{Env, Laws}
use pand_os.Scheduler.{schedule}
use pand_os.Scheduler.Ready.{idle_exit}
use pand_os.Syscall.{passeren_sys, verhogen_sys, save_state, dispatch}
use pand_os.Invariant.{Layout, Runs}
use pand_os.Kernel.{Lists, Models, Effect, Shows, passeren_spec, verhogen_spec, release}
use pand_os.Kernel.Semaphores.{passeren-refines, verhogen-refines}
use pand_os.Kernel.Scheduling.{Scheduled, next_exit, schedule-Scheduled}

-- The memory with the saved state of a process.
abbrev pub saved : (exc_state p : Addr) → Mem → Mem
saved exc_state p m =
    set_objects (λ b. record b { state = upd b.state (p_s p) (m.state exc_state) }) m

-- The memory with the variables and the saved state that a process which blocks leaves.
abbrev pub waits_with : (exc_state : Addr) → Mem → Effect → Mem
waits_with exc_state m x =
    set_objects (λ b. record b { word = x.word }) (saved exc_state m.current_active_process m)

-- Only the counters, the variables, the saved states and the times matter to what schedule leaves.
pub Scheduled-same :
    {e : Env} {m1 : Mem} {x : Exit} {m' : Mem} (m : Mem) (a : Lists)
    → Scheduled e m1 a x m'
    → m1.sched ≡ m.sched
    → m1.state ≡ m.state
    → m1.word ≡ m.word
    → m1.p_time ≡ m.p_time
    → Scheduled e m a x m'
Scheduled-same {m1} m a s same same' words times = record {
  leaves = s.leaves ∙ exits a.ready;
  current = s.current;
  models = s.models;
  runs = s.runs;
  state = s.state ∙ same';
  word = s.word ∙ words;
  time = s.time ∙ times;
}
  where
    exits : (ps : List Addr) → next_exit m1 ps ≡ next_exit m ps
    exits [] = ap (λ z. idle_exit z.process_count z.soft_block_count) same
    exits (p ∷ ps) = ap (λ z. load_state (z (p_s p))) same'

-- What is after a call: it comes back where the process was not blocked, else the next process runs,
-- with the state of the blocked one saved in it.
abbrev pub Called : (e : Env) (exc_state : Addr) → Mem → Effect → Run (Unit {0}) → Type 0
Called e exc_state m x =
    Ends (λ m'. (x.blocked ≡ 0) × Shows e m x 0 m')
      (λ y m'. (x.blocked ≡ 1) × Scheduled e (waits_with exc_state m x) x.lists y m')

module _ (e : Env) (L : Laws e) (o : Layout e) (exc_state : Addr) (ne : exc_state ≢ null) (m : Mem)
    (nc : m.current_active_process ≢ null) where
  -- What follows the operation in the switch.
  abbrev after_call : ℕ → Proc
  after_call blocked = if blocked == 0 then done else do save_state exc_state; schedule e

  after_call-Called :
      (x : Effect) (blocked : ℕ) (m1 : Mem)
      → (x.blocked ≡ 0) ⊎ (x.blocked ≡ 1)
      → Shows e m x blocked m1
      → Called e exc_state m x (after_call blocked m1)
  after_call-Called x blocked m1 (inl zero) w =
      let b : blocked ≡ 0 = w.answer ∙ zero in rw b (comes_back (zero, rw b at w))
  after_call-Called x blocked m1 (inr one) w =
      let b : blocked ≡ 1 = w.answer ∙ one in
      let same : m1.current_active_process ≡ m.current_active_process =
        ap (λ z. z.current_active_process) w.sched in
      let en : (exc_state == null) ≡ false = ground arith in
      let ec : (m1.current_active_process == null) ≡ false = ground arith in
      let m2 = saved exc_state m1.current_active_process m1 in
      rw b (
        simp (en, ec)
          (Exits-end
            (schedule-Scheduled e L o m2 x.lists
              (record { semds = w.models.semds; holds = w.models.holds }))
            λ y m' s. (
              one,
              Scheduled-same (waits_with exc_state m x) x.lists s w.sched (rw (same, w.state) refl)
                  w.word w.time,
            )))

release-passes :
    (s value : ℕ) (word : Addr → ℕ) (a : Lists) (ps : List Addr)
    → (release s value word a ps).blocked ≡ 0
release-passes s value word a [] = refl
release-passes s value word a (p ∷ ps) = refl

passeren_spec-blocked :
    (c s : Addr) (word : Addr → ℕ) (a : Lists)
    → ((passeren_spec c s word a).blocked ≡ 0) ⊎ ((passeren_spec c s word a).blocked ≡ 1)
unfolding passeren_spec
passeren_spec-blocked c s word a = elim (Bool-cases (word s == 0)) [
  | inl down ↦ inr (simp down)
  | inr up ↦ inl (simp up (release-passes s _ word a (a.waiting s)))
]

verhogen_spec-blocked :
    (c s : Addr) (word : Addr → ℕ) (a : Lists)
    → ((verhogen_spec c s word a).blocked ≡ 0) ⊎ ((verhogen_spec c s word a).blocked ≡ 1)
unfolding verhogen_spec
verhogen_spec-blocked c s word a = elim (Bool-cases (word s == 1)) [
  | inl up ↦ inr (simp up)
  | inr down ↦ inl (simp down (release-passes s _ word a (a.waiting s)))
]

module _ (e : Env) (L : Laws e) (o : Layout e) (exc_state : Addr) (ne : exc_state ≢ null) (m : Mem)
    (nc : m.current_active_process ≢ null) (a : Lists) (i : Models e m a) (runs : Runs e m)
    (st : State) (ns : st.gpr e.reg_a1 ≢ null) where
  -- In a kernel in order, SYS3 of the process that runs does what it promises on the semaphore in
  -- its register: it comes back, or the process waits with its state saved and the next ready
  -- process runs; the other saved states and the times of the processes are as they were. It never
  -- fails, and no descriptor is missing.
  pub dispatch-passeren :
      Called e exc_state m
        (passeren_spec m.current_active_process (st.gpr e.reg_a1) m.word a)
        (dispatch e exc_state st passeren_sys m)
  unfolding dispatch
  dispatch-passeren =
      Returns-end _ (passeren-refines e L o m a i runs (st.gpr e.reg_a1) ns nc)
        λ b m1 w. after_call-Called e L o exc_state ne m nc _ b m1 (passeren_spec-blocked _ _ _ a) w

  -- In a kernel in order, SYS4 of the process that runs does what it promises on the semaphore in
  -- its register: it comes back, or the process waits with its state saved and the next ready
  -- process runs; the other saved states and the times of the processes are as they were. It never
  -- fails, and no descriptor is missing.
  pub dispatch-verhogen :
      Called e exc_state m
        (verhogen_spec m.current_active_process (st.gpr e.reg_a1) m.word a)
        (dispatch e exc_state st verhogen_sys m)
  unfolding dispatch
  dispatch-verhogen =
      Returns-end _ (verhogen-refines e L o m a i runs (st.gpr e.reg_a1) ns nc)
        λ b m1 w. after_call-Called e L o exc_state ne m nc _ b m1 (verhogen_spec-blocked _ _ _ a) w
