-- ===== src/Kernel/Family/Ending.antt =====
-- terminateProcess of phase2/syscall.c, as SYS2 calls it and as passUpOrDie of phase2/exception.c
-- does: a process ends with all its progeny, and the next one runs.
use pand_os.Prelude.{
  ℕ, ◌+◌, ◌^◌, ◌≤◌, ◌<◌, ◌≡◌, ◌≢◌, inl, inr, false, true, ◌||◌, ◌∷◌, arith, ◌==◌, ◌∉◌, length, ap,
  Bool-cases,
}
use pand_os.Mem.{Addr, null, State, Mem, Exit}
use pand_os.Outcome.{Returns-exit, Exits, Exits-mono, Exits-bind}
use pand_os.Env.{Env, Laws}
use pand_os.Processes.{
  pandos_assert, pg_fault_except, general_except, terminate_process, pass_up_or_die,
}
use pand_os.Syscall.{term_process_sys, dispatch}
use pand_os.Invariant.{Layout, IsPcb, IsLoose}
use pand_os.Invariant.Bounds.{Distinct-length}
use pand_os.Invariant.Places.{not_mem-of}
use pand_os.Ns.{tree_steps}
use pand_os.Kernel.{Lists, Models}
use pand_os.Kernel.Scheduling.{Scheduled, schedule-Scheduled}
use pand_os.Kernel.Search.{IsNamed, find_pcb-IsNamed}
use pand_os.Kernel.Family.{Forest, nodes, Settled, bury, bury_all}
use pand_os.Kernel.Family.Detach.{IsProgeny, Ended}
use pand_os.Kernel.Family.Progeny.{terminate_tree-Ended}
use pand_os.Kernel.Family.Cut.{
  Above, nobody, child_of, IsAbove, IsLeft, IsLeft-Spares, Rooted, out_child-Rooted,
}

-- A process `p` that is ready, on no list, or waits, its progeny `f` and its parent; all of them are
-- counted.
pub record IsTarget (e : Env) (m : Mem) (a : Lists) (p : Addr) (f : Forest) (up : Above)
    : Type 0 where
  pub mapped : p ≢ null
  pub is_pcb : IsPcb e p
  pub settled : Settled e m a p
  pub progeny : IsProgeny e m a p f
  pub above : IsAbove e m p f up
  pub counted : length (p ∷ nodes f) ≤ m.process_count
  pub fits : m.process_count < 2 ^ 32

-- The process and its progeny are free, all of them have been counted off, the parent has its other
-- children, and every other loose process stays loose.
pub record Gone (e : Env) (m : Mem) (a : Lists) (p : Addr) (f : Forest) (up : Above) (m' : Mem)
    : Type 0 where
  pub models : Models e m' (bury p (bury_all f a))
  pub count : m'.process_count + length (p ∷ nodes f) ≡ m.process_count
  pub left : IsLeft m' p up
  pub loose : (c : Addr) → c ∉ p ∷ nodes f → IsLoose e m c → IsLoose e m' c

-- They are gone, and schedule has left the kernel then.
abbrev pub Terminated : Env → Mem → Lists → Addr → Forest → Above → Exit → Mem → Type 0
Terminated e m a p f up x m' =
    (m1 : Mem) × Gone e m a p f up m1 × Scheduled e m1 (bury p (bury_all f a)) x m'

IsLeft-Ended :
    (e : Env) (m : Mem) (a : Lists) (p : Addr) (f : Forest) (up : Above) (m1 m2 : Mem)
    → IsTarget e m a p f up
    → Rooted e m a p f up m1
    → Ended e m1 a p f m2
    → IsLeft m2 p up
IsLeft-Ended e m a p f nobody m1 m2 t r ended = tt
IsLeft-Ended e m a p f (child_of q ys) m1 m2 t r ended =
    let off = t.above.apart in
    IsLeft-Spares e m p f q ys t.above m1 m2 r.left ended.spares
      (ground (arith, t.above.other, not_mem-of q (nodes f) λ i. ground (arith, off q i)))
      λ y i ne. ground (arith, ne, not_mem-of y (nodes f) λ j. ground (arith, off y j, i))

module _ (e : Env) (L : Laws e) (o : Layout e) (m : Mem) (a : Lists) (i : Models e m a) (p : Addr)
    (f : Forest) (up : Above) (t : IsTarget e m a p f up) where
  -- terminateProcess of a process that runs, is ready or waits, in a kernel in order: the process and
  -- all its progeny, of any shape, leave the ready queue, the semaphores and the tree and are free;
  -- as many are counted off; the parent keeps its other children; the other lists are as they were,
  -- and the next ready process runs.
  pub terminate_process-Terminated : Exits (Terminated e m a p f up) (terminate_process e p m)
  unfolding terminate_process
  terminate_process-Terminated =
      let few = Distinct-length e (p ∷ nodes f) t.progeny.distinct λ x j.
        elim (Bool-cases (x == p)) [
          | inl hit ↦ let eq : x ≡ p = ground arith in rw eq t.is_pcb.0
          | inr miss ↦ (t.progeny.placed x (ground arith)).0.0
        ] in
      Returns-exit
        (out_child-Rooted e L o m a p f up i t.mapped t.is_pcb t.settled t.progeny t.above)
        λ _ m1 r.
          Returns-exit
            (terminate_tree-Ended e L o tree_steps m1 a p f (omega (arith, few)) r.models t.mapped
              t.is_pcb r.settled r.progeny)
            λ _ m2 ended.
              Exits-mono (schedule-Scheduled e L o m2 (bury p (bury_all f a)) ended.models)
                λ x m' s. (
                  m2,
                  record {
                    models = ended.models;
                    count =
                        let same : m1.process_count ≡ m.process_count =
                          ap (λ z. z.process_count) r.sched in
                        let low = t.counted in
                        let high = t.fits in
                        let eq = ended.count (omega arith) (omega arith) in omega arith;
                    left = IsLeft-Ended e m a p f up m1 m2 t r ended;
                    loose = λ c out l. ended.spares.loose c out (r.loose c l);
                  },
                  s,
                )

  -- In a kernel in order, passUpOrDie, with either kind of exception, of a process that runs
  -- without a support structure ends it with all its progeny, as SYS2 does, and the next ready
  -- process runs.
  pub pass_up_or_die-Terminated :
      (code : ℕ)
      → (code == pg_fault_except || code == general_except) ≡ true
      → m.current_active_process ≡ p
      → m.p_support_struct p ≡ null
      → Exits (Terminated e m a p f up) (pass_up_or_die e code m)
  unfolding pass_up_or_die pandos_assert
  pass_up_or_die-Terminated code known runs none =
      let np = t.mapped in
      let ep : (p == null) ≡ false = ground arith in
      simp (known, runs, ep, none) (Exits-bind _ terminate_process-Terminated)

  -- In a kernel in order, SYS2 with 0, or with the identifier that a process alone has among the
  -- ready and waiting ones, ends the running or named process with all its progeny, of any depth:
  -- they leave the ready queue, the semaphores' queues and the tree and are free, as many processes
  -- are counted off, the parent keeps its other children, every other list is as it was, and the
  -- next ready process runs; no loop runs out of its bound.
  pub dispatch-Terminated :
      (exc_state : Addr) (st : State)
      → IsNamed m a (st.gpr e.reg_a1) p
      → Exits (Terminated e m a p f up) (dispatch e exc_state st term_process_sys m)
  unfolding dispatch
  dispatch-Terminated exc_state st named =
      rw (find_pcb-IsNamed e L m a i (st.gpr e.reg_a1) p named) terminate_process-Terminated
