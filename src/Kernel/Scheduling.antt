-- ===== src/Kernel/Scheduling.antt =====
-- schedule of phase2/scheduler.c on any kernel in order: it always leaves the kernel.
use pand_os.Prelude.{◌≡◌, refl, inl, inr, Bool-cases, List, [], ◌∷◌, ap, sym, ◌==◌, ◌∙◌}
use pand_os.Mem.{Addr, null, Mem, Cpu, set_cpu, Exit, halted, panicked, waiting, load_state}
use pand_os.Fields.{p_s}
use pand_os.Outcome.{Exits, exits, Exits-mono}
use pand_os.Env.{Env, Laws}
use pand_os.Scheduler.{schedule}
use pand_os.Scheduler.Ready.{idle_exit, idle_mem, running, schedule-idle}
use pand_os.Invariant.{Layout, Runs}
use pand_os.Invariant.Ready.{schedule-refines}
use pand_os.Invariant.Known.{tail}
use pand_os.Kernel.{Lists, Models, view}

-- How schedule leaves: with the state of the first ready process, or by the idle exits.
abbrev pub next_exit : Mem → List Addr → Exit
next_exit m [] = idle_exit m.process_count m.soft_block_count
next_exit m (p ∷ ps) = load_state (m.state (p_s p))

abbrev pub next_process : List Addr → Addr
next_process [] = null
next_process (p ∷ ps) = p

abbrev pub dequeue : Lists → Lists
dequeue a = record a { ready = tail a.ready }

pub record Scheduled (e : Env) (m : Mem) (a : Lists) (x : Exit) (m' : Mem) : Type 0 where
  pub leaves : x ≡ next_exit m a.ready
  pub current : m'.current_active_process ≡ next_process a.ready
  pub models : Models e m' (dequeue a)
  pub runs : Runs e m'
  pub state : m'.state ≡ m.state
  pub word : m'.word ≡ m.word
  pub time : m'.p_time ≡ m.p_time

module _ (e : Env) (m : Mem) (a : Lists) (i : Models e m a) (eq : a.ready ≡ []) where
  resting-Scheduled :
      (x : Exit) (c : Cpu)
      → x ≡ next_exit m []
      → Scheduled e m a x (set_cpu (λ _. c) (running null m))
  resting-Scheduled x c how =
      let keep : tail a.ready ≡ a.ready = ap tail eq ∙ sym eq in
      record {
        leaves = rw eq how;
        current = rw eq refl;
        models = record { semds = i.semds; holds = rw keep i.holds };
        runs = λ nc. absurd (nc refl);
        state = refl;
        word = refl;
        time = refl;
      }

  idle-Scheduled : Scheduled e m a (next_exit m []) (idle_mem m)
  idle-Scheduled = elim (Bool-cases (m.process_count == 0)) [
    | inl none ↦ simp none (resting-Scheduled halted m.cpu (simp none))
    | inr some ↦ elim (Bool-cases (m.soft_block_count == 0)) [
      | inl stuck ↦ simp (some, stuck) (resting-Scheduled panicked m.cpu (simp (some, stuck)))
      | inr soft ↦ simp (some, soft) (resting-Scheduled waiting _ (simp (some, soft)))
    ]
  ]

module _ (e : Env) (L : Laws e) (o : Layout e) (m : Mem) (a : Lists) (i : Models e m a) where
  schedule-ready_list : (ps : List Addr) → a.ready ≡ ps → Exits (Scheduled e m a) (schedule e m)
  schedule-ready_list [] eq =
      rw (schedule-idle e L m (rw eq at i.holds.ready)) (exits (idle-Scheduled e m a i eq))
  schedule-ready_list (p ∷ ps) eq =
      Exits-mono (schedule-refines e L o m (view a i.semds) i.holds p ps eq) λ x m' w. record {
        leaves = rw eq w.0;
        current = rw eq w.1;
        models = record { semds = i.semds; holds = rw eq w.3 };
        runs = λ _. rw w.1 w.2;
        state = ap (λ z. z.state) w.5;
        word = ap (λ z. z.word) w.5;
        time = ap (λ z. z.p_time) w.4;
      }

  -- On a kernel in order schedule always leaves: where a process is ready, with the state of the
  -- first one, which runs then and is on no list; else it halts, panics or waits as the counters
  -- tell, and no process runs. Every other list, the variables, the saved states and the times of
  -- the processes are as they were.
  pub schedule-Scheduled : Exits (Scheduled e m a) (schedule e m)
  schedule-Scheduled = schedule-ready_list a.ready refl
