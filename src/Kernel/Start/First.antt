-- ===== src/Kernel/Start/First.antt =====
-- The first process of initKernel in phase2/main.c.
use pand_os.Prelude.{◌≡◌, ◌≢◌, refl, ap, ◌∙◌, sym, false, List, [], ◌∷◌, arith, ◌==◌}
use pand_os.Mem.{Addr, null, Mem, Exit, load_state}
use pand_os.Fields.{p_s}
use pand_os.Outcome.{Returns, returns, Exits, Exits-mono, Returns-bind}
use pand_os.Env.{Env, Laws}
use pand_os.Scheduler.{schedule, increment_process_count, get_new_pid}
use pand_os.Invariant.Pool.{alloc_pcb-refines}
use pand_os.Invariant.Ready.{enqueued, schedule-refines}
use pand_os.Kernel.Waking.{enqueue_ready-loose}
use pand_os.Kernel.Steps.{InOrder}
use pand_os.Boot.{create_first, start_status}
use pand_os.Invariant.{Layout, View, Holds}

-- The first process stands on the ready queue, about to run from `pc`, and nothing else is changed.
pub record Ready (e : Env) (v : View) (p pc : Addr) (m : Mem) : Type 0 where
  pub holds : Holds e m (enqueued p v)
  pub current : m.current_active_process ≡ null
  pub entry : (m.state (p_s p)).pc_epc ≡ pc
  pub interrupts : (m.state (p_s p)).status ≡ start_status

-- What main leaves the kernel with.
pub record Launched (e : Env) (pc : Addr) (x : Exit) (m : Mem) : Type 0 where
  pub leaves : x ≡ load_state (m.state (p_s m.current_active_process))
  pub entry : (m.state (p_s m.current_active_process)).pc_epc ≡ pc
  pub interrupts : (m.state (p_s m.current_active_process)).status ≡ start_status
  pub in_order : InOrder e m
  pub runs : m.current_active_process ≢ null

module _ (e : Env) (L : Laws e) (o : Layout e) where
  pub create_first-Ready :
      (m : Mem) (v : View) (p pc : Addr) (ps : List Addr)
      → Holds e m v
      → v.pool ≡ p ∷ ps
      → m.current_active_process ≡ null
      → Returns (λ _. Ready e (record v { pool = ps }) p pc) (create_first e pc m)
  unfolding create_first increment_process_count get_new_pid
  create_first-Ready m v p pc ps i eq none =
      Returns-bind (alloc_pcb-refines e L o m v i p ps eq) λ q m1 w.
        let l = w.2 in
        let ep : (p == null) ≡ false = ground (arith, l) in
        let free : p ≢ m1.current_active_process =
          λ same. l.0 (same ∙ ap (λ z. z.current_active_process) w.4 ∙ none) in
        simp (w.0, ep)
          (Returns-bind (enqueue_ready-loose e L o m1 (record v { pool = ps }) w.1 p l free)
            λ x m2 z. simp ep (
              returns (record {
                holds = z.0;
                current = ap (λ y. y.current_active_process) (z.2.0 ∙ w.4) ∙ none;
                entry = ground arith;
                interrupts = ground arith;
              })))

  pub schedule-Launched :
      (m : Mem) (v : View) (p pc : Addr)
      → v.ready ≡ []
      → Ready e v p pc m
      → Exits (Launched e pc) (schedule e m)
  schedule-Launched m v p pc eq r =
      Exits-mono (schedule-refines e L o m (enqueued p v) r.holds p [] (rw eq refl)) λ x m' w.
        let same : m'.state (p_s m'.current_active_process) ≡ m.state (p_s p) =
          rw w.1 (ap (λ z. z.state (p_s p)) w.5) in
        record {
          leaves = rw same w.0;
          entry = rw same r.entry;
          interrupts = rw same r.interrupts;
          in_order = record {
            lists = record { ready = []; pool = v.pool; waiting = v.waiting };
            models = record { semds = v.semds; holds = w.3 };
            runs = λ _. rw w.1 w.2;
          };
          runs = λ none. w.2.0 (sym w.1 ∙ none);
        }
