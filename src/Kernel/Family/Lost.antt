-- ===== src/Kernel/Family/Lost.antt =====
-- SYS2 of phase2/syscall.c with an argument that names another process than the caller, or none.
use pand_os.Prelude.{ℕ, suc, ◌≡◌, ◌≢◌, refl, false, List, [], ◌∷◌, arith, ◌==◌, ◌∉◌, sym, ◌∙◌}
use pand_os.Mem.{Addr, null, State, Mem, fault}
use pand_os.Outcome.{Exits, Exits-mono}
use pand_os.Env.{Env, Laws}
use pand_os.Pcb.Tree.{out_child-null, remove_child-null}
use pand_os.Processes.{release_process, terminate_tree, terminate_process}
use pand_os.Syscall.{term_process_sys, dispatch}
use pand_os.Invariant.{Layout, IsLoose, Runs}
use pand_os.Invariant.Known.{tail}
use pand_os.Invariant.Places.{detached-outside, not_mem-of}
use pand_os.Invariant.Waking.{waiting-blocked, waiting-mapped}
use pand_os.Kernel.{Lists, Models, view}
use pand_os.Kernel.Scheduling.{next_process, dequeue}
use pand_os.Kernel.Search.{IsListed, IsNamed, find_pcb-nobody}
use pand_os.Kernel.Family.{Forest, nodes, bury, bury_all}
use pand_os.Kernel.Family.Cut.{Above}
use pand_os.Kernel.Family.Ending.{IsTarget, dispatch-Terminated}

-- The process is on no list.
pub record IsNowhere (a : Lists) (c : Addr) : Type 0 where
  pub ready : c ∉ a.ready
  pub pool : c ∉ a.pool
  pub waiting : (s : Addr) → c ∉ a.waiting s

loose-IsNowhere :
    (e : Env) (L : Laws e) (o : Layout e) (m : Mem) (a : Lists) (c : Addr)
    → Models e m a
    → IsLoose e m c
    → IsNowhere a c
loose-IsNowhere e L o m a c i l =
    let h = i.holds in
    record {
      ready = ground (arith, detached-outside m c h.ready l.2);
      pool = ground (arith, detached-outside m c h.pool l.2);
      waiting = λ s. not_mem-of c (a.waiting s) λ j.
          let key = waiting-blocked e L o m (view a i.semds) h s c j in
          absurd (waiting-mapped e L o m (view a i.semds) h s c j (sym key ∙ l.3));
    }

tail-not_mem : (c : Addr) (ps : List Addr) → c ∉ ps → (c ∉ tail ps)
tail-not_mem c [] out = refl
tail-not_mem c (p ∷ ps) out = ground arith

next-other : (c : Addr) (ps : List Addr) → c ≢ null → c ∉ ps → next_process ps ≢ c
next-other c [] nc out eq = nc (sym eq)
next-other c (p ∷ ps) nc out eq = ground (arith, eq)

module _ (e : Env) (L : Laws e) (o : Layout e) (m : Mem) (a : Lists) (i : Models e m a)
    (runs : Runs e m) (nc : m.current_active_process ≢ null) (p : Addr) (f : Forest) (up : Above)
    (t : IsTarget e m a p f up) (exc_state : Addr) (st : State) where
  -- In a kernel in order, SYS2 that names a process which is neither the caller nor an ancestor of
  -- it goes through, but the caller is lost: it does not run afterwards and is on no list.
  pub dispatch-IsNowhere :
      m.current_active_process ∉ p ∷ nodes f
      → IsNamed m a (st.gpr e.reg_a1) p
      → Exits
          (λ _ m'.
            let left = dequeue (bury p (bury_all f a)) in
            Models e m' left
            × (m'.current_active_process ≢ m.current_active_process)
            × IsNowhere left m.current_active_process)
          (dispatch e exc_state st term_process_sys m)
  dispatch-IsNowhere out named =
      Exits-mono (dispatch-Terminated e L o m a i p f up t exc_state st named) λ x m' r.
        let (m1, gone, s) = r in
        let c = m.current_active_process in
        let w =
          loose-IsNowhere e L o m1 (bury p (bury_all f a)) c gone.models
            (gone.loose c out (runs nc)) in
        (
          s.models,
          λ eq. next-other c (bury p (bury_all f a)).ready nc w.ready (sym s.current ∙ eq),
          record { ready = tail-not_mem c _ w.ready; pool = w.pool; waiting = w.waiting },
        )

release_process-null : (e : Env) (m : Mem) → release_process e null m ≡ fault
unfolding release_process
release_process-null e m = refl

module _ (e : Env) (L : Laws e) (m : Mem) where
  terminate_tree-null : (k : ℕ) → terminate_tree e (suc k) null m ≡ fault
  unfolding terminate_tree
  terminate_tree-null k = rw (remove_child-null e L m) (release_process-null e m)

  terminate_process-null : terminate_process e null m ≡ fault
  unfolding terminate_process
  terminate_process-null = rw (out_child-null e L m) (rw (terminate_tree-null 20) refl)

  -- In a kernel in order, SYS2 with an identifier but 0 that no ready or waiting process has, such
  -- as the caller's own where no other has it, reads through NULL.
  pub dispatch-unknown :
      (a : Lists)
      → Models e m a
      → (exc_state : Addr) (st : State) → st.gpr e.reg_a1 ≢ 0
      → ((q : Addr) → IsListed a q → m.p_pid q ≢ st.gpr e.reg_a1)
      → dispatch e exc_state st term_process_sys m ≡ fault
  unfolding dispatch
  dispatch-unknown a i exc_state st na nobody =
      let ea : (st.gpr e.reg_a1 == 0) ≡ false = ground arith in
      rw ea (rw (find_pcb-nobody e L m a i (st.gpr e.reg_a1) nobody) terminate_process-null)
