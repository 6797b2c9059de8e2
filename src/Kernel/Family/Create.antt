-- ===== src/Kernel/Family/Create.antt =====
-- createProcess of phase2/syscall.c behind allocPcb: the new process is ready, the last child of the
-- one that runs, and has its state, its support structure, its identifier and its namespace.
use pand_os.Prelude.{ℕ, ◌≤◌, ◌≡◌, ◌≢◌, refl, false, inl, List, [], ◌∷◌, arith, ◌==◌, ◌∉◌, upd, ◌∙◌}
use pand_os.Mem.{Addr, null, Mem, Cmd, relink, set_pcbs, set_sched, set_objects, ◌>>=◌, ◌>>◌}
use pand_os.Fields.{p_child, p_s, get_state, put_p_s, put_support, put_pid}
use pand_os.Outcome.{Returns, Relinks-return, Relinks-then}
use pand_os.Words.{add32}
use pand_os.Links.Rings.{Ring}
use pand_os.Env.{Env, Laws}
use pand_os.Pcb.{insert_child}
use pand_os.Ns.{ns_pid}
use pand_os.Scheduler.{current_proc, get_new_pid, increment_process_count, enqueue_ready}
use pand_os.Processes.Naming.{IsNamespace, name_process}
use pand_os.Invariant.{Layout, IsLoose}
use pand_os.Kernel.{Lists, Models, enqueue}
use pand_os.Kernel.Family.{Forest, nodes}
use pand_os.Kernel.Family.Grow.{grown}
use pand_os.Kernel.Family.Detach.{IsProgeny}
use pand_os.Pcb.Tree.{reparent}
use pand_os.Kernel.Family.Foreign.{IsForeign, IsNamespace-frame, Tidy, foreign-Tidy}
use pand_os.Kernel.Family.Stages.{home, enqueue_ready-Tidy, insert_child-Tidy, name_process-Tidy}

-- What createProcess leaves.
pub record Spawned (e : Env) (m : Mem) (a : Lists) (p : Addr) (f : Forest)
    (state support nsd : Addr) (q : ℕ) (m' : Mem) : Type 0 where
  pub answer : q ≡ m.pid_counter
  pub models : Models e m' (enqueue p a)
  pub progeny : IsProgeny e m' (enqueue p a) m.current_active_process (grown p f)
  pub runs : IsLoose e m' m.current_active_process
  pub sched : m'.sched ≡ record m.sched {
    process_count = add32 m.process_count 1;
    pid_counter = add32 m.pid_counter 1;
  }
  pub pid : m'.p_pid p ≡ m.pid_counter
  pub saved : m'.state (p_s p) ≡ m.state state
  pub supported : m'.p_support_struct p ≡ support
  pub named : m'.namespaces p ns_pid ≡ home m nsd

-- The memory with the state and the support structure of a process.
abbrev outfitted : (p state support : Addr) → Mem → Mem
outfitted p state support m =
    set_pcbs (λ b. record b { p_support_struct = upd b.p_support_struct p support })
      (set_objects (λ b. record b { state = upd b.state (p_s p) (b.state state) }) m)

-- createProcess where allocPcb has returned `p`.
abbrev pub spawn : Env → (p state support nsd : Addr) → Cmd ℕ
spawn e p state support nsd = do
  pid ← get_new_pid
  put_pid p pid
  enqueue_ready e p
  increment_process_count
  current ← current_proc
  insert_child e current p
  s ← get_state state
  put_p_s p s
  put_support p support
  name_process e p nsd

module _ (e : Env) (L : Laws e) (o : Layout e) (m : Mem) (a : Lists) (p : Addr) (f : Forest)
    (state support nsd : Addr) (xs : List Addr) where
  abbrev runner : Addr
  runner = m.current_active_process

  pub spawn-Spawned :
      Tidy e m a runner f
      → runner ≢ null
      → IsLoose e m p
      → p ∉ runner ∷ nodes f
      → Ring m.next m.prev (p_child p) []
      → 8 ≤ p
      → state ≢ null
      → IsForeign e (home m nsd) xs
      → IsNamespace e m (home m nsd) xs
      → Returns (Spawned e m a p f state support nsd) (spawn e p state support nsd m)
  unfolding get_new_pid increment_process_count
  spawn-Spawned t nc l out childless high ns foreign w =
      let np = l.0 in
      let ep : (p == null) ≡ false = ground arith in
      let es : (state == null) ≡ false = ground arith in
      let mA =
        set_pcbs (λ b. record b { p_pid = upd b.p_pid p m.pid_counter })
          (set_sched (λ s. record s { pid_counter = add32 m.pid_counter 1 }) m) in
      let tA = foreign-Tidy e o m mA a runner f (λ x nz. (refl, refl)) (refl, refl, refl, refl) t in
      simp ep (
        Relinks-return _ (enqueue_ready-Tidy e L o mA a runner p f tA nc np childless refl out l)
          λ _ n1 v1 r1.
            let m2 = relink mA n1 v1 in
            let mB = set_sched (λ s. record s { process_count = add32 s.process_count 1 }) m2 in
            let tB =
              foreign-Tidy e o m2 mB (enqueue p a) runner f (λ x nz. (refl, refl))
                (refl, refl, refl, refl) r1.0 in
            Relinks-return _
              (insert_child-Tidy e L o mB (enqueue p a) runner p f tB nc np r1.2.1 (l.1, inl r1.1)
                out)
              λ _ n2 v2 r2.
                let m3 = relink (reparent p runner mB) n2 v2 in
                let mC = outfitted p state support m3 in
                let tC =
                  foreign-Tidy e o m3 mC (enqueue p a) runner (grown p f) (λ x nz. (refl, refl))
                    (refl, refl, refl, refl) r2.0 in
                let wC =
                  IsNamespace-frame e m mC (home m nsd) xs foreign
                    (λ x zero. (
                      (r2.1.0 x zero).0 ∙ (r1.2.0 x zero).0,
                      (r2.1.0 x zero).1 ∙ (r1.2.0 x zero).1,
                    ))
                    refl w in
                simp (ep, es)
                  (Relinks-then
                    (name_process-Tidy e L o mC (enqueue p a) runner p (grown p f) tC nc np r2.1.1
                      nsd xs high refl foreign wC)
                    λ q n3 v3 r3. record {
                      answer = r3.0 ∙ ground arith;
                      models = r3.1.0;
                      progeny = r3.1.1;
                      runs = r3.1.2;
                      sched = refl;
                      pid = ground arith;
                      saved = ground arith;
                      supported = ground arith;
                      named = ground arith;
                    }))
