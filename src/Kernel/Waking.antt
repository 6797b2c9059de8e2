-- ===== src/Kernel/Waking.antt =====
-- removeBlocked and then enqueueReady: the step that V, passeren, verhogen and the clock share.
use pand_os.Prelude.{◌≡◌, ◌≢◌, refl, false, inr, List, ◌∷◌, arith, ap, sym, ◌==◌, ◌∙◌}
use pand_os.Mem.{Addr, Mem, relink, Cmd, and_then}
use pand_os.Outcome.{Returns, Returns-bind, Relinks, Relinks-mono, Relinks-then}
use pand_os.Links.Rings.{SameOutside}
use pand_os.Env.{Env, Laws}
use pand_os.Ash.{remove_blocked}
use pand_os.Scheduler.{enqueue_ready}
use pand_os.Invariant.{Layout, View, Holds, IsLoose, SameRest, Others, Runs}
use pand_os.Invariant.Places.{Others-outside, detached-outside, ready-place}
use pand_os.Invariant.Ready.{enqueue_ready-refines, enqueued}
use pand_os.Invariant.Parting.{parted}
use pand_os.Invariant.Waking.{remove_blocked-refines, first-ne-current}
use pand_os.Ash.Find.{semd_at}
use pand_os.Kernel.{Lists, Models, view, wake}

module _ (e : Env) (L : Laws e) (o : Layout e) (m : Mem) (v : View) (i : Holds e m v) (p : Addr)
    (l : IsLoose e m p) (nc : p ≢ m.current_active_process) where
  -- The same of enqueueReady with the processes that it leaves alone.
  pub enqueue_ready-Others :
      Relinks m
        (λ _ n w.
          Holds e (relink m n w) (enqueued p v)
          × Others e p m (relink m n w)
          × SameOutside (p ∷ e.ready_queue ∷ v.ready) m n w)
        (enqueue_ready e p m)
  enqueue_ready-Others =
      let miss : (p == m.current_active_process) ≡ false = ground arith in
      let r = enqueue_ready-refines e L o m v i p (inr l) in
      Relinks-mono (rw miss at r) λ _ n w q. (
        q.0,
        Others-outside e p m (relink m n w) (p ∷ e.ready_queue ∷ v.ready) q.1
            (λ a j. ground (arith, l.1, ready-place e, i.ready_pcb a))
            (λ c d lc. ground (arith, detached-outside m c i.ready lc.2)) (λ c d. refl) refl,
        q.1,
      )

  pub enqueue_ready-loose :
      Returns
        (λ _ m'. Holds e m' (enqueued p v) × Others e p m m' × SameRest m m')
        (enqueue_ready e p m)
  enqueue_ready-loose =
      Relinks-then enqueue_ready-Others λ _ n w q. (q.0, q.1, (refl, refl, refl, refl, refl, refl))

Runs-Others :
    (e : Env) (p : Addr) (m m' : Mem)
    → Others e p m m'
    → m'.sched ≡ m.sched
    → p ≢ m.current_active_process
    → Runs e m
    → Runs e m'
Runs-Others e p m m' others same ne runs nc =
    let same' : m'.current_active_process ≡ m.current_active_process =
      ap (λ z. z.current_active_process) same in
    rw same' (others.loose m.current_active_process (λ eq. ne (sym eq)) (runs (rw same' at nc)))

-- Where p waits first for a semaphore, it is taken off the queue and put on the ready queue, and the
-- rest of the operation goes on with p.
module _ (e : Env) (L : Laws e) (o : Layout e) (m : Mem) (a : Lists) (i : Models e m a) (s p : Addr)
    (ps : List Addr) (eq : a.waiting s ≡ p ∷ ps) (runs : Runs e m) where
  -- What is left: the lists, whether a process runs, and the rest of the state.
  abbrev pub Awake : Mem → Type 0
  Awake m' = Models e m' (wake p s a) × Runs e m' × SameRest m m'

  pub wake-Returns :
      {B : Type 0} {Q : B → Mem → Type 0} (k : Addr → Cmd B)
      → ((m' : Mem) → Awake m' → Returns Q (k p m'))
      → Returns Q
          (and_then (remove_blocked e s m) (λ q m1. and_then (enqueue_ready e q m1) (λ _. k q)))
  wake-Returns k next =
      let v = view a i.semds in
      Returns-bind (remove_blocked-refines e L o m v i.holds s p ps eq) λ q m1 r.
        let nc = first-ne-current e L o m v i.holds s p ps eq runs in
        let same : m1.current_active_process ≡ m.current_active_process =
          ap (λ z. z.current_active_process) r.4.0 in
        let runs1 = Runs-Others e p m m1 r.3 r.4.0 nc runs in
        simp r.0 (
          Returns-bind
            (enqueue_ready-loose e L o m1 (parted (semd_at s m.table) p s v) r.1 p r.2
              (λ eq'. nc (eq' ∙ same)))
            λ _ m2 r2. next m2 (
              record { semds = (parted (semd_at s m.table) p s v).semds; holds = r2.0 },
              Runs-Others e p m1 m2 r2.1 r2.2.0 (λ eq'. nc (eq' ∙ same)) runs1,
              (
                r2.2.0 ∙ r.4.0,
                r2.2.1 ∙ r.4.1,
                r2.2.2 ∙ r.4.2,
                r2.2.3 ∙ r.4.3,
                r2.2.4 ∙ r.4.4,
                r2.2.5 ∙ r.4.5,
              ),
            ))
