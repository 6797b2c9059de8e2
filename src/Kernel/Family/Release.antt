-- ===== src/Kernel/Family/Release.antt =====
-- One process of __terminateProcess in phase2/syscall.c: it leaves the ready queue, and at the end it
-- waits no more and is free.
use pand_os.Prelude.{
  ℕ, ◌≡◌, ◌≢◌, refl, true, false, fun_ext, ◌⊎◌, inl, inr, [], ◌∷◌, arith, ap, ◌==◌, ◌∈◌, ◌∉◌, upd,
  Bool-cases, ◌∙◌, has, sym,
}
use pand_os.Mem.{Addr, null, Mem, relink, set_sched, and_then}
use pand_os.Outcome.{Returns, returns, Returns-bind, Returns-mono, Relinks-then}
use pand_os.Words.{sub32}
use pand_os.Links.Rings.{erase, erase-not_mem, mem_of-erase}
use pand_os.Env.{Env, Laws}
use pand_os.Pcb.{free_pcb, out_proc_q}
use pand_os.Pcb.Queues.{out_proc_q-Removed, out_proc_q-null}
use pand_os.Ash.{out_blocked}
use pand_os.Ash.Find.{semd_at}
use pand_os.Ash.Block.{out_blocked-idle}
use pand_os.Scheduler.{decrement_process_count, decrement_soft_block_count}
use pand_os.Processes.{is_soft_blocked, release_process}
use pand_os.Invariant.{Layout, IsPcb, IsLoose, Others}
use pand_os.Invariant.Bounds.{Distinct-length}
use pand_os.Invariant.Places.{Others-outside, detached-outside, ready-place, not_mem-of}
use pand_os.Invariant.Ready.{fewer-Holds}
use pand_os.Invariant.Waking.{out_blocked-refines, waiting-blocked, waiting-mapped}
use pand_os.Invariant.Parting.{parted}
use pand_os.Kernel.{Lists, Models, view}
use pand_os.Kernel.Family.{Settled, Placed, unready, bury}
use pand_os.Kernel.Family.Free.{free_pcb-Freed}
use pand_os.Kernel.Family.Spares.{Spares, Spares-none, Spares-trans, Spares-Others}

-- The memory with another count of soft-blocked processes.
abbrev pub recounted : ℕ → Mem → Mem
recounted k = set_sched (λ s. record s { soft_block_count = k })

module _ (e : Env) (L : Laws e) (o : Layout e) (m : Mem) (a : Lists) (i : Models e m a) where
  -- A ready process leaves the ready queue, and another one stays as it is.
  pub out_proc_q-Models :
      (c : Addr)
      → c ≢ null
      → Placed e m a c
      → Returns
          (λ _ m'.
            Models e m' (unready c a)
            × Others e c m m'
            × (m'.sched ≡ m.sched)
            × Settled e m' (unready c a) c)
          (out_proc_q e e.ready_queue c m)
  out_proc_q-Models c nc (p, where_) =
      let h = i.holds in
      let few = Distinct-length e a.ready h.ready.apart.1 (λ x j. (h.ready_pcb x j).0) in
      elim (Bool-cases (has c a.ready)) [
        | inl j ↦
            Relinks-then
              (out_proc_q-Removed e L m e.ready_queue a.ready h.ready c (omega (arith, few)) j)
              λ q n w r. (
                record {
                  semds = i.semds;
                  holds =
                      fewer-Holds e L o m (view a i.semds) h (erase c a.ready)
                        (λ x k. mem_of-erase x c a.ready k) n w r.1.0 r.1.3;
                },
                Others-outside e c m (relink m n w) (e.ready_queue ∷ a.ready) r.1.3
                    (λ x k. ground (arith, ready-place e, h.ready_pcb x))
                    (λ x d l. detached-outside m x h.ready l.2) (λ x d. refl) refl,
                refl,
                inr (inl (nc, p, (r.1.1, r.1.2), h.ready_idle c j)),
              )
        | inr out ↦
            simp (out_proc_q-null e L m e.ready_queue a.ready h.ready c (omega (arith, few)) nc out)
              (returns (
                rw (erase-not_mem c a.ready out) i,
                record {
                  loose = λ x d l. l;
                  waits = λ x d. refl;
                  tree = λ x w. (refl, refl);
                  parent = refl;
                },
                refl,
                elim where_ [
                  | inl j ↦ absurd (cc (j, out))
                  | inr (inl l) ↦ inr (inl l)
                  | inr (inr w) ↦ inr (inr w)
                ],
              ))
      ]

-- Nobody waits twice, and a loose process not at all.
module _ (e : Env) (L : Laws e) (o : Layout e) (m : Mem) (a : Lists) (i : Models e m a)
    (p : Addr) where
  loose-waiting : m.p_sem_add p ≡ null → (λ s. erase p (a.waiting s)) ≡ a.waiting
  loose-waiting idle = fun_ext λ s. erase-not_mem p (a.waiting s) (
      not_mem-of p (a.waiting s) λ j none.
        waiting-mapped e L o m (view a i.semds) i.holds s p j
          (sym (waiting-blocked e L o m (view a i.semds) i.holds s p j) ∙ idle))

  waiting-once :
      (s : Addr)
      → p ∈ a.waiting s
      → upd a.waiting s (erase p (a.waiting s)) ≡ (λ s'. erase p (a.waiting s'))
  waiting-once s j = fun_ext λ s'. elim (Bool-cases (s' == s)) [
    | inl hit ↦
        let same : s' ≡ s = ground arith in
        let here : (s == s) ≡ true = ground arith in rw same (simp here)
    | inr miss ↦
        let out : p ∉ a.waiting s' = not_mem-of p (a.waiting s') λ k none.
          let here = waiting-blocked e L o m (view a i.semds) i.holds s p j in
          let there = waiting-blocked e L o m (view a i.semds) i.holds s' p k in
          ground (arith, here, there, miss) in
        simp (miss, erase-not_mem p (a.waiting s') out)
  ]

module _ (e : Env) (L : Laws e) (o : Layout e) (m : Mem) (a : Lists) (i : Models e m a) (p : Addr)
    (np : p ≢ null) (pcb : IsPcb e p) where
  out_blocked-Models :
      Settled e m a p
      → Returns
          (λ _ m'.
            Models e m' (record a { waiting = λ s. erase p (a.waiting s) })
            × Spares e (p ∷ []) m m'
            × (m'.sched ≡ m.sched)
            × ((p ∈ a.ready) ⊎ IsLoose e m' p))
          (out_blocked e p m)
  out_blocked-Models (inl j) =
      let idle = i.holds.ready_idle p j in
      simp (out_blocked-idle e p m np idle)
        (returns (rw (loose-waiting e L o m a i p idle) i, Spares-none e (p ∷ []), refl, inl j))
  out_blocked-Models (inr (inl l)) =
      simp (out_blocked-idle e p m np l.3)
        (returns (rw (loose-waiting e L o m a i p l.3) i, Spares-none e (p ∷ []), refl, inr l))
  out_blocked-Models (inr (inr (s, j))) =
      Returns-mono (out_blocked-refines e L o m (view a i.semds) i.holds s p j) λ q m' r. (
        record {
          semds = (parted (semd_at s m.table) p s (view a i.semds)).semds;
          holds = rw (← waiting-once e L o m a i p s j) r.1;
        },
        Spares-Others e r.3,
        r.4.0,
        inr r.2,
      )

  -- What the end of the process leaves.
  abbrev pub Buried : Mem → Type 0
  Buried m' =
      Models e m' (bury p a)
      × Spares e (p ∷ []) m m'
      × (m'.process_count ≡ sub32 m.process_count 1)
      × (m'.current_active_process ≡ m.current_active_process)

  unblocked-Buried :
      Settled e m a p
      → Returns
          (λ _. Buried)
          (and_then
            (out_blocked e p m)
            (λ _ m1. and_then (free_pcb e p m1) (λ _. decrement_process_count)))
  unfolding decrement_process_count
  unblocked-Buried settled = Returns-bind (out_blocked-Models settled) λ _ m1 r.
      Returns-bind
        (free_pcb-Freed e L o m1
          (view (record a { waiting = λ s. erase p (a.waiting s) }) r.0.semds) r.0.holds p r.3)
        λ _ m2 q.
          let s : Spares e (p ∷ []) m m2 =
            Spares-trans e r.1 (Spares-Others e q.1) (λ c out. (out, out)) in
          let counts = ap (λ z. z.process_count) (q.2.0 ∙ r.2) in
          returns (
            record { semds = r.0.semds; holds = q.0 },
            record { loose = s.loose; parent = s.parent; child = s.child; sib = s.sib },
            cc counts,
            ap (λ z. z.current_active_process) (q.2.0 ∙ r.2),
          )

module _ (e : Env) (L : Laws e) (o : Layout e) (m : Mem) (a : Lists) (i : Models e m a) (p : Addr)
    (np : p ≢ null) (pcb : IsPcb e p) (settled : Settled e m a p) where
  -- Another count of soft-blocked processes changes nothing else.
  recounted-Buried :
      (k : ℕ)
      → Returns
          (λ _. Buried e L o m a i p np pcb)
          (and_then
            (out_blocked e p (recounted k m))
            (λ _ m1. and_then (free_pcb e p m1) (λ _. decrement_process_count)))
  recounted-Buried k =
      Returns-mono
        (unblocked-Buried e L o (recounted k m) a (record { semds = i.semds; holds = i.holds }) p np
          pcb settled)
        λ _ m' r. (
          r.0,
          record { loose = r.1.loose; parent = r.1.parent; child = r.1.child; sib = r.1.sib },
          r.2,
          r.3,
        )

  -- The process is free, waits for nothing, and one process less is counted.
  pub release_process-Buried : Returns (λ _. Buried e L o m a i p np pcb) (release_process e p m)
  unfolding release_process decrement_soft_block_count
  release_process-Buried =
      let ep : (p == null) ≡ false = ground arith in
      elim (Bool-cases (is_soft_blocked e (m.p_sem_add p))) [
        | inl soft ↦ simp (ep, soft) (recounted-Buried (sub32 m.soft_block_count 1))
        | inr hard ↦ simp (ep, hard) (recounted-Buried m.soft_block_count)
      ]
