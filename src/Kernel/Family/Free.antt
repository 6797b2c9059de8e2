-- ===== src/Kernel/Family/Free.antt =====
-- freePcb of phase1/pcb.c for a process that is on no list or ready, as __terminateProcess meets it.
use pand_os.Prelude.{◌≡◌, ◌≢◌, refl, false, ◌⊎◌, inl, inr, ◌∷◌, arith, ◌==◌, ◌∈◌, ◌∙◌}
use pand_os.Mem.{Addr, null, Mem, relink, and_then}
use pand_os.Fields.{p_list, put_sem_add}
use pand_os.Outcome.{Returns, Returns-mono, Relinks-return}
use pand_os.Links.Rings.{erase, erase-not_mem, mem_of-erase, node-ne-null}
use pand_os.Env.{Env, Laws}
use pand_os.Pcb.{free_pcb}
use pand_os.Pcb.Unlink.{IsDetached, list_safe_del-detached, list_safe_del-Removed}
use pand_os.Invariant.{Layout, View, Holds, IsLoose, Others, SameRest}
use pand_os.Invariant.Places.{Others-outside, detached-outside, ready-place}
use pand_os.Invariant.Ready.{fewer-Holds}
use pand_os.Invariant.Pool.{free_pcb-refines}

-- The process is free, and ready no more.
abbrev pub freed : Addr → View → View
freed p v = record v { ready = erase p v.ready; pool = p ∷ v.pool }

Others-trans :
    {e : Env} {p : Addr} {m m1 m2 : Mem} → Others e p m m1 → Others e p m1 m2 → Others e p m m2
Others-trans s t = record {
  loose = λ c d l. t.loose c d (s.loose c d l);
  waits = λ c d. t.waits c d ∙ s.waits c d;
  tree = λ x w. ((t.tree x w).0 ∙ (s.tree x w).0, (t.tree x w).1 ∙ (s.tree x w).1);
  parent = t.parent ∙ s.parent;
}

module _ (e : Env) (L : Laws e) (o : Layout e) (m : Mem) (v : View) (i : Holds e m v)
    (p : Addr) where
  abbrev pub Freed : Mem → Type 0
  Freed m' = Holds e m' (freed p v) × Others e p m m' × SameRest m m'

  free_pcb-loose : IsLoose e m p → Returns (λ _. Freed) (free_pcb e p m)
  free_pcb-loose l =
      let out = erase-not_mem p v.ready (ground (arith, detached-outside m p i.ready l.2)) in
      Returns-mono (free_pcb-refines e L o m v i p l) λ _ m' r. (rw out r.0, r.1, r.2)

  free_pcb-step :
      (m1 : Mem)
      → p ≢ null
      → IsDetached m1 p
      → free_pcb e p m1 ≡ and_then (put_sem_add p null m1) (λ _. e.list_add (p_list p) e.pcb_free_h)
  unfolding free_pcb
  free_pcb-step m1 np d =
      let ep : (p == null) ≡ false = ground arith in simp (ep, list_safe_del-detached e L p m1 np d)

  free_pcb-ready : p ∈ v.ready → Returns (λ _. Freed) (free_pcb e p m)
  unfolding free_pcb
  free_pcb-ready j =
      let np = node-ne-null i.ready p (ground (arith, j)) in
      let ep : (p == null) ≡ false = ground arith in
      simp ep (
        Relinks-return _ (list_safe_del-Removed e L p e.ready_queue v.ready m i.ready j) λ _ n w r.
          let m1 = relink m n w in
          let h =
            fewer-Holds e L o m v i (erase p v.ready) (λ x k. mem_of-erase x p v.ready k) n w r.0
              r.3 in
          let l : IsLoose e m1 p = (np, i.ready_pcb p j, (r.1, r.2), i.ready_idle p j) in
          let rest = free_pcb-refines e L o m1 (record v { ready = erase p v.ready }) h p l in
          let first =
            Others-outside e p m m1 (e.ready_queue ∷ v.ready) r.3
              (λ x k. ground (arith, ready-place e, i.ready_pcb x))
              (λ x d lx. detached-outside m x i.ready lx.2) (λ x d. refl) refl in
          Returns-mono (rw (free_pcb-step m1 np (r.1, r.2)) at rest)
            λ _ m' q. (q.0, Others-trans first q.1, q.2))

  -- A loose or ready process.
  pub free_pcb-Freed : (p ∈ v.ready) ⊎ IsLoose e m p → Returns (λ _. Freed) (free_pcb e p m)
  free_pcb-Freed (inl j) = free_pcb-ready j
  free_pcb-Freed (inr l) = free_pcb-loose l
