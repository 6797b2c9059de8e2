-- ===== src/Kernel/Family/Spawn.antt =====
-- createProcess of phase2/syscall.c in a kernel in order with a free process.
use pand_os.Prelude.{
  ℕ, ◌≤◌, ◌≡◌, ◌≢◌, refl, false, inl, inr, List, ◌∷◌, arith, ap, sym, subst, ◌==◌, ◌∙◌, ◌∉◌,
}
use pand_os.Mem.{Addr, null, Mem}
use pand_os.Fields.{p_s, p_child, p_sib}
use pand_os.Outcome.{Returns, Returns-bind, Returns-mono}
use pand_os.Env.{Env, Laws}
use pand_os.Processes.{create_process}
use pand_os.Processes.Naming.{IsNamespace}
use pand_os.Invariant.{place, Layout, IsPcb, IsLoose}
use pand_os.Invariant.Places.{pool-place, not_mem-place}
use pand_os.Kernel.{Lists, Models}
use pand_os.Kernel.Family.{Forest, nodes}
use pand_os.Kernel.Family.Detach.{IsProgeny}
use pand_os.Kernel.Family.Fresh.{with_pool, Allocated, alloc_pcb-Allocated, Allocated-IsProgeny}
use pand_os.Kernel.Family.Foreign.{IsForeign, IsNamespace-frame, Tidy}
use pand_os.Kernel.Family.Stages.{home}
use pand_os.Kernel.Family.Create.{Spawned, spawn, spawn-Spawned}

pcb-above : (e : Env) (p : Addr) → IsPcb e p → e.pcb_free_table ≤ p
unfolding place
pcb-above e p pcb = ground (arith, pcb.0)

module _ (e : Env) (L : Laws e) (o : Layout e) (m : Mem) (a : Lists) (i : Models e m a)
    (state support nsd : Addr) where
  module _ (p : Addr) (ps : List Addr) (eq : a.pool ≡ p ∷ ps) (f : Forest)
      (runs : IsLoose e m m.current_active_process) (g : IsProgeny e m a m.current_active_process f)
      (xs : List Addr) where
    -- What the rest of createProcess leaves, told of the memory before allocPcb.
    Spawned-before :
        (m1 : Mem) (q : ℕ) (m' : Mem)
        → state ≢ p_s p
        → Allocated e m a p ps m1
        → Spawned e m1 (with_pool ps a) p f state support nsd q m'
        → Spawned e m (with_pool ps a) p f state support nsd q m'
    Spawned-before m1 q m' apart w s =
        let sched = w.only.sched in
        let cur : m1.current_active_process ≡ m.current_active_process =
          ap (λ z. z.current_active_process) sched in
        record {
          answer = s.answer ∙ ap (λ z. z.pid_counter) sched;
          models = s.models;
          progeny = rw cur at s.progeny;
          runs = rw cur at s.runs;
          sched = rw sched at s.sched;
          pid = s.pid ∙ ap (λ z. z.pid_counter) sched;
          saved = s.saved ∙ w.only.state state apart;
          supported = s.supported;
          named = rw (sched, w.only.namespaces) at s.named;
        }

    spaced :
        IsPcb e p → (x : Addr) → place e x ≡ 0 → x ∉ p_child p ∷ p_sib p ∷ e.pcb_free_h ∷ p ∷ ps
    spaced pp x zero =
        let out =
          not_mem-place e x 4 (p ∷ ps) (λ y j. (i.holds.pool_pcb y (rw eq j)).0)
            (ground (arith, zero)) in
        ground (arith, out, pp, pool-place e o)

    Allocated-Spawned :
        (m1 : Mem)
        → 8 ≤ e.pcb_free_table
        → state ≢ null
        → IsForeign e (home m nsd) xs
        → IsNamespace e m (home m nsd) xs
        → Allocated e m a p ps m1
        → Returns
            (Spawned e m1 (with_pool ps a) p f state support nsd)
            (spawn e p state support nsd m1)
    Allocated-Spawned m1 high ns foreign w r =
        let cur : m1.current_active_process ≡ m.current_active_process =
          ap (λ z. z.current_active_process) r.only.sched in
        let (out, g1) =
          Allocated-IsProgeny e L o m a i p ps eq m1 m.current_active_process f r runs.1
            (inr (inl runs)) g in
        let ne : (m.current_active_process == p) ≡ false = ground (arith, out) in
        let l1 = r.spares.loose m.current_active_process (ground (arith, ne)) runs in
        let same : home m nsd ≡ home m1 nsd = rw (cur, r.only.namespaces) refl in
        let w1 =
          IsNamespace-frame e m m1 (home m nsd) xs foreign
            (λ x zero. r.only.links x (spaced r.loose.1 x zero)) r.only.n_type w in
        spawn-Spawned e L o m1 (with_pool ps a) p f state support nsd xs
          (subst (λ z. Tidy e m1 (with_pool ps a) z f) (sym cur) (r.models, g1, l1))
          (λ none. runs.0 (sym cur ∙ none)) r.loose (subst (λ z. p ∉ z ∷ nodes f) (sym cur) out)
          r.fresh.childless (let above = pcb-above e p r.loose.1 in omega arith) ns
          (subst (λ z. IsForeign e z xs) same foreign) (subst (λ z. IsNamespace e m1 z xs) same w1)

    -- In a kernel in order with a free process p, where the state is not NULL and not in p, and the
    -- namespace that is given or else that of the caller is one for identifiers in its list,
    -- createProcess answers the next identifier: p is ready, behind the others, and the last child
    -- of the process that runs, whose other progeny stays; p has the state, the support structure,
    -- the identifier and the namespace, and one process more is counted.
    pub create_process-Spawned :
        8 ≤ e.pcb_free_table
        → state ≢ null
        → state ≢ p_s p
        → IsForeign e (home m nsd) xs
        → IsNamespace e m (home m nsd) xs
        → Returns
            (Spawned e m (with_pool ps a) p f state support nsd)
            (create_process e state support nsd m)
    unfolding create_process
    create_process-Spawned high ns apart foreign w =
        Returns-bind (alloc_pcb-Allocated e L o m a i p ps eq) λ q m1 (got, r).
          let np = r.loose.0 in
          let ep : (p == null) ≡ false = ground arith in
          rw got (
            simp ep (
              Returns-mono (Allocated-Spawned m1 high ns foreign w r)
                λ q' m' s. Spawned-before m1 q' m' apart r s))
