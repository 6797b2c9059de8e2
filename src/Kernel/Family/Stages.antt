-- ===== src/Kernel/Family/Stages.antt =====
-- enqueueReady, insertChild and addNamespace in createProcess of phase2/syscall.c: each leaves the lists,
-- the progeny of the process that runs, and that process in order.
use pand_os.Prelude.{◌≤◌, ◌≡◌, ◌≢◌, refl, inl, List, [], ◌∷◌, arith, ◌∈◌, ◌∉◌, has-append, sym, ◌∙◌}
use pand_os.Mem.{Addr, null, Mem, relink}
use pand_os.Fields.{p_child, p_sib, n_link}
use pand_os.Outcome.{Relinks, Relinks-mono}
use pand_os.Links.Rings.{Ring, Ring-frame, erase}
use pand_os.Env.{Env, Laws}
use pand_os.Pcb.{insert_child}
use pand_os.Pcb.Tree.{reparent, insert_child-append}
use pand_os.Ns.{ns_pid}
use pand_os.Scheduler.{enqueue_ready}
use pand_os.Processes.Naming.{IsNamespace, given_or, name_process, name_process-Named}
use pand_os.Invariant.{place, Layout, IsLoose}
use pand_os.Invariant.Places.{ready-place, not_mem-of, not_mem-place}
use pand_os.Kernel.{Lists, view, enqueue}
use pand_os.Kernel.Waking.{enqueue_ready-Others}
use pand_os.Kernel.Family.{Forest, nodes, sibs, tops, tops-nodes, SameAt, Placed}
use pand_os.Kernel.Family.Grow.{grown}
use pand_os.Ns.Add.{joined}
use pand_os.Kernel.Family.Kill.{children-tree, sib-outside}
use pand_os.Kernel.Family.Foreign.{IsForeign, enqueued-IsProgeny, Tidy, foreign-Tidy}
use pand_os.Kernel.Family.Adopt.{
  with_child-Models, with_child-IsProgeny, with_child-IsLoose, childless-same,
}

-- The namespace that the new process gets.
abbrev pub home : Mem → (nsd : Addr) → Addr
home m nsd = given_or nsd (m.namespaces m.current_active_process ns_pid)

module _ (e : Env) (L : Laws e) (o : Layout e) (m : Mem) (a : Lists) (c p : Addr) (f : Forest)
    (t : Tidy e m a c f) (nc : c ≢ null) (np : p ≢ null)
    (childless : Ring m.next m.prev (p_child p) []) where
  -- The links of the namespaces are as before, and the process has no children.
  abbrev Spared : Mem → Type 0
  Spared m' = ((x : Addr) → place e x ≡ 0 → SameAt m m' x) × Ring m'.next m'.prev (p_child p) []

  pub enqueue_ready-Tidy :
      c ≡ m.current_active_process
      → p ∉ c ∷ nodes f
      → IsLoose e m p
      → Relinks m
          (λ _ n w.
            Tidy e (relink m n w) (enqueue p a) c f
            × (p ∈ (enqueue p a).ready)
            × Spared (relink m n w))
          (enqueue_ready e p m)
  enqueue_ready-Tidy cur out l =
      let h = t.0.holds in
      let ne : p ≢ c = λ same. ground (arith, out) in
      Relinks-mono
        (enqueue_ready-Others e L o m (view a t.0.semds) h p l (λ same. ne (same ∙ sym cur)))
        λ _ n w q. (
          (
            record { semds = t.0.semds; holds = q.0 },
            enqueued-IsProgeny e m (relink m n w) a c p f t.2.1 q.1 (ground (arith, out)) t.1,
            q.1.loose c (λ same. ne (sym same)) t.2,
          ),
          ground (arith, has-append p (erase p a.ready) (p ∷ [])),
          (
            λ x zero. q.2 x (
                ground (
                  arith,
                  zero,
                  ready-place e,
                  l.1,
                  not_mem-place e x 4 a.ready (λ y j. (h.ready_pcb y j).0) (ground (arith, zero)),
                )),
            Ring-frame n w childless λ x j.
                let eq : x ≡ p_child p = ground arith in rw eq (q.1.tree (p_child p) (inl l.1.1)),
          ),
        )

  pub insert_child-Tidy :
      Placed e m a p
      → p ∉ c ∷ nodes f
      → Relinks
          (reparent p c m)
          (λ _ n v.
            Tidy e (relink (reparent p c m) n v) a c (grown p f)
            × Spared (relink (reparent p c m) n v))
          (insert_child e c p m)
  insert_child-Tidy pl out =
      let pcbs = λ (x : Addr) (j : x ∈ nodes f). (t.1.placed x j).0 in
      let top = not_mem-of p (tops f) λ j. ground (arith, tops-nodes p f j, out) in
      let off : p_sib p ∉ p_child c ∷ sibs f = sib-outside e c t.2.1 f pcbs p pl.0 top in
      Relinks-mono (insert_child-append e L m c p (sibs f) t.1.family.0 nc np off) λ _ n v q. (
        (
          with_child-Models e o m a c p f t.2.1 np pl t.1 out childless n v q.0 q.1 t.0,
          with_child-IsProgeny e o m a c p f t.2.1 np pl t.1 out childless n v q.0 q.1,
          with_child-IsLoose e o m a c p f t.2.1 np pl t.1 out childless n v q.0 q.1 c t.2,
        ),
        (
          λ x zero. q.1 x (
              not_mem-of x (p_sib p ∷ p_child c ∷ sibs f)
                λ j. ground (arith, children-tree e c f pcbs t.2.1 x, j, zero, pl.0)),
          childless-same e o m a c p f t.2.1 np pl t.1 out childless n v q.0 q.1,
        ),
      )

  pub name_process-Tidy :
      (nsd : Addr) (xs : List Addr)
      → 8 ≤ p
      → c ≡ m.current_active_process
      → IsForeign e (home m nsd) xs
      → IsNamespace e m (home m nsd) xs
      → Relinks
          (joined p ns_pid (home m nsd) m)
          (λ q n v. (q ≡ m.p_pid p) × Tidy e (relink (joined p ns_pid (home m nsd) m) n v) a c f)
          (name_process e p nsd m)
  name_process-Tidy nsd xs high cur foreign w =
      Relinks-mono (name_process-Named e L m p nsd high (λ none. nc (cur ∙ none)) xs childless w)
        λ q n v r. (
          r.0,
          foreign-Tidy e o m (relink (joined p ns_pid (home m nsd) m) n v) a c f
              (λ x nz. r.1 x (
                not_mem-of x (n_link (home m nsd) ∷ e.pid_ns_list_h ∷ xs)
                  λ j. absurd (nz (foreign x j))))
              (refl, refl, refl, refl) t,
        )
