-- ===== src/Ns/Add.antt =====
-- addNamespace of phase1/ns.c for a process that has no children yet, as createProcess calls it.
use pand_os.Prelude.{
  ℕ, suc, ◌≤◌, ◌≡◌, ◌≢◌, refl, true, false, List, [], ◌∷◌, ◌++◌, arith, ◌==◌, upd,
}
use pand_os.Mem.{Addr, null, Mem, set_pcbs, Run, Cmd, Proc, ok, exit, fault, out_of_fuel, and_then}
use pand_os.Fields.{p_child, p_sib, pcb_of_sib, n_link, get_next}
use pand_os.Outcome.{Relinks, relinks, Relinks-bind}
use pand_os.Links.Rings.{Ring, SameOutside, erase}
use pand_os.Env.{Env, Laws}
use pand_os.Pcb.{list_safe_del}
use pand_os.Pcb.Queues.{IsMovable, list_safe_del-append}
use pand_os.Ns.{
  ns_pid, tree_steps, get_namespace_of, get_namespace_loop, set_all_loop, set_all_child_namespace,
  add_namespace,
}

-- The memory with a namespace of a process.
abbrev pub joined : (p : Addr) (type : ℕ) (ns : Addr) → Mem → Mem
joined p type ns =
    set_pcbs (λ b. record b { namespaces = upd b.namespaces p (upd (b.namespaces p) type ns) })

and_then_assoc :
    {A B C : Type 0} (r : Run A) (k : A → Cmd B) (k' : B → Cmd C)
    → and_then (and_then r k) k' ≡ and_then r (λ a m. and_then (k a m) k')
and_then_assoc (ok a m) k k' = refl
and_then_assoc (exit x m) k k' = refl
and_then_assoc fault k k' = refl
and_then_assoc out_of_fuel k k' = refl

module _ (m : Mem) where
  set_all_loop-end :
      (k : ℕ) (head child ns : Addr)
      → (p_sib child == head) ≡ true
      → set_all_loop (suc k) head child ns m ≡ ok tt m
  unfolding set_all_loop
  set_all_loop-end k head child ns here = simp here

  next-then :
      (h : Addr) (k : Addr → Proc)
      → h ≢ null
      → k (m.next h) m ≡ ok tt m
      → and_then (get_next h m) k ≡ ok tt m
  next-then h k nh then = let eh : (h == null) ≡ false = ground arith in rw eh then

  set_all_child_namespace-nil :
      (p ns : Addr)
      → 8 ≤ p
      → Ring m.next m.prev (p_child p) []
      → set_all_child_namespace (p_child p) ns m ≡ ok tt m
  unfolding set_all_child_namespace
  set_all_child_namespace-nil p ns high r =
      next-then (p_child p) (λ first. set_all_loop tree_steps (p_child p) (pcb_of_sib first) ns)
        (omega arith)
        (set_all_loop-end 20 (p_child p) (pcb_of_sib (m.next (p_child p))) ns
          (let first = r.links.0 in ground arith))

  -- A process has the namespace that it has been given for the type.
  pub get_namespace_of-pid :
      (p : Addr)
      → p ≢ null
      → m.namespaces p 0 ≢ null
      → m.n_type (m.namespaces p 0) ≡ ns_pid
      → get_namespace_of p ns_pid m ≡ ok (m.namespaces p 0) m
  unfolding get_namespace_of get_namespace_loop
  get_namespace_of-pid p np ne kind =
      let ep : (p == null) ≡ false = ground arith in
      let en : (m.namespaces p 0 == null) ≡ false = ground arith in simp (ep, en, kind) refl

module _ (e : Env) (L : Laws e) (m : Mem) (p ns : Addr) (np : 8 ≤ p) (xs : List Addr) where
  open e use {pid_ns_list_h}

  pub add_namespace-null : add_namespace e p null m ≡ ok false m
  unfolding add_namespace
  add_namespace-null = refl

  -- A process without children gets the namespace, which becomes the last of those in use.
  pub add_namespace-joined :
      ns ≢ null
      → Ring m.next m.prev (p_child p) []
      → Ring m.next m.prev pid_ns_list_h xs
      → n_link ns ≢ pid_ns_list_h
      → IsMovable m xs (n_link ns)
      → Relinks
          (joined p (m.n_type ns) ns m)
          (λ b n v.
            (b ≡ true)
            × Ring n v pid_ns_list_h (erase (n_link ns) xs ++ n_link ns ∷ [])
            × SameOutside (n_link ns ∷ pid_ns_list_h ∷ xs) m n v)
          (add_namespace e p ns m)
  unfolding add_namespace
  add_namespace-joined ne childless r nh movable =
      let ep : (p == null) ≡ false = ground arith in
      let en : (ns == null) ≡ false = ground arith in
      let m1 = joined p (m.n_type ns) ns m in
      simp (ep, en, set_all_child_namespace-nil m1 p ns np childless)
        (rw
          (← and_then_assoc (list_safe_del e (n_link ns) m1)
            (λ _. e.list_add_tail (n_link ns) pid_ns_list_h) (λ _. ok true))
          (Relinks-bind _
            (list_safe_del-append e L m1 pid_ns_list_h xs r (n_link ns) (omega arith) nh movable)
            λ _ n v q. relinks (refl, q.0, q.1)))
