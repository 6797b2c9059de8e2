-- ===== src/Processes/Naming.antt =====
-- The namespace of a new process in createProcess of phase2/syscall.c: the one that is given, or that of
-- the process that runs.
use pand_os.Prelude.{
  ℕ, ◌≤◌, ◌≡◌, ◌≢◌, refl, false, not, List, [], ◌∷◌, arith, ◌==◌, if◌then◌else◌, Bool-cases, inl,
  inr, subst, sym,
}
use pand_os.Mem.{Addr, null, Mem, Cmd, done, ◌>>=◌, ◌>>◌}
use pand_os.Fields.{p_child, n_link, get_pid}
use pand_os.Outcome.{Relinks, relinks, Relinks-bind}
use pand_os.Links.Rings.{Ring, SameOutside}
use pand_os.Env.{Env, Laws}
use pand_os.Pcb.Queues.{IsMovable}
use pand_os.Ns.{ns_pid, ns_type_max, add_namespace}
use pand_os.Ns.Add.{joined, add_namespace-null, add_namespace-joined, get_namespace_of-pid}
use pand_os.Processes.{inherit_loop}

-- A namespace for identifiers, in the list of those in use or in no list.
pub record IsNamespace (e : Env) (m : Mem) (ns : Addr) (xs : List Addr) : Type 0 where
  pub mapped : ns ≢ null
  pub kind : m.n_type ns ≡ ns_pid
  pub ring : Ring m.next m.prev e.pid_ns_list_h xs
  pub apart : n_link ns ≢ e.pid_ns_list_h
  pub movable : IsMovable m xs (n_link ns)

-- The namespace that a new process gets.
abbrev pub given_or : (given inherited : Addr) → Addr
given_or given inherited = if given == null then inherited else given

module _ (e : Env) where
  -- The end of createProcess.
  abbrev pub name_process : (p nsd : Addr) → Cmd ℕ
  name_process p nsd = do
    given ← add_namespace e p nsd
    (if not given then inherit_loop e ns_type_max 0 p else done)
    get_pid p

module _ (e : Env) (L : Laws e) (m : Mem) (p nsd : Addr) (np : 8 ≤ p)
    (nc : m.current_active_process ≢ null) (xs : List Addr)
    (childless : Ring m.next m.prev (p_child p) []) where
  -- What the end of createProcess does where the namespace is `ns`.
  abbrev pub Named : Addr → Type 0
  Named ns =
      Relinks (joined p ns_pid ns m)
        (λ q n v. (q ≡ m.p_pid p) × SameOutside (n_link ns ∷ e.pid_ns_list_h ∷ xs) m n v)
        (name_process e p nsd m)

  given-Named : nsd ≢ null → IsNamespace e m nsd xs → Named nsd
  given-Named some w =
      let ep : (p == null) ≡ false = ground arith in
      Relinks-bind _
        (rw w.kind at
          (add_namespace-joined e L m p nsd np xs some childless w.ring w.apart w.movable))
        λ b n v q. simp (q.0, ep) (relinks (refl, q.2))

  inherited-Named :
      nsd ≡ null
      → IsNamespace e m (m.namespaces m.current_active_process 0) xs
      → Named (m.namespaces m.current_active_process 0)
  unfolding inherit_loop
  inherited-Named none w =
      let ep : (p == null) ≡ false = ground arith in
      let ns = m.namespaces m.current_active_process 0 in
      let found = get_namespace_of-pid m m.current_active_process nc w.mapped w.kind in
      let added : Relinks (joined p ns_pid ns m)
          (λ _ n v. SameOutside (n_link ns ∷ e.pid_ns_list_h ∷ xs) m n v)
          ((add_namespace e p ns >> done) m) =
        Relinks-bind _
          (rw w.kind at
            (add_namespace-joined e L m p ns np xs w.mapped childless w.ring w.apart w.movable))
          λ b n v q. relinks {a = tt} q.2 in
      rw none (
        rw (add_namespace-null e L m p null np xs)
          (rw found (Relinks-bind _ added λ _ n v same. simp ep (relinks (refl, same)))))

  -- The new process gets the namespace that is given, or else that of the process that runs, and its
  -- identifier is the answer; no link changes but those of the list of namespaces.
  pub name_process-Named :
      IsNamespace e m (given_or nsd (m.namespaces m.current_active_process 0)) xs
      → Named (given_or nsd (m.namespaces m.current_active_process 0))
  name_process-Named w = elim (Bool-cases (nsd == null)) [
    | inl none ↦
        let eq : given_or nsd (m.namespaces m.current_active_process 0)
            ≡ m.namespaces m.current_active_process 0 =
          simp none in
        subst Named (sym eq)
          (inherited-Named (ground arith) (subst (λ z. IsNamespace e m z xs) eq w))
    | inr some ↦
        let eq : given_or nsd (m.namespaces m.current_active_process 0) ≡ nsd = simp some in
        subst Named (sym eq) (given-Named (ground arith) (subst (λ z. IsNamespace e m z xs) eq w))
  ]
