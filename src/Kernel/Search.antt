-- ===== src/Kernel/Search.antt =====
-- findPcb of phase1/ash.c on a kernel in order: which process SYS2 of phase2/syscall.c means.
use pand_os.Prelude.{
  ℕ, ◌≡◌, ◌≢◌, true, false, ◌⊎◌, inl, inr, List, arith, ◌==◌, ◌∈◌, Bool-cases, if◌then◌else◌, ap,
  sym, subst, ◌∙◌,
}
use pand_os.Mem.{Addr, null, Mem, ok}
use pand_os.Fields.{semd_of_link}
use pand_os.Env.{Env, Laws, VisitsAll, lookup, nodes}
use pand_os.Pcb.{search_pcb_by_pid}
use pand_os.Pcb.Search.{first_with, first_with-cases, search_pcb_by_pid-first_with}
use pand_os.Ash.{find_pcb}
use pand_os.Ash.Find.{semd_at, lookup-node, lookup-mem, lookup-key, node-mapped}
use pand_os.Ash.Search.{first_in, first_in-cases, pick, find_pcb-first_in, Searches}
use pand_os.Scheduler.{current_proc}
use pand_os.Invariant.{IsQueue}
use pand_os.Invariant.Bounds.{Distinct-length}
use pand_os.Kernel.{Lists, Models}

-- The process is ready or waits.
abbrev pub IsListed : Lists → Addr → Type 0
IsListed a p = (p ∈ a.ready) ⊎ ((s : Addr) × (p ∈ a.waiting s))

-- A listed process with the identifier, or NULL where none has it.
abbrev pub IsAnswer : Mem → Lists → (pid : ℕ) → Addr → Type 0
IsAnswer m a pid p =
    ((m.p_pid p ≡ pid) × IsListed a p)
    ⊎ ((p ≡ null) × ((q : Addr) → IsListed a q → m.p_pid q ≢ pid))

module _ (e : Env) (L : Laws e) (m : Mem) (a : Lists) (i : Models e m a) where
  -- The processes of a node of the table.
  abbrev queue_of : Addr → List Addr
  queue_of n = a.waiting (m.s_key (semd_of_link n))

  node-IsQueue :
      (n : Addr)
      → n ∈ nodes m.table
      → IsQueue e m.links m.p_sem_add i.semds
          (m.s_key (semd_of_link n))
          (semd_of_link n)
          (queue_of n)
  node-IsQueue n j =
      let h = i.holds in
      let key = m.s_key (semd_of_link n) in
      let at : lookup key m.table ≡ n = lookup-node m.s_key n m.table h.keyed j in
      let mapped = node-mapped m.s_key n m.table h.keyed j in
      let same : semd_at key m.table ≡ semd_of_link n = rw at (ground (arith, mapped)) in
      subst (λ z. IsQueue e m.links m.p_sem_add i.semds key z (queue_of n)) same
        (h.known key (ground (arith, same, mapped)))

  -- A process that waits is in the queue of a node.
  waiting-node :
      (s p : Addr) → p ∈ a.waiting s → (n : Addr) × (n ∈ nodes m.table) × (p ∈ queue_of n)
  waiting-node s p j = elim (Bool-cases (lookup s m.table == null)) [
    | inl none ↦
        let empty = i.holds.unknown s (ground (arith, none)) in
        absurd (ground (arith, subst (λ xs. p ∈ xs) empty j))
    | inr some ↦
        let ne : lookup s m.table ≢ null = ground (arith, some) in
        let key = lookup-key m.s_key s m.table i.holds.keyed ne in
        (lookup s m.table, lookup-mem s m.table ne, subst (λ z. p ∈ a.waiting z) (sym key) j)
  ]

  module _ (pid : ℕ) where
    node-Searches : (n : Addr) → n ∈ nodes m.table → Searches pid m queue_of n
    node-Searches n j =
        let q = node-IsQueue n j in
        let few = Distinct-length e (queue_of n) q.ring.apart.1 (λ x k. (q.is_pcb x k).0) in
        search_pcb_by_pid-first_with pid _ (queue_of n) m q.ring (omega (arith, few))

    ready-search : search_pcb_by_pid pid e.ready_queue m ≡ ok (first_with pid m.p_pid a.ready) m
    ready-search =
        let h = i.holds in
        let few = Distinct-length e a.ready h.ready.apart.1 (λ x k. (h.ready_pcb x k).0) in
        search_pcb_by_pid-first_with pid e.ready_queue a.ready m h.ready (omega (arith, few))

    -- Where no ready process has the identifier.
    waited :
        (ns : List Addr)
        → VisitsAll m.table ns
        → (first_with pid m.p_pid a.ready == null) ≡ true
        → IsAnswer m a pid (first_in pid m.p_pid queue_of ns)
    waited ns v none =
        let unready : (q : Addr) → q ∈ a.ready → m.p_pid q ≢ pid =
          elim (first_with-cases pid m.p_pid a.ready) [
            | inl (same, j) ↦ absurd (ground (arith, none, j, i.holds.ready.mapped))
            | inr (null_, others) ↦ others
          ] in
        elim (first_in-cases pid m.p_pid queue_of ns
          λ n j. ground (arith, (node-IsQueue n (v.sound n j)).ring.mapped)) [
            | inl (same, (n, j, k)) ↦ inl (same, inr (_, k))
            | inr (null_, others) ↦ inr (
              null_,
              λ q listed. elim listed [
                | inl j ↦ unready q j
                | inr (s, j) ↦ let (n, k, l) = waiting-node s q j in others n q (v.complete n k) l
              ],
            )
          ]

    answer :
        (ns : List Addr)
        → VisitsAll m.table ns
        → IsAnswer m a pid
            (pick (first_with pid m.p_pid a.ready) (first_in pid m.p_pid queue_of ns))
    answer ns v = elim (Bool-cases (first_with pid m.p_pid a.ready == null)) [
      | inl none ↦
          let eq : pick (first_with pid m.p_pid a.ready) (first_in pid m.p_pid queue_of ns)
              ≡ first_in pid m.p_pid queue_of ns =
            simp none in
          subst (λ z. IsAnswer m a pid z) (sym eq) (waited ns v none)
      | inr some ↦
          let eq : pick (first_with pid m.p_pid a.ready) (first_in pid m.p_pid queue_of ns)
              ≡ first_with pid m.p_pid a.ready =
            simp some in
          subst (λ z. IsAnswer m a pid z) (sym eq)
            (elim (first_with-cases pid m.p_pid a.ready) [
              | inl (same, j) ↦ inl (same, inl j)
              | inr (null_, others) ↦ absurd (ground (arith, null_))
            ])
    ]

    -- In a kernel in order, findPcb on the ready queue ends within its bounds and changes nothing;
    -- it answers a ready or waiting process with the identifier, or NULL where no such process has
    -- it.
    pub find_pcb-IsAnswer :
        (p : Addr) × (find_pcb e pid e.ready_queue m ≡ ok p m) × IsAnswer m a pid p
    find_pcb-IsAnswer =
        let (ns, (v, found)) =
          find_pcb-first_in e L pid m e.ready_queue (first_with pid m.p_pid a.ready) queue_of
            ready-search (λ ns v n j. node-Searches n (v.sound n j)) in
        (_, found, answer ns v)

-- The process that the argument of SYS2 means: the running one, or the only listed one that has the
-- identifier.
abbrev pub IsNamed : Mem → Lists → (pid : ℕ) → Addr → Type 0
IsNamed m a pid p =
    ((pid ≡ 0) × (m.current_active_process ≡ p))
    ⊎ ((pid ≢ 0)
        × (m.p_pid p ≡ pid)
        × IsListed a p
        × ((q : Addr) → IsListed a q → m.p_pid q ≡ pid → q ≡ p))

module _ (e : Env) (L : Laws e) (m : Mem) (a : Lists) (i : Models e m a) (pid : ℕ) where
  pub find_pcb-IsNamed :
      (p : Addr)
      → IsNamed m a pid p
      → (if pid == 0 then current_proc else find_pcb e pid e.ready_queue) m ≡ ok p m
  find_pcb-IsNamed p (inl (zero, runs)) = rw zero (ap (λ x. ok x m) runs)
  find_pcb-IsNamed p (inr (nz, same, listed, only)) =
      let ez : (pid == 0) ≡ false = ground arith in
      simp ez (
        let (q, found, answer) = find_pcb-IsAnswer e L m a i pid in
        elim answer [
          | inl (same', listed') ↦ found ∙ ap (λ x. ok x m) (only q listed' same')
          | inr (null_, others) ↦ absurd (others p listed same)
        ])

  pub find_pcb-nobody :
      ((q : Addr) → IsListed a q → m.p_pid q ≢ pid) → find_pcb e pid e.ready_queue m ≡ ok null m
  find_pcb-nobody nobody =
      let (q, found, answer) = find_pcb-IsAnswer e L m a i pid in
      elim answer [
        | inl (same, listed) ↦ absurd (nobody q listed same)
        | inr (null_, others) ↦ found ∙ ap (λ x. ok x m) null_
      ]
