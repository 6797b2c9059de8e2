-- ===== src/Invariant/Ready.antt =====
-- enqueueReady and schedule of phase2/scheduler.c keep the kernel's lists in order.
use pand_os.Prelude.{
  ◌≡◌, ◌≢◌, refl, ◌⊎◌, inl, inr, List, [], ◌∷◌, ◌++◌, arith, ◌==◌, ◌∈◌, ◌∉◌, has-append, Bool-cases,
  ap, ◌∙◌,
}
use pand_os.Mem.{Addr, null, Mem, Links, load_state}
use pand_os.Fields.{p_s, s_procq, s_freelink}
use pand_os.Outcome.{Relinks, Relinks-mono, Exits, Exits-mono}
use pand_os.Links.Rings.{Ring, SameOutside, erase, mem_of-erase, node-ne-null}
use pand_os.Env.{Env, Laws}
use pand_os.Pcb.Queues.{IsMovable}
use pand_os.Scheduler.{enqueue_ready, schedule}
use pand_os.Scheduler.Ready.{yielded, enqueue_ready-append, schedule-ready}
use pand_os.Invariant.{Layout, IsPcb, IsQueue, View, IsKernel, Holds, IsLoose}
use pand_os.Invariant.Bounds.{Distinct-length}
use pand_os.Invariant.Places.{
  Separate, Separate-swap, Separate-more, Ring-outside, detached-outside, ready-place,
  Separate-ready_pool, Separate-ready_semds, Separate-ready_queue,
}

abbrev pub links_of : (Addr → Addr) → (Addr → Addr) → Links
links_of n w = record { next = n; prev = w }

-- A queue that a change of links elsewhere, and of what its processes do not wait for, leaves.
pub IsQueue-outside :
    {e : Env} {semds : List Addr} {key sem : Addr} {xs : List Addr} {n w : Addr → Addr} (m : Mem)
    (fp semds' : List Addr) (sem_add : Addr → Addr)
    → IsQueue e m.links m.p_sem_add semds key sem xs
    → SameOutside fp m n w
    → Separate (s_procq sem ∷ xs) fp
    → ((a : Addr) → a ∈ xs → sem_add a ≡ m.p_sem_add a)
    → s_freelink sem ∉ semds'
    → IsQueue e (links_of n w) sem_add semds' key sem xs
IsQueue-outside m fp semds' sem_add q same s waits out = record {
  key_mapped = q.key_mapped;
  ring = Ring-outside m fp q.ring same s;
  in_use = out;
  is_semd = q.is_semd;
  is_pcb = q.is_pcb;
  blocked = λ a i. ground (arith, waits a i, q.blocked a i);
  busy = q.busy;
}

-- The process is the last of the list, wherever it was before.
abbrev pub to_back : Addr → List Addr → List Addr
to_back p xs = erase p xs ++ p ∷ []

pub to_back-mem : (a p : Addr) (xs : List Addr) → a ∈ to_back p xs → (a ≡ p) ⊎ (a ∈ xs)
to_back-mem a p xs i = elim (Bool-cases (a == p)) [
  | inl hit ↦ inl (ground arith)
  | inr miss ↦ inr (ground (arith, has-append a (erase p xs) (p ∷ []), mem_of-erase a p xs))
]

-- enqueueReady, on the view.
abbrev pub enqueued : Addr → View → View
enqueued p v = record v { ready = to_back p v.ready }

module _ (e : Env) (L : Laws e) (o : Layout e) (m : Mem) (v : View) (i : Holds e m v) where
  module _ (p : Addr) (from : (p ∈ v.ready) ⊎ IsLoose e m p) where
    enqueued-IsPcb : IsPcb e p
    enqueued-IsPcb = elim from [ inl j ↦ i.ready_pcb p j | inr l ↦ l.1 ]

    enqueued-idle : m.p_sem_add p ≡ null
    enqueued-idle = elim from [ inl j ↦ i.ready_idle p j | inr l ↦ l.3 ]

    enqueued-mapped : p ≢ null
    enqueued-mapped = elim from [ inl j ↦ node-ne-null i.ready p j | inr l ↦ l.0 ]

    enqueued-IsMovable : IsMovable m v.ready p
    enqueued-IsMovable = elim from [
      | inl j ↦ inl j
      | inr l ↦ inr (ground (arith, detached-outside m p i.ready l.2), l.2)
    ]

    enqueued-outside :
        (h : Addr) (xs : List Addr)
        → Ring m.next m.prev h xs
        → Separate (e.ready_queue ∷ v.ready) (h ∷ xs)
        → p ∉ h ∷ xs
    enqueued-outside h xs r s = elim from [
      | inl j ↦ s.apart p (ground arith)
      | inr l ↦ detached-outside m p r l.2
    ]

    enqueued-Separate :
        (h : Addr) (xs : List Addr)
        → Ring m.next m.prev h xs
        → Separate (e.ready_queue ∷ v.ready) (h ∷ xs)
        → Separate (h ∷ xs) (p ∷ e.ready_queue ∷ v.ready)
    enqueued-Separate h xs r s = Separate-more p (enqueued-outside h xs r s) (Separate-swap s)

    enqueued-Holds :
        (n w : Addr → Addr)
        → Ring n w e.ready_queue (to_back p v.ready)
        → SameOutside (p ∷ e.ready_queue ∷ v.ready) m n w
        → IsKernel e (links_of n w) m.table m.p_sem_add m.s_key (enqueued p v)
    enqueued-Holds n w r same = record {
      keyed = i.keyed;
      ready = r;
      pool =
          Ring-outside m _ i.pool same
            (enqueued-Separate _ _ i.pool (Separate-ready_pool e o m v i));
      semds =
          Ring-outside m _ i.semds same
            (enqueued-Separate _ _ i.semds (Separate-ready_semds e o m v i));
      known = λ key ne.
          let q = i.known key ne in
          IsQueue-outside m _ v.semds m.p_sem_add q same
            (enqueued-Separate _ _ q.ring (Separate-ready_queue e o m v i key _ _ q)) (λ a j. refl)
            q.in_use;
      unknown = i.unknown;
      ready_pcb = λ a j. elim (to_back-mem a p v.ready j) [
        | inl same ↦ rw same enqueued-IsPcb
        | inr old ↦ i.ready_pcb a old
      ];
      ready_idle = λ a j. elim (to_back-mem a p v.ready j) [
        | inl same ↦ rw same enqueued-idle
        | inr old ↦ i.ready_idle a old
      ];
      pool_pcb = i.pool_pcb;
      pool_idle = i.pool_idle;
      apart = λ a j. elim (to_back-mem a p v.ready j) [
        | inl same ↦ ground (arith, enqueued-outside _ _ i.pool (Separate-ready_pool e o m v i))
        | inr old ↦ i.apart a old
      ];
      free_semd = i.free_semd;
      count = i.count;
      free_link = i.free_link;
    }

    -- In a kernel in order, a process that is ready already or on no list and not blocked goes to
    -- the back of the ready queue by enqueueReady, and every other list is as it was: no link
    -- changes but those of the process and of the ready queue.
    pub enqueue_ready-refines :
        Relinks
          (yielded p m)
          (λ _ n w.
            IsKernel e (links_of n w) m.table m.p_sem_add m.s_key (enqueued p v)
            × SameOutside (p ∷ e.ready_queue ∷ v.ready) m n w)
          (enqueue_ready e p m)
    enqueue_ready-refines =
        Relinks-mono
          (enqueue_ready-append e L m p v.ready i.ready enqueued-mapped
            (ground (arith, enqueued-IsPcb, ready-place e)) enqueued-IsMovable)
          λ _ n w q. (enqueued-Holds n w q.0 q.1, q.1)

  -- Some of the ready processes are ready no more.
  module _ (ps : List Addr) (rest-mem : (a : Addr) → a ∈ ps → a ∈ v.ready) where
    pub fewer-Holds :
        (n w : Addr → Addr)
        → Ring n w e.ready_queue ps
        → SameOutside (e.ready_queue ∷ v.ready) m n w
        → IsKernel e (links_of n w) m.table m.p_sem_add m.s_key (record v { ready = ps })
    fewer-Holds n w r same = record {
      keyed = i.keyed;
      ready = r;
      pool = Ring-outside m _ i.pool same (Separate-swap (Separate-ready_pool e o m v i));
      semds = Ring-outside m _ i.semds same (Separate-swap (Separate-ready_semds e o m v i));
      known = λ key ne.
          let q = i.known key ne in
          IsQueue-outside m _ v.semds m.p_sem_add q same
            (Separate-swap (Separate-ready_queue e o m v i key _ _ q)) (λ a j. refl) q.in_use;
      unknown = i.unknown;
      ready_pcb = λ a j. i.ready_pcb a (rest-mem a j);
      ready_idle = λ a j. i.ready_idle a (rest-mem a j);
      pool_pcb = i.pool_pcb;
      pool_idle = i.pool_idle;
      apart = λ a j. i.apart a (rest-mem a j);
      free_semd = i.free_semd;
      count = i.count;
      free_link = i.free_link;
    }

  -- In a kernel in order, where p is first on the ready queue, schedule loads the state of p, which
  -- is current and loose then; the ready queue is the rest, and every other list, the fields of the
  -- processes and the objects are as they were.
  pub schedule-refines :
      (p : Addr) (ps : List Addr)
      → v.ready ≡ p ∷ ps
      → Exits
          (λ x m'.
            (x ≡ load_state (m.state (p_s p)))
            × (m'.current_active_process ≡ p)
            × IsLoose e m' p
            × Holds e m' (record v { ready = ps })
            × (m'.pcbs ≡ m.pcbs)
            × (m'.objects ≡ m.objects))
          (schedule e m)
  schedule-refines p ps eq =
      let r : Ring m.next m.prev e.ready_queue (p ∷ ps) = rw eq at i.ready in
      let first : p ∈ v.ready = rw eq (ground arith) in
      let few = Distinct-length e (p ∷ ps) r.apart.1 (λ a j. (i.ready_pcb a (rw eq j)).0) in
      Exits-mono (schedule-ready e L m p ps r (omega (arith, few))) λ x m' w. (
        w.0,
        w.1,
        (
          node-ne-null r p (ground arith),
          i.ready_pcb p first,
          w.3,
          ap (λ b. b.p_sem_add p) w.6 ∙ i.ready_idle p first,
        ),
        rw (w.6, w.7, w.10)
            (fewer-Holds ps (λ a j. rw eq (ground arith)) m'.next m'.prev w.2 (rw eq w.9)),
        w.6,
        w.7,
      )
