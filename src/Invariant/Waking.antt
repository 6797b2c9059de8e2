-- ===== src/Invariant/Waking.antt =====
-- removeBlocked and outBlocked of phase1/ash.c keep the kernel's lists in order.
use pand_os.Prelude.{
  ◌≡◌, ◌≢◌, refl, inl, inr, List, [], ◌∷◌, ◌++◌, arith, ◌==◌, ◌∈◌, has-append, Bool-cases,
}
use pand_os.Mem.{Addr, null, Mem, relink, ok}
use pand_os.Fields.{s_procq, s_freelink}
use pand_os.Outcome.{Returns, Relinks-then}
use pand_os.Links.Rings.{erase, node-ne-null}
use pand_os.Env.{Env, Laws, set_table}
use pand_os.Ash.{out_blocked, remove_blocked, head_blocked}
use pand_os.Ash.Find.{semd_at}
use pand_os.Ash.Block.{waits, head_blocked-unknown}
use pand_os.Ash.Wake.{
  IsWaiting, table_after, out_blocked-Left, remove_blocked-out, head_blocked_lem,
}
use pand_os.Invariant.{Layout, View, Holds, IsLoose, Others, SameRest, Runs}
use pand_os.Invariant.Places.{Others-outside, detached-outside, semds-place, free_semd-place}
use pand_os.Invariant.Parting.{parted, known-IsWaiting, rest-Holds}

-- What outBlocked and removeBlocked leave where they return a process.
abbrev pub Parted : Env → (sem key p : Addr) → Mem → View → Addr → Mem → Type 0
Parted e sem key p m v a m' =
    (a ≡ p) × Holds e m' (parted sem p key v) × IsLoose e m' p × Others e p m m' × SameRest m m'

module _ (e : Env) (L : Laws e) (o : Layout e) (m : Mem) (v : View) (i : Holds e m v)
    (key : Addr) where
  waited-known : v.waiting key ≢ [] → semd_at key m.table ≢ null
  waited-known ne none = ne (i.unknown key none)

  pub unwaited : v.waiting key ≡ [] → semd_at key m.table ≡ null
  unwaited nobody = elim (Bool-cases (semd_at key m.table == null)) [
    | inl none ↦ ground arith
    | inr some ↦ absurd ((i.known key (ground arith)).busy nobody)
  ]

  -- Who stands in the queue of a semaphore has its address in p_semAdd.
  pub waiting-blocked : (p : Addr) → p ∈ v.waiting key → m.p_sem_add p ≡ key
  waiting-blocked p j = (i.known key (waited-known (λ none. ground (arith, none)))).blocked p j

  pub waiting-mapped : (p : Addr) → p ∈ v.waiting key → key ≢ null
  waiting-mapped p j = (i.known key (waited-known (λ none. ground (arith, none)))).key_mapped

  -- In a kernel in order, a process that waits for a semaphore, wherever in its queue, leaves it by
  -- outBlocked, which returns it, loose; the descriptor is free again exactly where nobody is left,
  -- and every other list, the counters, the variables and the saved states are as they were.
  pub out_blocked-refines :
      (p : Addr)
      → p ∈ v.waiting key
      → Returns (Parted e (semd_at key m.table) key p m v) (out_blocked e p m)
  out_blocked-refines p j =
      let ne = waited-known (λ none. ground (arith, none)) in
      let sem = semd_at key m.table in
      let q = i.known key ne in
      Relinks-then
        (out_blocked-Left e L m key sem p (v.waiting key) v.semds
          (known-IsWaiting e L o m v i key ne) j)
        λ a n w r. (
          r.0,
          rest-Holds e L o m v i key ne p j n w r.5 _ refl r.1 r.2,
          (node-ne-null q.ring p j, q.is_pcb p j, (r.3, r.4), ground arith),
          Others-outside e p m
              (relink
                (set_table (table_after sem (erase p (v.waiting key)) m.table) (waits p null m)) n
                w)
              (s_freelink sem ∷ e.semd_free_h ∷ v.semds ++ s_procq sem ∷ v.waiting key) r.5
              (λ a j. ground (
                arith,
                has-append a (s_freelink sem ∷ e.semd_free_h ∷ v.semds)
                    (s_procq sem ∷ v.waiting key),
                semds-place e o,
                free_semd-place e o m v i a,
                q.is_pcb a,
                q.is_semd,
              ))
              (λ c d lc. ground (
                arith,
                has-append c (s_freelink sem ∷ e.semd_free_h ∷ v.semds)
                    (s_procq sem ∷ v.waiting key),
                detached-outside m c i.semds lc.2,
                detached-outside m c q.ring lc.2,
                lc.1,
                q.is_semd,
              ))
              (λ c d. ground arith) refl,
          (refl, refl, refl, refl, refl, refl),
        )

  module _ (p : Addr) (ps : List Addr) (eq : v.waiting key ≡ p ∷ ps) where
    first-IsWaiting : IsWaiting e m key (semd_at key m.table) (p ∷ ps) v.semds
    first-IsWaiting =
        let ne = waited-known (λ none. ground (arith, none, eq)) in
        rw eq at (known-IsWaiting e L o m v i key ne)

    pub first-ne-null : p ≢ null
    first-ne-null = node-ne-null first-IsWaiting.queue p (ground arith)

    -- The process is not the one that runs.
    pub first-ne-current : Runs e m → p ≢ m.current_active_process
    first-ne-current runs same =
        let w = first-IsWaiting in
        let waits-for : m.p_sem_add p ≡ key = w.waiting p (ground arith) in
        let l = runs (rw same at first-ne-null) in w.key_mapped (cc (l.3, same, waits-for))

    pub head_blocked-first : head_blocked e key m ≡ ok p m
    head_blocked-first =
        head_blocked_lem e L m key (semd_at key m.table) p ps v.semds first-IsWaiting

    -- In a kernel in order, where p waits first for a semaphore, removeBlocked returns it, loose;
    -- the descriptor is free again exactly where nobody is left, and every other list, the
    -- counters, the variables and the saved states are as they were.
    pub remove_blocked-refines :
        Returns (Parted e (semd_at key m.table) key p m v) (remove_blocked e key m)
    remove_blocked-refines =
        rw (remove_blocked-out e L m key (semd_at key m.table) p ps v.semds first-IsWaiting)
          (out_blocked-refines p (rw eq (ground arith)))

  pub head_blocked-nobody : key ≢ null → v.waiting key ≡ [] → head_blocked e key m ≡ ok null m
  head_blocked-nobody nk nobody = head_blocked-unknown e L m i.keyed key nk (unwaited nobody)
