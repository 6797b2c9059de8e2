-- ===== src/Invariant/Pool.antt =====
-- allocPcb and freePcb of phase1/pcb.c keep the kernel's lists in order.
use pand_os.Prelude.{
  ℕ, ◌⊎◌, ◌≡◌, refl, false, List, ◌∷◌, arith, sym, ◌==◌, ◌∙◌, ◌∈◌, ◌∉◌, Bool-cases, inl, inr, upd,
}
use pand_os.Mem.{Addr, null, Mem, relink}
use pand_os.Fields.{p_child, p_sib}
use pand_os.Outcome.{Returns, Returns-mono, Relinks-then}
use pand_os.Links.Rings.{Ring, node-ne-null}
use pand_os.Env.{Env, Laws}
use pand_os.Pcb.{alloc_pcb, free_pcb}
use pand_os.Pcb.Reset.{OnlyReset, IsFresh}
use pand_os.Pcb.Alloc.{IsSpaced, alloc_pcb-cons, free_pcb-cons, unblocked}
use pand_os.Invariant.{place, Layout, IsPcb, View, Holds, IsLoose, Others, StayLoose, SameRest}
use pand_os.Invariant.Places.{
  Others-outside, Separate, Separate-swap, Separate-more, Ring-outside, detached-outside,
  not_mem-place, not_mem-of, pool-place, ready-place, semds-place, free_semd-place, IsLoose-outside,
  Separate-ready_pool, Separate-pool_semds, Separate-pool_queue,
}
use pand_os.Invariant.Ready.{IsQueue-outside}

module _ (e : Env) (L : Laws e) (o : Layout e) (m : Mem) (v : View) (i : Holds e m v) (p : Addr)
    (ps : List Addr) (eq : v.pool ≡ p ∷ ps) where
  open e use {pcb_free_h}

  pub pool-Ring : Ring m.next m.prev pcb_free_h (p ∷ ps)
  pool-Ring = rw eq at i.pool

  pool-mem : (a : Addr) → a ∈ p ∷ ps → a ∈ v.pool
  pool-mem a j = rw eq j

  pub first-IsPcb : IsPcb e p
  first-IsPcb = i.pool_pcb p (pool-mem p (ground arith))

  -- A list whose addresses have other places than the links of a process keeps its links.
  clear_fresh :
      (h : Addr) (xs : List Addr)
      → (place e h == 16) ≡ false
      → (place e h == 24) ≡ false
      → ((a : Addr) → a ∈ xs → (place e a ≡ 4) ⊎ (place e a ≡ 220))
      → Separate (h ∷ xs) (pcb_free_h ∷ v.pool)
      → Separate (h ∷ xs) (p_child p ∷ p_sib p ∷ pcb_free_h ∷ p ∷ ps)
  clear_fresh h xs hc hs places s =
      let child =
        not_mem-of (p_child p) xs λ j. ground (arith, places (p_child p) j, first-IsPcb) in
      let sib = not_mem-of (p_sib p) xs λ j. ground (arith, places (p_sib p) j, first-IsPcb) in
      Separate-more (p_child p) (ground (arith, first-IsPcb))
        (Separate-more (p_sib p) (ground (arith, first-IsPcb)) (rw eq at s))

  module _ (len : ℕ) (m' : Mem) (fresh : IsFresh len m' p)
      (free : Ring m'.next m'.prev pcb_free_h ps)
      (only : OnlyReset (p_child p ∷ p_sib p ∷ pcb_free_h ∷ p ∷ ps) p m m') where
    elsewhere : (a : Addr) → a ∉ pcb_free_h ∷ v.pool → m'.p_sem_add a ≡ m.p_sem_add a
    elsewhere a out = only.p_sem_add a λ same. ground (arith, out, pool-mem p)

    pub allocated-Holds : Holds e m' (record v { pool = ps })
    allocated-Holds = record {
      keyed = rw (only.table, only.s_key) i.keyed;
      ready = Ring-outside m _ i.ready only.links (
          clear_fresh _ _ (ground (arith, ready-place e)) (ground (arith, ready-place e))
            (λ a j. inl (i.ready_pcb a j).0) (Separate-ready_pool e o m v i));
      pool = free;
      semds = Ring-outside m _ i.semds only.links (
          clear_fresh _ _ (ground (arith, semds-place e o)) (ground (arith, semds-place e o))
            (λ a j. inr (free_semd-place e o m v i a j))
            (Separate-swap (Separate-pool_semds e o m v i)));
      known = λ key. rw only.table λ nk.
          let q = i.known key nk in
          let s = Separate-swap (Separate-pool_queue e o m v i key _ _ q) in
          IsQueue-outside m _ v.semds m'.p_sem_add q only.links
            (clear_fresh _ _ (ground (arith, q.is_semd)) (ground (arith, q.is_semd))
              (λ a j. inl (q.is_pcb a j).0) s)
            (λ a j. elsewhere a (s.apart a (ground arith))) q.in_use;
      unknown = λ key. rw only.table (i.unknown key);
      ready_pcb = i.ready_pcb;
      ready_idle = λ a j.
          elsewhere a ((Separate-ready_pool e o m v i).apart a (ground arith)) ∙ i.ready_idle a j;
      pool_pcb = λ a j. i.pool_pcb a (pool-mem a (ground arith));
      pool_idle = λ a j.
          only.p_sem_add a (λ same. ground (arith, pool-Ring.apart))
          ∙ i.pool_idle a (pool-mem a (ground arith));
      apart = λ a j. let out : a ∉ p ∷ ps = rw eq at (i.apart a j) in ground arith;
      free_semd = i.free_semd;
      count = rw only.table i.count;
      free_link = i.free_link;
    }

  pub pool-IsSpaced : IsSpaced e L p ps
  pool-IsSpaced =
      let child =
        not_mem-place e (p_child p) 4 (p ∷ ps) (λ a j. (i.pool_pcb a (pool-mem a j)).0)
          (ground (arith, first-IsPcb)) in
      let sib =
        not_mem-place e (p_sib p) 4 (p ∷ ps) (λ a j. (i.pool_pcb a (pool-mem a j)).0)
          (ground (arith, first-IsPcb)) in
      (ground (arith, first-IsPcb, pool-place e o), ground (arith, first-IsPcb, pool-place e o))

  -- In a kernel in order, allocPcb takes the first free process, which is loose then; every other
  -- list and every other loose process is as it was.
  pub alloc_pcb-refines :
      Returns
        (λ q m'.
          (q ≡ p)
          × Holds e m' (record v { pool = ps })
          × IsLoose e m' p
          × StayLoose e p m m'
          × (m'.sched ≡ m.sched))
        (alloc_pcb e m)
  alloc_pcb-refines = Returns-mono (alloc_pcb-cons e L p ps m pool-Ring pool-IsSpaced) λ q m' w. (
    w.0,
    allocated-Holds _ m' w.1 w.2 w.3,
    (node-ne-null pool-Ring p (ground arith), first-IsPcb, w.1.detached, w.1.not_blocked),
    λ c d lc.
        IsLoose-outside e m m' (p_child p ∷ p_sib p ∷ pcb_free_h ∷ p ∷ ps) c lc w.3.links
          (ground (arith, detached-outside m c pool-Ring lc.2, lc.1, first-IsPcb))
          (w.3.p_sem_add c d),
    w.3.sched,
  )

module _ (e : Env) (L : Laws e) (o : Layout e) (m : Mem) (v : View) (i : Holds e m v) (p : Addr)
    (l : IsLoose e m p) where
  same-waits : (a : Addr) → upd m.p_sem_add p null a ≡ m.p_sem_add a
  same-waits a = elim (Bool-cases (a == p)) [
    | inl hit ↦ let same : a ≡ p = ground arith in simp hit (rw same (sym l.3))
    | inr miss ↦ simp miss
  ]

  -- In a kernel in order, freePcb puts a loose process in front of the free ones, and every other
  -- list and every other loose process is as it was.
  pub free_pcb-refines :
      Returns
        (λ _ m'. Holds e m' (record v { pool = p ∷ v.pool }) × Others e p m m' × SameRest m m')
        (free_pcb e p m)
  free_pcb-refines =
      let off = detached-outside m p i.pool l.2 in
      Relinks-then (free_pcb-cons e L p v.pool m i.pool l.0 off l.2) λ _ n w r. (
        record {
          keyed = i.keyed;
          ready =
              Ring-outside m _ i.ready r.1 (
                Separate-more p (detached-outside m p i.ready l.2) (Separate-ready_pool e o m v i));
          pool = r.0;
          semds = Ring-outside m _ i.semds r.1 (
              Separate-more p (detached-outside m p i.semds l.2)
                (Separate-swap (Separate-pool_semds e o m v i)));
          known = λ key nk.
              let q = i.known key nk in
              IsQueue-outside m _ v.semds _ q r.1
                (Separate-more p (detached-outside m p q.ring l.2)
                  (Separate-swap (Separate-pool_queue e o m v i key _ _ q)))
                (λ a j. same-waits a) q.in_use;
          unknown = i.unknown;
          ready_pcb = i.ready_pcb;
          ready_idle = λ a j. same-waits a ∙ i.ready_idle a j;
          pool_pcb = λ a j. elim (Bool-cases (a == p)) [
            | inl hit ↦ let same : a ≡ p = ground arith in rw same l.1
            | inr miss ↦ i.pool_pcb a (ground arith)
          ];
          pool_idle = λ a j. same-waits a ∙ elim (Bool-cases (a == p)) [
            | inl hit ↦ let same : a ≡ p = ground arith in rw same l.3
            | inr miss ↦ i.pool_idle a (ground arith)
          ];
          apart = λ a j. ground (arith, i.apart a j, detached-outside m p i.ready l.2);
          free_semd = i.free_semd;
          count = i.count;
          free_link = i.free_link;
        },
        Others-outside e p m (relink (unblocked e L p m) n w) (p ∷ e.pcb_free_h ∷ v.pool) r.1
            (λ a j. ground (arith, l.1, pool-place e o, i.pool_pcb a))
            (λ c d lc. ground (arith, detached-outside m c i.pool lc.2)) (λ c d. same-waits c) refl,
        (refl, refl, refl, refl, refl, refl),
      )
