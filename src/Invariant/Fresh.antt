-- ===== src/Invariant/Fresh.antt =====
-- insertBlocked on a semaphore that takes a free descriptor.
use pand_os.Prelude.{
  ap, length, ◌≡◌, ◌≢◌, true, false, inl, inr, List, [], ◌∷◌, ◌-◌, arith, ◌==◌, ◌∈◌, ◌∉◌, upd,
  if◌then◌else◌, Bool-cases, ◌∙◌,
}
use pand_os.Mem.{Addr, null, Mem}
use pand_os.Fields.{s_procq, s_link, s_freelink, semd_of_freelink}
use pand_os.Links.Rings.{Ring, SameOutside}
use pand_os.Env.{Env, Laws, nodes}
use pand_os.Ash.Find.{semd_at}
use pand_os.Ash.Keys.{lookup-null, semd_at-node, IsKeyed-add, semd_at-add, semd_at-add_other}
use pand_os.Invariant.{place, Layout, IsPcb, IsSemd, IsQueue, View, IsKernel, Holds, IsLoose}
use pand_os.Invariant.Places.{
  Separate, Separate-swap, Separate-more, Ring-outside, not_mem-place, pool-place, ready-place,
  not_mem-of, Separate-ready_semds, Separate-semds_queue, Separate-pool_semds,
}
use pand_os.Invariant.Ready.{links_of, IsQueue-outside}
use pand_os.Invariant.Known.{outside, others}

module _ (e : Env) (L : Laws e) (o : Layout e) (m : Mem) (v : View) (i : Holds e m v) (key : Addr)
    (nk : key ≢ null) (p : Addr) (l : IsLoose e m p) where
  module _ (none : semd_at key m.table ≡ null) (sem : Addr) (fs : List Addr)
      (eq : v.semds ≡ s_freelink sem ∷ fs) where
    pub free-Ring : Ring m.next m.prev e.semd_free_h (s_freelink sem ∷ fs)
    free-Ring = rw eq at i.semds

    head-mem : s_freelink sem ∈ v.semds
    head-mem = rw eq (ground arith)

    tail-mem : (a : Addr) → a ∈ fs → a ∈ v.semds
    tail-mem a j = rw eq (ground arith)

    pub head-IsSemd : IsSemd e sem
    head-IsSemd =
        let back : semd_of_freelink (s_freelink sem) ≡ sem = omega arith in
        rw back at (i.free_semd (s_freelink sem) head-mem)

    pub head-unused : s_link sem ∉ nodes m.table
    head-unused = not_mem-of (s_link sem) (nodes m.table) λ j.
        let found = semd_at-node m.s_key sem m.table i.keyed j in
        let q = i.known (m.s_key sem) (ground (arith, head-IsSemd)) in
        let used : s_freelink sem ∉ v.semds = rw found at q.in_use in
        absurd (ground (arith, head-mem))

    -- A list that shares no address with the free descriptors shares none with the links that change.
    clear_new :
        (h : Addr) (xs : List Addr)
        → Ring m.next m.prev h xs
        → Separate (h ∷ xs) (e.semd_free_h ∷ v.semds)
        → s_procq sem ∉ h ∷ xs
        → Separate (h ∷ xs) (p ∷ s_procq sem ∷ e.semd_free_h ∷ s_freelink sem ∷ fs)
    clear_new h xs r s out =
        Separate-more p (outside e L o m v i key nk p l h xs r)
          (Separate-more (s_procq sem) out (rw eq at s))

    procq-outside :
        (h : Addr) (xs : List Addr)
        → (place e h == 204) ≡ false
        → ((a : Addr) → a ∈ xs → IsPcb e a)
        → s_procq sem ∉ h ∷ xs
    procq-outside h xs ne pcbs =
        let apart =
          not_mem-place e (s_procq sem) 4 xs (λ a j. (pcbs a j).0) (ground (arith, head-IsSemd)) in
        ground (arith, head-IsSemd)

    new-IsQueue :
        (n w : Addr → Addr)
        → Ring n w (s_procq sem) (p ∷ [])
        → IsQueue e (links_of n w) (upd m.p_sem_add p key) fs key sem (p ∷ [])
    new-IsQueue n w r = record {
      key_mapped = nk;
      ring = r;
      in_use = ground (arith, free-Ring.apart);
      is_semd = head-IsSemd;
      is_pcb = λ a j. let same : a ≡ p = ground arith in rw same l.1;
      blocked = λ a j. ground arith;
      busy = λ eq. ground (arith, eq);
    }

    pub new-Holds :
        (n w : Addr → Addr)
        → Ring n w (s_procq sem) (p ∷ [])
        → Ring n w e.semd_free_h fs
        → SameOutside (p ∷ s_procq sem ∷ e.semd_free_h ∷ s_freelink sem ∷ fs) m n w
        → IsKernel e
            (links_of n w)
            ((s_link sem, key) ∷ m.table)
            (upd m.p_sem_add p key)
            (upd m.s_key sem key)
            (record v { semds = fs; waiting = upd v.waiting key (p ∷ []) })
    new-Holds n w r rf same = record {
      keyed =
          IsKeyed-add m.s_key sem key m.table head-IsSemd.0 head-unused
            (lookup-null m.s_key key m.table i.keyed none) i.keyed;
      ready = Ring-outside m _ i.ready same (
          clear_new _ _ i.ready (Separate-ready_semds e o m v i)
            (procq-outside _ _ (ground (arith, ready-place e)) i.ready_pcb));
      pool = Ring-outside m _ i.pool same (
          clear_new _ _ i.pool (Separate-pool_semds e o m v i)
            (procq-outside _ _ (ground (arith, pool-place e o)) i.pool_pcb));
      semds = rf;
      known = λ k nk'. elim (Bool-cases (k == key)) [
        | inl hit ↦
            let same_key : k ≡ key = ground arith in
            let here : (key == key) ≡ true = ground arith in
            let at : (if s_link sem == null then null else s_link sem - 12) ≡ sem = ground arith in
            rw (same_key, here, at) (new-IsQueue n w r)
        | inr miss ↦
            let at = semd_at-add_other sem key k m.table (ground arith) in
            let q = i.known k (rw at at nk') in
            let used : s_freelink (semd_at k m.table) ∉ s_freelink sem ∷ fs = rw eq at q.in_use in
            let apart =
              not_mem-place e (s_procq sem) 4 (v.waiting k) (λ a j. (q.is_pcb a j).0)
                (ground (arith, head-IsSemd)) in
            rw at (
              simp miss (
                IsQueue-outside m _ fs _ q same
                  (clear_new _ _ q.ring (Separate-swap (Separate-semds_queue e o m v i k _ _ q))
                    (ground (arith, used, apart)))
                  (others e L o m v i key nk p l _ _ q.ring) (ground (arith, used))))
      ];
      unknown = λ k none'. elim (Bool-cases (k == key)) [
        | inl hit ↦
            let same_key : k ≡ key = ground arith in
            absurd (head-IsSemd.0 (cc (same_key, semd_at-add sem key m.table)))
        | inr miss ↦
            let at = semd_at-add_other sem key k m.table (ground arith) in
            simp miss (i.unknown k (rw at at none'))
      ];
      ready_pcb = i.ready_pcb;
      ready_idle = λ a j. others e L o m v i key nk p l _ _ i.ready a j ∙ i.ready_idle a j;
      pool_pcb = i.pool_pcb;
      pool_idle = λ a j. others e L o m v i key nk p l _ _ i.pool a j ∙ i.pool_idle a j;
      apart = i.apart;
      free_semd = λ a j. i.free_semd a (tail-mem a j);
      count = omega (arith, i.count, ap length eq);
      free_link = λ a j. i.free_link a (tail-mem a j);
    }
