-- ===== src/Invariant/Parting.antt =====
-- The queue of a semaphore, the table and the free descriptors without one process.
use pand_os.Prelude.{
  ◌+◌, length, ◌≡◌, ◌≢◌, refl, true, false, ◌⊎◌, inl, inr, List, [], ◌∷◌, ◌++◌, arith, ◌==◌, ◌∈◌,
  ◌∉◌, upd, Bool-cases, ◌∙◌,
}
use pand_os.Mem.{Addr, null, Mem}
use pand_os.Fields.{s_procq, s_link, s_freelink, semd_of_freelink}
use pand_os.Links.Rings.{Ring, SameOutside, erase, mem_of-erase, not_mem-erase_self}
use pand_os.Env.{Env, Laws}
use pand_os.Ash.Find.{IsKeyed, semd_at}
use pand_os.Ash.Keys.{semd_at-apart, semd_at-unhash_other, length-unhash, semd_at-mem}
use pand_os.Ash.Unhash.{IsKeyed-unhash, semd_at-unhash}
use pand_os.Ash.Wake.{IsWaiting, table_after, free_after}
use pand_os.Pcb.{max_proc}
use pand_os.Invariant.{place, Layout, IsPcb, IsQueue, View, IsKernel, Holds}
use pand_os.Invariant.Places.{
  Separate, Separate-swap, Separate-more, Separate-append, Ring-outside, not_mem-place, pool-place,
  ready-place, semds-place, not_mem-of, Separate-ready_semds, Separate-ready_queue,
  Separate-pool_queue, Separate-semds_queue, Separate-queues, Separate-pool_semds,
}
use pand_os.Invariant.Ready.{links_of, IsQueue-outside}

-- A process leaves the queue of a semaphore, and the last one gives the descriptor `sem` back.
abbrev pub parted : (sem p key : Addr) → View → View
parted sem p key v = record v {
  semds = free_after sem (erase p (v.waiting key)) v.semds;
  waiting = upd v.waiting key (erase p (v.waiting key));
}

module _ (e : Env) (L : Laws e) (o : Layout e) (m : Mem) (v : View) (i : Holds e m v) (key : Addr)
    (ne : semd_at key m.table ≢ null) where
  -- The descriptor of the key, and what the invariant says of its queue.
  abbrev pub descriptor : Addr
  descriptor = semd_at key m.table

  queue : IsQueue e m.links m.p_sem_add v.semds key descriptor (v.waiting key)
  queue = i.known key ne

  pub known-IsWaiting : IsWaiting e m key descriptor (v.waiting key) v.semds
  known-IsWaiting =
      let q = queue in
      let s = Separate-semds_queue e o m v i key descriptor (v.waiting key) q in
      let out =
        not_mem-place e (s_freelink descriptor) 4 (v.waiting key) (λ a j. (q.is_pcb a j).0)
          (ground (arith, q.is_semd)) in
      record {
        keyed = i.keyed;
        key_mapped = q.key_mapped;
        sem_mapped = ne;
        found = refl;
        queue = q.ring;
        free = i.semds;
        apart = λ a j. ground (arith, s.apart a, out);
        in_use = ground (arith, q.in_use, q.is_semd, semds-place e o);
        waiting = q.blocked;
      }

  module _ (p : Addr) (j : p ∈ v.waiting key) (n w : Addr → Addr)
      (same : SameOutside
        (s_freelink descriptor ∷ e.semd_free_h ∷ v.semds ++ s_procq descriptor ∷ v.waiting key)
        m
        n
        w) where
    unaffected : (a : Addr) → m.p_sem_add a ≢ key → upd m.p_sem_add p null a ≡ m.p_sem_add a
    unaffected a ne' = ground (arith, queue.blocked p j)

    -- A list that shares no address with the descriptors and with the queue keeps its links.
    clear_parted :
        (h : Addr) (xs : List Addr)
        → (place e h == 220) ≡ false
        → ((a : Addr) → a ∈ xs → IsPcb e a)
        → Separate (h ∷ xs) (e.semd_free_h ∷ v.semds)
        → Separate (h ∷ xs) (s_procq descriptor ∷ v.waiting key)
        → Separate
            (h ∷ xs)
            (s_freelink descriptor ∷ e.semd_free_h ∷ v.semds ++ s_procq descriptor ∷ v.waiting key)
    clear_parted h xs ph pcbs s t =
        let out =
          not_mem-place e (s_freelink descriptor) 4 xs (λ a l. (pcbs a l).0)
            (ground (arith, queue.is_semd)) in
        Separate-append (s_freelink descriptor ∷ e.semd_free_h ∷ v.semds) _
          (Separate-more (s_freelink descriptor) (ground (arith, queue.is_semd)) s) t

    -- The invariant once the table and the free descriptors are changed for the key.
    parted-Holds :
        (t' : List (Addr × Addr)) (semds' rest : List Addr)
        → IsKeyed m.s_key t'
        → ((k : Addr) → k ≢ key → semd_at k t' ≡ semd_at k m.table)
        → (semd_at key t' ≢ null
            → IsQueue e (links_of n w) (upd m.p_sem_add p null) semds' key (semd_at key t') rest)
        → (semd_at key t' ≡ null → rest ≡ [])
        → Ring n w e.semd_free_h semds'
        → ((a : Addr) → a ∈ semds' → (a ≡ s_freelink descriptor) ⊎ (a ∈ v.semds))
        → length semds' + length t' ≡ max_proc
        → IsKernel e
            (links_of n w)
            t'
            (upd m.p_sem_add p null)
            m.s_key
            (record v { semds = semds'; waiting = upd v.waiting key rest })
    parted-Holds t' semds' rest keyed at here gone free from total = record {
      keyed = keyed;
      ready = Ring-outside m _ i.ready same (
          clear_parted _ _ (ground (arith, ready-place e)) i.ready_pcb
            (Separate-ready_semds e o m v i) (Separate-ready_queue e o m v i key _ _ queue));
      pool = Ring-outside m _ i.pool same (
          clear_parted _ _ (ground (arith, pool-place e o)) i.pool_pcb
            (Separate-pool_semds e o m v i) (Separate-pool_queue e o m v i key _ _ queue));
      semds = free;
      known = λ k nk. elim (Bool-cases (k == key)) [
        | inl hit ↦
            let same_key : k ≡ key = ground arith in
            let test : (key == key) ≡ true = ground arith in
            rw (same_key, test) (here (rw same_key at nk))
        | inr miss ↦
            let d : k ≢ key = ground arith in
            let nk' : semd_at k m.table ≢ null = rw (at k d) at nk in
            let q = i.known k nk' in
            let ns = semd_at-apart m.s_key key k m.table i.keyed ne nk' d in
            rw (at k d) (
              simp miss (
                IsQueue-outside m _ semds' _ q same
                  (clear_parted _ _ (ground (arith, q.is_semd)) q.is_pcb
                    (Separate-swap (Separate-semds_queue e o m v i k _ _ q))
                    (Separate-queues e o m v i key _ _ queue k _ _ q d ns))
                  (λ a l. unaffected a (ground (arith, q.blocked a l)))
                  (not_mem-of (s_freelink (semd_at k m.table)) semds' λ l. elim (from _ l) [
                    | inl mine ↦ absurd (ns (omega arith))
                    | inr old ↦ ground (arith, q.in_use)
                  ])))
      ];
      unknown = λ k none. elim (Bool-cases (k == key)) [
        | inl hit ↦ let same_key : k ≡ key = ground arith in simp hit (gone (rw same_key at none))
        | inr miss ↦ simp miss (i.unknown k (rw (at k (ground arith)) at none))
      ];
      ready_pcb = i.ready_pcb;
      ready_idle = λ a l.
          unaffected a (ground (arith, i.ready_idle a l, queue.key_mapped)) ∙ i.ready_idle a l;
      pool_pcb = i.pool_pcb;
      pool_idle =
          λ a l. unaffected a (ground (arith, i.pool_idle a l, queue.key_mapped)) ∙ i.pool_idle a l;
      apart = i.apart;
      free_semd = λ a l. elim (from a l) [
        | inl mine ↦
            let back : semd_of_freelink a ≡ descriptor = omega arith in rw back queue.is_semd
        | inr old ↦ i.free_semd a old
      ];
      count = total;
      free_link = λ a l. elim (from a l) [ inl mine ↦ omega arith | inr old ↦ i.free_link a old ];
    }

    -- The queue without the process.
    rest-IsQueue :
        (rest : List Addr)
        → erase p (v.waiting key) ≡ rest
        → rest ≢ []
        → Ring n w (s_procq descriptor) rest
        → IsQueue e (links_of n w) (upd m.p_sem_add p null) v.semds key descriptor rest
    rest-IsQueue rest eq more r =
        let q = queue in
        record {
          key_mapped = q.key_mapped;
          ring = r;
          in_use = q.in_use;
          is_semd = q.is_semd;
          is_pcb = λ a l. q.is_pcb a (mem_of-erase a p (v.waiting key) (rw eq l));
          blocked = λ a l.
              let old : a ∈ v.waiting key = mem_of-erase a p (v.waiting key) (rw eq l) in
              let out : p ∉ rest = rw eq at (not_mem-erase_self p (v.waiting key) q.ring.apart.1) in
              ground (arith, q.blocked a old);
          busy = more;
        }

    pub rest-Holds :
        (rest : List Addr)
        → erase p (v.waiting key) ≡ rest
        → Ring n w (s_procq descriptor) rest
        → Ring n w e.semd_free_h (free_after descriptor rest v.semds)
        → IsKernel e
            (links_of n w)
            (table_after descriptor rest m.table)
            (upd m.p_sem_add p null)
            m.s_key
            (record v {
              semds = free_after descriptor rest v.semds;
              waiting = upd v.waiting key rest;
            })
    rest-Holds [] eq r free =
        let none = semd_at-unhash m.s_key key descriptor m.table i.keyed refl ne in
        parted-Holds _ _ [] (IsKeyed-unhash m.s_key _ m.table i.keyed)
          (λ k d. semd_at-unhash_other m.s_key descriptor key k m.table i.keyed ne refl d)
          (λ nk. absurd (nk none)) (λ _. refl) free
          (λ a l. elim (Bool-cases (a == s_freelink descriptor)) [
            | inl hit ↦ inl (ground arith)
            | inr miss ↦ inr (ground arith)
          ])
          (omega (
            arith,
            i.count,
            length-unhash m.s_key (s_link descriptor) m.table i.keyed (semd_at-mem key m.table ne),
          ))
    rest-Holds (x ∷ xs) eq r free =
        parted-Holds m.table v.semds (x ∷ xs) i.keyed (λ k d. refl)
          (λ nk. rest-IsQueue (x ∷ xs) eq (λ c. ground (arith, c)) r) (λ none. absurd (ne none))
          free (λ a l. inr l) i.count
