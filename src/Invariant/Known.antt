-- ===== src/Invariant/Known.antt =====
-- insertBlocked on a semaphore that has a descriptor: the queue with one process more.
use pand_os.Prelude.{
  ◌≡◌, ◌≢◌, true, inl, inr, List, [], ◌∷◌, ◌++◌, arith, ◌==◌, ◌∈◌, ◌∉◌, upd, if◌then◌else◌,
  Bool-cases, ◌∙◌,
}
use pand_os.Mem.{Addr, null, Mem}
use pand_os.Fields.{s_procq}
use pand_os.Links.Rings.{Ring, SameOutside}
use pand_os.Env.{Env, Laws}
use pand_os.Ash.Find.{semd_at}
use pand_os.Ash.Keys.{semd_at-apart}
use pand_os.Ash.Wake.{is_nil}
use pand_os.Invariant.{Layout, IsQueue, View, IsKernel, Holds, IsLoose}
use pand_os.Invariant.Places.{
  Separate, Separate-more, Ring-outside, detached-outside, Separate-ready_queue,
  Separate-pool_queue, Separate-semds_queue, Separate-queues, mem-snoc, snoc-ne-nil,
}
use pand_os.Invariant.Ready.{links_of, IsQueue-outside}

abbrev pub tail : List Addr → List Addr
tail [] = []
tail (x ∷ xs) = xs

-- insertBlocked, on the view: the process joins the queue, which takes the first free descriptor
-- where nobody waited.
abbrev pub joined : (p key : Addr) → View → View
joined p key v = record v {
  semds = if is_nil (v.waiting key) then tail v.semds else v.semds;
  waiting = upd v.waiting key (v.waiting key ++ p ∷ []);
}

module _ (e : Env) (L : Laws e) (o : Layout e) (m : Mem) (v : View) (i : Holds e m v) (key : Addr)
    (nk : key ≢ null) (p : Addr) (l : IsLoose e m p) where
  pub outside : (h : Addr) (xs : List Addr) → Ring m.next m.prev h xs → p ∉ h ∷ xs
  outside h xs r = detached-outside m p r l.2

  -- What the others wait for.
  pub others :
      (h : Addr) (xs : List Addr)
      → Ring m.next m.prev h xs
      → (a : Addr) → a ∈ xs
      → upd m.p_sem_add p key a ≡ m.p_sem_add a
  others h xs r a j = ground (arith, outside h xs r)

  module _ (ne : semd_at key m.table ≢ null) where
    -- The descriptor of the key.
    abbrev held : Addr
    held = semd_at key m.table

    known-IsQueue :
        (n w : Addr → Addr)
        → Ring n w (s_procq held) (v.waiting key ++ p ∷ [])
        → IsQueue e
            (links_of n w)
            (upd m.p_sem_add p key)
            v.semds
            key
            held
            (v.waiting key ++ p ∷ [])
    known-IsQueue n w r =
        let q = i.known key ne in
        record {
          key_mapped = nk;
          ring = r;
          in_use = q.in_use;
          is_semd = q.is_semd;
          is_pcb = λ a j. elim (mem-snoc a p (v.waiting key) j) [
            | inl same ↦ rw same l.1
            | inr old ↦ q.is_pcb a old
          ];
          blocked = λ a j. ground (arith, mem-snoc a p (v.waiting key) j, q.blocked a);
          busy = snoc-ne-nil p (v.waiting key);
        }

    pub known-Holds :
        (n w : Addr → Addr)
        → Ring n w (s_procq held) (v.waiting key ++ p ∷ [])
        → SameOutside (p ∷ s_procq held ∷ v.waiting key) m n w
        → IsKernel e
            (links_of n w)
            m.table
            (upd m.p_sem_add p key)
            m.s_key
            (record v { waiting = upd v.waiting key (v.waiting key ++ p ∷ []) })
    known-Holds n w r same =
        let q = i.known key ne in
        let clear : (h : Addr) (xs : List Addr)
            → Ring m.next m.prev h xs
            → Separate (h ∷ xs) (s_procq held ∷ v.waiting key)
            → Separate (h ∷ xs) (p ∷ s_procq held ∷ v.waiting key) =
          λ h xs r' s. Separate-more p (outside h xs r') s in
        record {
          keyed = i.keyed;
          ready =
              Ring-outside m _ i.ready same
                (clear _ _ i.ready (Separate-ready_queue e o m v i key held _ q));
          pool =
              Ring-outside m _ i.pool same
                (clear _ _ i.pool (Separate-pool_queue e o m v i key held _ q));
          semds =
              Ring-outside m _ i.semds same
                (clear _ _ i.semds (Separate-semds_queue e o m v i key held _ q));
          known = λ k nk'. elim (Bool-cases (k == key)) [
            | inl hit ↦
                let same_key : k ≡ key = ground arith in
                let here : (key == key) ≡ true = ground arith in
                rw (same_key, here) (known-IsQueue n w r)
            | inr miss ↦
                let q' = i.known k nk' in
                simp miss (
                  IsQueue-outside m _ v.semds _ q' same
                    (clear _ _ q'.ring (
                      Separate-queues e o m v i key held _ q k _ _ q' (ground arith)
                        (semd_at-apart m.s_key key k m.table i.keyed ne nk' (ground arith))))
                    (others _ _ q'.ring) q'.in_use)
          ];
          unknown = λ k none. elim (Bool-cases (k == key)) [
            | inl hit ↦ let same_key : k ≡ key = ground arith in absurd (ne cc)
            | inr miss ↦ simp miss (i.unknown k none)
          ];
          ready_pcb = i.ready_pcb;
          ready_idle = λ a j. others _ _ i.ready a j ∙ i.ready_idle a j;
          pool_pcb = i.pool_pcb;
          pool_idle = λ a j. others _ _ i.pool a j ∙ i.pool_idle a j;
          apart = i.apart;
          free_semd = i.free_semd;
          count = i.count;
          free_link = i.free_link;
        }
