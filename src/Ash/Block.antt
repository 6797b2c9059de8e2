-- ===== src/Ash/Block.antt =====
-- insertBlocked: the process joins the queue of its semaphore, which takes a descriptor from the free
-- list where it has none.
use pand_os.Prelude.{◌≡◌, ◌≢◌, refl, subst, false, List, [], ◌∷◌, ◌++◌, arith, ◌==◌, ◌∉◌, upd}
use pand_os.Mem.{Addr, null, Mem, relink, set_pcbs, set_objects, ok}
use pand_os.Fields.{s_procq, s_link, s_freelink, semd_of_freelink}
use pand_os.Outcome.{Relinks, relinks, Relinks-bind}
use pand_os.Links.Rings.{
  Ring, Ring-frame, SameOutside, empty-nil, first-ne-head, next-head, erase-head,
}
use pand_os.Env.{Env, Laws, nodes, set_table}
use pand_os.Ash.{insert_blocked, head_blocked, out_blocked}
use pand_os.Ash.Find.{IsKeyed, semd_at, find_semd-semd_at}

-- The memory with the semaphore that a process waits for.
abbrev pub waits : (p key : Addr) → Mem → Mem
waits p key = set_pcbs (λ b. record b { p_sem_add = upd b.p_sem_add p key })

-- The memory with the key of a descriptor.
abbrev pub keyed : (sem key : Addr) → Mem → Mem
keyed sem key = set_objects (λ b. record b { s_key = upd b.s_key sem key })

module _ (e : Env) (L : Laws e) (m : Mem) (w : IsKeyed m.s_key m.table) (key : Addr)
    (nk : key ≢ null) where
  open e use {semd_free_h}

  -- The head of the queue is found without a change.
  pub head_blocked-cons :
      (sem p : Addr) (ps : List Addr)
      → semd_at key m.table ≡ sem
      → sem ≢ null
      → Ring m.next m.prev (s_procq sem) (p ∷ ps)
      → head_blocked e key m ≡ ok p m
  unfolding head_blocked
  head_blocked-cons sem p ps at ns r =
      let ek : (key == null) ≡ false = ground arith in
      let es : (sem == null) ≡ false = ground arith in
      let eq : (s_procq sem == null) ≡ false = ground arith in
      simp (
        ek,
        find_semd-semd_at e L key m w,
        at,
        es,
        L.empty_lem (s_procq sem) m,
        eq,
        next-head r,
        first-ne-head r,
      )

  pub head_blocked-unknown : semd_at key m.table ≡ null → head_blocked e key m ≡ ok null m
  unfolding head_blocked
  head_blocked-unknown at =
      let ek : (key == null) ≡ false = ground arith in simp (ek, find_semd-semd_at e L key m w, at)

  module _ (p : Addr) (np : p ≢ null) where
    pub insert_blocked-twice : m.p_sem_add p ≢ null → insert_blocked e key p m ≡ ok 2 m
    unfolding insert_blocked
    insert_blocked-twice waiting =
        let ek : (key == null) ≡ false = ground arith in
        let ep : (p == null) ≡ false = ground arith in
        let eb : (m.p_sem_add p == null) ≡ false = ground arith in simp (ek, ep, eb)

    module _ (idle : m.p_sem_add p ≡ null) where
      -- Where the semaphore has a descriptor and the process waits for nothing and is not on its
      -- queue, insertBlocked returns 0, the process waits for the semaphore and is the last of its
      -- queue, and no other link changes.
      pub insert_blocked-known :
          (sem : Addr) (xs : List Addr)
          → semd_at key m.table ≡ sem
          → sem ≢ null
          → Ring m.next m.prev (s_procq sem) xs
          → p ∉ s_procq sem ∷ xs
          → Relinks
              (waits p key m)
              (λ a n v.
                (a ≡ 0)
                × Ring n v (s_procq sem) (xs ++ p ∷ [])
                × SameOutside (p ∷ s_procq sem ∷ xs) m n v)
              (insert_blocked e key p m)
      unfolding insert_blocked
      insert_blocked-known sem xs at ns r out =
          let ek : (key == null) ≡ false = ground arith in
          let ep : (p == null) ≡ false = ground arith in
          let es : (sem == null) ≡ false = ground arith in
          simp (ek, ep, idle, find_semd-semd_at e L key m w, at, es)
            (Relinks-bind _ (L.add_tail_lem p (s_procq sem) xs m r out np)
              λ _ n v q. simp ep (relinks (refl, q.0, q.1)))

      -- Where a process that waits for nothing is to wait for a semaphore without a descriptor and
      -- no descriptor is free, insertBlocked returns 3 and changes nothing.
      pub insert_blocked-full :
          semd_at key m.table ≡ null
          → Ring m.next m.prev semd_free_h []
          → insert_blocked e key p m ≡ ok 3 m
      unfolding insert_blocked
      insert_blocked-full at r =
          let ek : (key == null) ≡ false = ground arith in
          let ep : (p == null) ≡ false = ground arith in
          let eh : (semd_free_h == null) ≡ false = ground (arith, r.mapped) in
          simp (
            ek,
            ep,
            idle,
            find_semd-semd_at e L key m w,
            at,
            L.empty_lem semd_free_h m,
            eh,
            empty-nil r,
          )

      -- Where the semaphore has no descriptor, the first free one is sem, and neither the process
      -- nor the queue of sem is linked with the free list, insertBlocked returns 0: sem is keyed
      -- and in the hash table, its queue holds just the process, which waits for the semaphore, and
      -- the free list holds the rest.
      pub insert_blocked-new :
          (sem : Addr) (fs : List Addr)
          → semd_at key m.table ≡ null
          → Ring m.next m.prev semd_free_h (s_freelink sem ∷ fs)
          → sem ≢ null
          → s_link sem ∉ nodes m.table
          → p ∉ s_procq sem ∷ s_freelink sem ∷ semd_free_h ∷ fs
          → s_procq sem ∉ s_freelink sem ∷ semd_free_h ∷ fs
          → Relinks
              (set_table ((s_link sem, key) ∷ m.table) (waits p key (keyed sem key m)))
              (λ a n v.
                (a ≡ 0)
                × Ring n v (s_procq sem) (p ∷ [])
                × Ring n v semd_free_h fs
                × SameOutside (p ∷ s_procq sem ∷ semd_free_h ∷ s_freelink sem ∷ fs) m n v)
              (insert_blocked e key p m)
      unfolding insert_blocked
      insert_blocked-new sem fs at r ns unused op oq =
          let ek : (key == null) ≡ false = ground arith in
          let ep : (p == null) ≡ false = ground arith in
          let es : (sem == null) ≡ false = ground arith in
          let eh : (semd_free_h == null) ≡ false = ground (arith, r.mapped) in
          let back : semd_of_freelink (s_freelink sem) ≡ sem = omega arith in
          simp
            (
              ek,
              ep,
              idle,
              find_semd-semd_at e L key m w,
              at,
              L.empty_lem semd_free_h m,
              eh,
              next-head r,
              first-ne-head r,
              back,
            )
            (Relinks-bind _
              (L.del_lem (s_freelink sem) semd_free_h (s_freelink sem ∷ fs) m r (ground arith))
              λ _ n v q.
                let free : Ring n v semd_free_h fs =
                  subst (λ zs. Ring n v semd_free_h zs) (erase-head (s_freelink sem) fs) q.0 in
                let n1 = upd n (s_procq sem) (s_procq sem) in
                let v1 = upd v (s_procq sem) (s_procq sem) in
                let m1 = relink (keyed sem key m) n1 v1 in
                let queue : Ring n1 v1 (s_procq sem) [] = record {
                  links = ground arith;
                  apart = (refl, tt);
                  mapped = ground arith;
                } in
                simp (es, λ (m' : Mem). L.init_lem (s_procq sem) m' (ground arith))
                  (Relinks-bind _ (L.add_tail_lem p (s_procq sem) [] m1 queue (ground arith) np)
                    λ _ n2 v2 q2.
                      simp
                        (
                          ep,
                          L.hash_add_lem (s_link sem) key
                              (waits p key (relink (keyed sem key m) n2 v2)) (ground arith) unused,
                        )
                        (relinks (
                          refl,
                          q2.0,
                          Ring-frame n2 v2 free (λ x i. ground (arith, q2.1 x)),
                          λ x o. ground (arith, q2.1 x, q.3 x),
                        ))))

-- outBlocked of a process that waits for nothing does nothing.
pub out_blocked-idle :
    (e : Env) (p : Addr) (m : Mem) → p ≢ null → m.p_sem_add p ≡ null → out_blocked e p m ≡ ok null m
unfolding out_blocked
out_blocked-idle e p m np idle = let ep : (p == null) ≡ false = ground arith in simp (ep, idle)
