-- ===== src/Ash/Leave.antt =====
-- outBlocked of pandos/phase1/ash.c, on either way it ends: others still wait for the semaphore, or the
-- last process gives the descriptor back.
use pand_os.Prelude.{◌≡◌, ◌≢◌, refl, false, List, [], ◌∷◌, ◌++◌, arith, ◌==◌, ◌∈◌, ◌∉◌, has-append}
use pand_os.Mem.{Addr, null, Mem, relink, ok}
use pand_os.Fields.{s_procq, s_link, s_freelink}
use pand_os.Outcome.{Relinks, relinks, Relinks-bind}
use pand_os.Links.Rings.{
  Ring, Ring-frame, SameOutside, empty-nil, erase, empty-mem, node-ne-null, not_mem-erase_nil,
}
use pand_os.Env.{Env, Laws, set_table, unhash}
use pand_os.Ash.{out_blocked, release_if_empty}
use pand_os.Ash.Find.{IsKeyed, semd_at, find_semd-semd_at}
use pand_os.Ash.Block.{waits}

module _ (e : Env) (L : Laws e) (sem : Addr) (ns : sem ≢ null) where
  open e use {semd_free_h}

  -- A queue that still holds a process keeps its descriptor.
  release_if_empty-busy :
      (x : Addr) (xs : List Addr) (m : Mem)
      → Ring m.next m.prev (s_procq sem) xs
      → x ∈ xs
      → release_if_empty e sem m ≡ ok tt m
  unfolding release_if_empty
  release_if_empty-busy x xs m r i =
      let eq : (s_procq sem == null) ≡ false = ground arith in
      simp (L.empty_lem (s_procq sem) m, eq, empty-mem x r i)

  release_if_empty-last :
      (fs : List Addr) (m : Mem)
      → Ring m.next m.prev (s_procq sem) []
      → Ring m.next m.prev semd_free_h fs
      → s_freelink sem ∉ semd_free_h ∷ fs
      → Relinks
          (set_table (unhash (s_link sem) m.table) m)
          (λ _ n v.
            Ring n v semd_free_h (s_freelink sem ∷ fs)
            × SameOutside (s_freelink sem ∷ semd_free_h ∷ fs) m n v)
          (release_if_empty e sem m)
  unfolding release_if_empty
  release_if_empty-last fs m r free out =
      let eq : (s_procq sem == null) ≡ false = ground arith in
      simp
        (L.empty_lem (s_procq sem) m, eq, empty-nil r, L.hash_del_lem (s_link sem) m (ground arith))
        (L.add_lem (s_freelink sem) semd_free_h fs _ free out (ground arith))

  module _ (m : Mem) (w : IsKeyed m.s_key m.table) (p : Addr) (xs : List Addr)
      (r : Ring m.next m.prev (s_procq sem) xs) (i : p ∈ xs) (key : Addr) (nk : key ≢ null)
      (waiting : m.p_sem_add p ≡ key) (at : semd_at key m.table ≡ sem) where
    pub out_blocked-busy :
        (x : Addr)
        → x ∈ erase p xs
        → Relinks
            (waits p null m)
            (λ a n v.
              (a ≡ p)
              × Ring n v (s_procq sem) (erase p xs)
              × (n p ≡ null)
              × (v p ≡ null)
              × SameOutside (s_procq sem ∷ xs) m n v)
            (out_blocked e p m)
    unfolding out_blocked
    out_blocked-busy x j =
        let ek : (key == null) ≡ false = ground arith in
        let ep : (p == null) ≡ false = ground (arith, node-ne-null r p i) in
        let es : (sem == null) ≡ false = ground arith in
        simp (ep, waiting, ek, find_semd-semd_at e L key m w, at, es)
          (Relinks-bind _ (L.del_lem p (s_procq sem) xs m r i) λ _ n v q.
            simp (ep, release_if_empty-busy x (erase p xs) (waits p null (relink m n v)) q.0 j)
              (relinks (refl, q.0, q.1, q.2, q.3)))

    pub out_blocked-last :
        (fs : List Addr)
        → erase p xs ≡ []
        → Ring m.next m.prev semd_free_h fs
        → s_freelink sem ∉ p ∷ s_procq sem ∷ semd_free_h ∷ fs
        → s_procq sem ∉ p ∷ s_freelink sem ∷ semd_free_h ∷ fs
        → p ∉ semd_free_h ∷ fs
        → Relinks
            (set_table (unhash (s_link sem) m.table) (waits p null m))
            (λ a n v.
              (a ≡ p)
              × Ring n v (s_procq sem) []
              × Ring n v semd_free_h (s_freelink sem ∷ fs)
              × (n p ≡ null)
              × (v p ≡ null)
              × SameOutside (s_freelink sem ∷ semd_free_h ∷ fs ++ s_procq sem ∷ xs) m n v)
            (out_blocked e p m)
    unfolding out_blocked
    out_blocked-last fs last free of oq op =
        let ek : (key == null) ≡ false = ground arith in
        let ep : (p == null) ≡ false = ground (arith, node-ne-null r p i) in
        let es : (sem == null) ≡ false = ground arith in
        simp (ep, waiting, ek, find_semd-semd_at e L key m w, at, es)
          (Relinks-bind _ (L.del_lem p (s_procq sem) xs m r i) λ _ n v q.
            let rest : Ring n v (s_procq sem) [] = rw last at q.0 in
            simp ep (
              Relinks-bind _
                (release_if_empty-last fs (waits p null (relink m n v)) rest
                  (Ring-frame n v free
                    (λ x j. ground (arith, q.3 x, not_mem-erase_nil x p xs last)))
                  (ground arith))
                λ _ n2 v2 q2. relinks (
                  refl,
                  Ring-frame n2 v2 rest (λ x j. ground (arith, q2.1 x)),
                  q2.0,
                  ground (arith, q2.1 p),
                  ground (arith, q2.1 p),
                  λ x o. ground (
                    arith,
                    q2.1 x,
                    q.3 x,
                    has-append x (s_freelink sem ∷ semd_free_h ∷ fs) (s_procq sem ∷ xs),
                  ),
                )))
