-- ===== src/Pcb/Alloc.antt =====
-- The free list of process control blocks (pandos/phase1/pcb.c).
use pand_os.Prelude.{◌≡◌, ◌≢◌, subst, false, List, [], ◌∷◌, arith, ◌==◌, ◌∉◌, upd}
use pand_os.Mem.{Addr, null, Mem, relink, set_pcbs, ok}
use pand_os.Fields.{p_child, p_sib}
use pand_os.Outcome.{Returns, Relinks, Relinks-return, Returns-mono}
use pand_os.Links.Rings.{
  Ring, Ring-frame, SameOutside, node-ne-null, erase-head, next-head, first-ne-head, empty-nil,
}
use pand_os.Env.{Env, Laws}
use pand_os.Pcb.{alloc_pcb, free_pcb}
use pand_os.Pcb.Unlink.{IsDetached, list_safe_del-detached, list_safe_del-Removed}
use pand_os.Pcb.Reset.{IsFresh, OnlyReset, reset_pcb-IsFresh}

module _ (e : Env) (L : Laws e) where
  open e use {state_gpr_len, pcb_free_h}

  pub alloc_pcb-nil : (m : Mem) → Ring m.next m.prev pcb_free_h [] → alloc_pcb e m ≡ ok null m
  unfolding alloc_pcb
  alloc_pcb-nil m r =
      let eh : (pcb_free_h == null) ≡ false = ground (arith, r.mapped) in
      simp (L.empty_lem pcb_free_h m, eh, empty-nil r)

  -- The rest of the free list is not touched by the links of the block that leaves it.
  abbrev pub IsSpaced : Addr → List Addr → Type 0
  IsSpaced p ps = (p_child p ∉ pcb_free_h ∷ p ∷ ps) × (p_sib p ∉ pcb_free_h ∷ p ∷ ps)

  -- Where the free list is p and then ps, and the links of p are not in it, allocPcb returns p with
  -- the list, tree and time fields and the saved state cleared, the free list is ps, and every
  -- other process, the namespaces and the number of p are as before.
  pub alloc_pcb-cons :
      (p : Addr) (ps : List Addr) (m : Mem)
      → Ring m.next m.prev pcb_free_h (p ∷ ps)
      → IsSpaced p ps
      → Returns
          (λ q m'.
            (q ≡ p)
            × IsFresh state_gpr_len m' p
            × Ring m'.next m'.prev pcb_free_h ps
            × OnlyReset (p_child p ∷ p_sib p ∷ pcb_free_h ∷ p ∷ ps) p m m')
          (alloc_pcb e m)
  unfolding alloc_pcb
  alloc_pcb-cons p ps m r apart =
      let eh : (pcb_free_h == null) ≡ false = ground (arith, r.mapped) in
      simp (L.empty_lem pcb_free_h m, eh, next-head r, first-ne-head r)
        (Relinks-return _ (list_safe_del-Removed e L p pcb_free_h (p ∷ ps) m r (ground arith))
          λ _ n v w.
            Returns-mono (reset_pcb-IsFresh e L p (relink m n v) (node-ne-null r p (ground arith)))
              λ q m' (got, fresh, only). (
                got,
                fresh,
                Ring-frame _ _ (subst (λ zs. Ring n v pcb_free_h zs) (erase-head p ps) w.0)
                    (λ x i. only.links x (ground (arith, r.apart))),
                record {
                  links = λ a o. ground (arith, only.links a, w.3 a);
                  table = only.table;
                  sched = only.sched;
                  cpu = only.cpu;
                  word = only.word;
                  s_key = only.s_key;
                  n_type = only.n_type;
                  namespaces = only.namespaces;
                  p_pid = only.p_pid;
                  p_sem_add = only.p_sem_add;
                  p_parent = only.p_parent;
                  p_time = only.p_time;
                  p_support_struct = only.p_support_struct;
                  p_saved_device_status = only.p_saved_device_status;
                  state = only.state;
                },
              ))

  -- The memory once the process waits for no semaphore.
  abbrev pub unblocked : Addr → Mem → Mem
  unblocked p = set_pcbs (λ b. record b { p_sem_add = upd b.p_sem_add p null })

  -- A process that is in no list goes to the front of the free list, and waits for no semaphore
  -- afterwards.
  pub free_pcb-cons :
      (p : Addr) (ps : List Addr) (m : Mem)
      → Ring m.next m.prev pcb_free_h ps
      → p ≢ null
      → p ∉ pcb_free_h ∷ ps
      → IsDetached m p
      → Relinks
          (unblocked p m)
          (λ _ n v. Ring n v pcb_free_h (p ∷ ps) × SameOutside (p ∷ pcb_free_h ∷ ps) m n v)
          (free_pcb e p m)
  unfolding free_pcb
  free_pcb-cons p ps m r ne out d =
      let ep : (p == null) ≡ false = ground arith in
      simp (ep, list_safe_del-detached e L p m ne d) (L.add_lem p pcb_free_h ps _ r out ne)
