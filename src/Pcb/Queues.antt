-- ===== src/Pcb/Queues.antt =====
-- The process queues of pandos/phase1/pcb.c against lists of processes.
use pand_os.Prelude.{
  ◌<◌, ◌≡◌, ◌≢◌, refl, true, false, subst, ◌⊎◌, inl, inr, List, [], ◌∷◌, ◌++◌, arith, ◌==◌, length,
  ◌∈◌, ◌∉◌,
}
use pand_os.Mem.{Addr, null, Mem, relink, ok, fault, and_then}
use pand_os.Outcome.{Relinks, relinks, Relinks-bind, Relinks-mono, Relinks-rebase}
use pand_os.Links.Rings.{
  Ring, erase, erase-not_mem, not_mem-erase, not_mem-erase_self, SameOutside, node-ne-null,
  first-ne-head, erase-head, empty-nil, next-head,
}
use pand_os.Env.{Env, Laws}
use pand_os.Pcb.{
  list_steps, list_safe_del, insert_proc_q, out_proc_q, remove_proc_q, head_proc_q, empty_proc_q,
}
use pand_os.Pcb.Unlink.{
  IsDetached, Removed, list_safe_del-detached, list_safe_del-Removed, list_contains-has,
}

-- A process that may be put on a queue: it is there already, or in no list.
abbrev pub IsMovable : Mem → List Addr → Addr → Type 0
IsMovable m xs p = (p ∈ xs) ⊎ ((p ∉ xs) × IsDetached m p)

module _ (e : Env) (L : Laws e) (m : Mem) (h : Addr) (xs : List Addr)
    (r : Ring m.next m.prev h xs) where
  -- A node that is in the list already, or in no list, becomes its last: it is taken out and put at the
  -- end, with the order of the others kept and no link outside the list changed.
  pub list_safe_del-append :
      (p : Addr)
      → p ≢ null
      → p ≢ h
      → IsMovable m xs p
      → Relinks m
          (λ _ n v. Ring n v h (erase p xs ++ p ∷ []) × SameOutside (p ∷ h ∷ xs) m n v)
          (and_then (list_safe_del e p m) (λ _. e.list_add_tail p h))
  list_safe_del-append p ne nh (inl i) =
      Relinks-bind _ (list_safe_del-Removed e L p h xs m r i) λ _ n v (q, np, vp, same).
        Relinks-rebase n v
          (L.add_tail_lem p h (erase p xs) (relink m n v) q
            (ground (arith, not_mem-erase_self p xs r.apart.1)) ne)
          λ _ n' v' (q', same'). (q', λ a o. ground (arith, same a, same' a, not_mem-erase a p xs))
  list_safe_del-append p ne nh (inr (o, d)) =
      simp (list_safe_del-detached e L p m ne d, erase-not_mem p xs o)
        (L.add_tail_lem p h xs m r (ground arith) ne)

  -- A process that is on the queue already, or in no list, becomes the last of the queue, with the
  -- order of the others kept and no link outside the queue changed.
  pub insert_proc_q-append :
      (p : Addr)
      → p ≢ null
      → p ≢ h
      → IsMovable m xs p
      → Relinks m
          (λ _ n v. Ring n v h (erase p xs ++ p ∷ []) × SameOutside (p ∷ h ∷ xs) m n v)
          (insert_proc_q e h p m)
  unfolding insert_proc_q
  insert_proc_q-append p ne nh movable =
      let ep : (p == null) ≡ false = ground arith in
      let eh : (h == null) ≡ false = ground (arith, r.mapped) in
      simp (ep, eh) (list_safe_del-append p ne nh movable)

  -- A process on a queue of at most 20 is returned by outProcQ and is in no list then; the others
  -- keep their order.
  pub out_proc_q-Removed :
      (p : Addr)
      → length xs < list_steps
      → p ∈ xs
      → Relinks m (λ q n v. (q ≡ p) × Removed m h xs p n v) (out_proc_q e h p m)
  unfolding out_proc_q
  out_proc_q-Removed p few i =
      let ep : (p == null) ≡ false = ground (arith, node-ne-null r p i) in
      let eh : (h == null) ≡ false = ground (arith, r.mapped) in
      simp (list_contains-has p h xs m r (node-ne-null r p i) few, i, ep, eh)
        (Relinks-bind _ (list_safe_del-Removed e L p h xs m r i) λ _ n v q. relinks (refl, q))

  pub out_proc_q-null :
      (p : Addr) → length xs < list_steps → p ≢ null → p ∉ xs → out_proc_q e h p m ≡ ok null m
  unfolding out_proc_q
  out_proc_q-null p few ne o = simp (list_contains-has p h xs m r ne few, o)

module _ (e : Env) (L : Laws e) (m : Mem) (h : Addr) where
  -- From a queue of p and then ps (fewer than 20), removeProcQ returns p, which is in no list then,
  -- and leaves ps.
  pub remove_proc_q-cons :
      (p : Addr) (ps : List Addr)
      → Ring m.next m.prev h (p ∷ ps)
      → length ps < 20
      → Relinks m
          (λ q n v.
            (q ≡ p) × Ring n v h ps × (n p ≡ null) × (v p ≡ null) × SameOutside (h ∷ p ∷ ps) m n v)
          (remove_proc_q e h m)
  unfolding remove_proc_q
  remove_proc_q-cons p ps r few =
      let eh : (h == null) ≡ false = ground (arith, r.mapped) in
      simp (L.empty_lem h m, eh, next-head r, first-ne-head r)
        (Relinks-mono (out_proc_q-Removed e L m h (p ∷ ps) r p (omega arith) (ground arith))
          λ _ n v w.
            (w.0, subst (λ zs. Ring n v h zs) (erase-head p ps) w.1.0, w.1.1, w.1.2, w.1.3))

  pub empty_proc_q_lem : h ≢ null → empty_proc_q e h m ≡ ok (m.next h == h) m
  unfolding empty_proc_q
  empty_proc_q_lem ne = let eh : (h == null) ≡ false = ground arith in simp (eh, L.empty_lem h m)

  pub remove_proc_q-nil : Ring m.next m.prev h [] → remove_proc_q e h m ≡ ok null m
  unfolding remove_proc_q
  remove_proc_q-nil r =
      let eh : (h == null) ≡ false = ground (arith, r.mapped) in
      simp (L.empty_lem h m, eh, empty-nil r)

  pub head_proc_q-cons :
      (p : Addr) (ps : List Addr) → Ring m.next m.prev h (p ∷ ps) → head_proc_q e h m ≡ ok p m
  unfolding head_proc_q
  head_proc_q-cons p ps r =
      let eh : (h == null) ≡ false = ground (arith, r.mapped) in
      simp (L.empty_lem h m, eh, next-head r, first-ne-head r)

  pub head_proc_q-nil : Ring m.next m.prev h [] → head_proc_q e h m ≡ ok null m
  unfolding head_proc_q
  head_proc_q-nil r =
      let eh : (h == null) ≡ false = ground (arith, r.mapped) in
      simp (L.empty_lem h m, eh, empty-nil r)

-- Given NULL, headProcQ and removeProcQ read through it, while emptyProcQ answers true.
pub proc_q-null :
    (e : Env)
    → Laws e
    → (m : Mem)
    → (head_proc_q e null m ≡ fault)
      × (remove_proc_q e null m ≡ fault)
      × (empty_proc_q e null m ≡ ok true m)
unfolding head_proc_q remove_proc_q empty_proc_q
proc_q-null e L m = (simp (L.empty_lem null m), simp (L.empty_lem null m), refl)
