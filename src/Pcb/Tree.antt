-- ===== src/Pcb/Tree.antt =====
-- The process tree (pcb.c). The children of a process are the ring of their `p_sib` links.
use pand_os.Prelude.{◌≡◌, ◌≢◌, refl, subst, false, List, [], ◌∷◌, ◌++◌, arith, ◌==◌, ◌∈◌, ◌∉◌, upd}
use pand_os.Mem.{Addr, null, Mem, set_pcbs, ok}
use pand_os.Fields.{p_child, p_sib, pcb_of_sib}
use pand_os.Outcome.{Relinks, relinks, Relinks-bind, Relinks-mono}
use pand_os.Links.Rings.{
  Ring, SameOutside, erase-head, empty-mem, empty-nil, first-ne-head, next-head,
}
use pand_os.Env.{Env, Laws}
use pand_os.Pcb.{empty_child, insert_child, remove_child, out_child}
use pand_os.Pcb.Unlink.{Removed}

-- The memory with another parent for a process.
abbrev pub reparent : (p q : Addr) → Mem → Mem
reparent p q = set_pcbs (λ b. record b { p_parent = upd b.p_parent p q })

module _ (e : Env) (L : Laws e) (m : Mem) where
  -- Where the process is no child of the parent yet, insertChild sets its parent and makes it the
  -- last child, and no other link changes.
  pub insert_child-append :
      (prnt p : Addr) (xs : List Addr)
      → Ring m.next m.prev (p_child prnt) xs
      → prnt ≢ null
      → p ≢ null
      → p_sib p ∉ p_child prnt ∷ xs
      → Relinks
          (reparent p prnt m)
          (λ _ n v.
            Ring n v (p_child prnt) (xs ++ p_sib p ∷ [])
            × SameOutside (p_sib p ∷ p_child prnt ∷ xs) m n v)
          (insert_child e prnt p m)
  unfolding insert_child
  insert_child-append prnt p xs r nq np out =
      let ep : (p == null) ≡ false = ground arith in
      let eq : (prnt == null) ≡ false = ground arith in
      simp (ep, eq) (L.add_tail_lem (p_sib p) (p_child prnt) xs _ r out (ground arith))

  -- A child leaves the list of its parent by outChild, wherever in it it stands: it is returned
  -- without a parent, and the other children keep their order.
  pub out_child-Removed :
      (p q : Addr) (xs : List Addr)
      → m.p_parent p ≡ q
      → Ring m.next m.prev (p_child q) xs
      → p ≢ null
      → q ≢ null
      → p_sib p ∈ xs
      → Relinks
          (reparent p null m)
          (λ a n v. (a ≡ p) × Removed m (p_child q) xs (p_sib p) n v)
          (out_child e p m)
  unfolding out_child
  out_child-Removed p q xs child r np nq i =
      let ep : (p == null) ≡ false = ground arith in
      let eq : (q == null) ≡ false = ground arith in
      let ec : (p_child q == null) ≡ false = ground arith in
      simp (ep, child, eq, L.empty_lem (p_child q) m, ec, empty-mem (p_sib p) r i)
        (Relinks-bind _ (L.del_lem (p_sib p) (p_child q) xs m r i)
          λ _ n v w. simp ep (relinks (refl, w)))

  -- A process without a parent is left alone.
  pub out_child-orphan : (p : Addr) → p ≢ null → m.p_parent p ≡ null → out_child e p m ≡ ok null m
  unfolding out_child
  out_child-orphan p np none = let ep : (p == null) ≡ false = ground arith in simp (ep, none)

  -- NULL has neither a parent nor children.
  pub out_child-null : out_child e null m ≡ ok null m
  unfolding out_child
  out_child-null = refl

  pub remove_child-null : remove_child e null m ≡ ok null m
  unfolding remove_child empty_child
  remove_child-null = refl

  pub remove_child-nil :
      (p : Addr) → p ≢ null → Ring m.next m.prev (p_child p) [] → remove_child e p m ≡ ok null m
  unfolding remove_child empty_child
  remove_child-nil p np r =
      let ep : (p == null) ≡ false = ground arith in
      let ec : (p_child p == null) ≡ false = ground arith in
      simp (ep, L.empty_lem (p_child p) m, ec, empty-nil r)

  -- Where c is the first child of p, removeChild returns c without a parent, and the other children
  -- stay.
  pub remove_child-cons :
      (p c : Addr) (xs : List Addr)
      → Ring m.next m.prev (p_child p) (p_sib c ∷ xs)
      → p ≢ null
      → c ≢ null
      → m.p_parent c ≡ p
      → Relinks
          (reparent c null m)
          (λ a n v.
            (a ≡ c)
            × Ring n v (p_child p) xs
            × (n (p_sib c) ≡ null)
            × (v (p_sib c) ≡ null)
            × SameOutside (p_child p ∷ p_sib c ∷ xs) m n v)
          (remove_child e p m)
  unfolding remove_child empty_child
  remove_child-cons p c xs r np nc child =
      let ep : (p == null) ≡ false = ground arith in
      let ec : (p_child p == null) ≡ false = ground arith in
      let back : pcb_of_sib (p_sib c) ≡ c = omega arith in
      simp (ep, L.empty_lem (p_child p) m, ec, next-head r, first-ne-head r, back)
        (Relinks-mono (out_child-Removed c p (p_sib c ∷ xs) child r nc np (ground arith)) λ a n v w.
          (
            w.0,
            subst (λ zs. Ring n v (p_child p) zs) (erase-head (p_sib c) xs) w.1.0,
            w.1.1,
            w.1.2,
            w.1.3,
          ))
