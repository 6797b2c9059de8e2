-- ===== src/Pcb/Unlink.antt =====
-- util.h on well-formed lists: the safe deletion and the search.
use pand_os.Prelude.{
  ℕ, zero, suc, ◌<◌, ◌≡◌, ◌≢◌, false, List, [], ◌∷◌, arith, ap, ◌==◌, if◌then◌else◌, length, has,
  ◌∈◌, Bool-cases, inl, inr,
}
use pand_os.Mem.{Addr, null, Mem, ok}
use pand_os.Outcome.{Relinks, relinks, Relinks-bind}
use pand_os.Links.Rings.{
  Ring, Ring-frame, Trail, Ring-Trail, erase, SameOutside, node-ne-null, next-mapped,
}
use pand_os.Env.{Env, Laws}
use pand_os.Pcb.{list_safe_del, list_search_loop, list_search, list_contains, list_cmp, list_steps}

-- A node that is in no list.
abbrev pub IsDetached : Mem → Addr → Type 0
IsDetached m x = (m.next x ≡ null) × (m.prev x ≡ null)

-- After a removal: the list without the node, the node detached, and no other link changed.
abbrev pub Removed : Mem → Addr → List Addr → Addr → (Addr → Addr) → (Addr → Addr) → Type 0
Removed m h xs x n v =
    Ring n v h (erase x xs) × (n x ≡ null) × (v x ≡ null) × SameOutside (h ∷ xs) m n v

module _ (e : Env) (L : Laws e) where
  open e use {list_del}

  pub list_safe_del-detached :
      (x : Addr) (m : Mem) → x ≢ null → IsDetached m x → list_safe_del e x m ≡ ok tt m
  unfolding list_safe_del
  list_safe_del-detached x m ne d =
      let ex : (x == null) ≡ false = ground arith in simp (ex, d.0, d.1)

  pub list_safe_del-Removed :
      (x h : Addr) (xs : List Addr) (m : Mem)
      → Ring m.next m.prev h xs
      → x ∈ xs
      → Relinks m (λ _. Removed m h xs x) (list_safe_del e x m)
  unfolding list_safe_del
  list_safe_del-Removed x h xs m r i =
      let ex : (x == null) ≡ false = ground (arith, node-ne-null r x i) in
      let en : (m.next x == null) ≡ false = next-mapped r x (ground arith) in
      simp (ex, en)
        (Relinks-bind _ (L.del_lem x h xs m r i) (λ _ n v (q, nx, vx, same). simp ex (
          relinks (
            Ring-frame _ _ q (λ y j. ground arith),
            ground arith,
            ground arith,
            λ y o. ground (arith, same y),
          ))))

-- The search along `next`, with enough rounds.
list_search_loop-has :
    (k : ℕ) (item head tmp : Addr) (xs : List Addr) (m : Mem)
    → Trail m.next tmp xs head
    → length xs < k
    → list_search_loop k list_cmp item head tmp m ≡ ok (if has item xs then item else null) m
unfolding list_search_loop list_cmp
list_search_loop-has zero item head tmp xs m t fuel = absurd (omega arith)
list_search_loop-has (suc k) item head tmp [] m t fuel = ground arith
list_search_loop-has (suc k) item head tmp (x ∷ xs) m t fuel =
    rw (t.0, t.1)
      (elim (Bool-cases (item == x)) [
        | inl hit ↦ let e : x ≡ item = ground arith in simp hit (ap (λ a. ok a m) e)
        | inr miss ↦
            simp (miss, t.2) (list_search_loop-has k item head (m.next x) xs m t.3 (omega arith))
      ])

module _ (item h : Addr) (xs : List Addr) (m : Mem) (r : Ring m.next m.prev h xs) where
  -- On a list of at most 20 nodes and for an item that is not NULL, list_contains ends within its
  -- bound and tells whether the item is one of the nodes.
  pub list_contains-has :
      item ≢ null → length xs < list_steps → list_contains item h m ≡ ok (has item xs) m
  unfolding list_contains list_search
  list_contains-has ne few =
      let eh : (h == null) ≡ false = ground (arith, r.mapped) in
      let found = list_search_loop-has list_steps item h (m.next h) xs m (Ring-Trail r) few in
      simp (eh, found) (ground arith)
