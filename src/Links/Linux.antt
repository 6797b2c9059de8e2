-- ===== src/Links/Linux.antt =====
-- An implementation of the list functions that meets the laws: four pointer writes at most.
mod Moves
use pand_os.Prelude.{
  Bool, false, ◌++◌, has, ◌≡◌, ◌≢◌, refl, [], ◌∷◌, List, arith, ◌==◌, if◌then◌else◌, ◌∈◌, ◌∉◌, upd,
}
use pand_os.Mem.{
  Addr, null, Mem, set_next, set_prev, relink, ok, fault, Cmd, Proc, ◌>>=◌, ◌>>◌, read, write,
}
use pand_os.Links.Rings.{
  next-mem, prev-mem, last-mem, next-mapped, prev-mapped, last-mapped, Ring, erase, SameOutside,
}
use pand_os.Links.{ListOps, ListLaws}
use pand_os.Outcome.{Relinks, relinks}
use Moves.{added, added_tail, deleted}

abbrev next_of : Addr → Cmd Addr
next_of = read (λ m. m.next)

abbrev prev_of : Addr → Cmd Addr
prev_of = read (λ m. m.prev)

abbrev store_next : Addr → Addr → Proc
store_next p v = write p (set_next p v)

abbrev store_prev : Addr → Addr → Proc
store_prev p v = write p (set_prev p v)

init_list_head : Addr → Proc
init_list_head h = do store_next h h; store_prev h h

insert_between : (x before after : Addr) → Proc
insert_between x before after = do
  store_prev after x
  store_next x after
  store_prev x before
  store_next before x

list_add : Addr → Addr → Proc
unfolding insert_between
list_add x h = do after ← next_of h; insert_between x h after

list_add_tail : Addr → Addr → Proc
unfolding insert_between
list_add_tail x h = do before ← prev_of h; insert_between x before h

list_del : Addr → Proc
list_del x = do
  before ← prev_of x
  after ← next_of x
  store_prev after before
  store_next before after
  store_next x null
  store_prev x null

list_empty : Addr → Cmd Bool
list_empty h m = if h == null then fault else ok (m.next h == h) m

init_lem :
    (h : Addr) (m : Mem)
    → h ≢ null
    → init_list_head h m ≡ ok tt (relink m (upd m.next h h) (upd m.prev h h))
unfolding init_list_head
init_lem h m ne = let e : (h == null) ≡ false = ground arith in simp e

add_lem :
    (x h : Addr) (xs : List Addr) (m : Mem)
    → Ring m.next m.prev h xs
    → x ∉ h ∷ xs
    → x ≢ null
    → Relinks m (λ _ n v. Ring n v h (x ∷ xs) × SameOutside (x ∷ h ∷ xs) m n v) (list_add x h m)
unfolding list_add
add_lem x h xs m r out ne =
    let eh : (h == null) ≡ false = ground (arith, r.mapped) in
    let ex : (x == null) ≡ false = ground arith in
    let en : (m.next h == null) ≡ false = next-mapped r h (ground arith) in
    simp (eh, ex, en)
      (relinks (added x r out ne, λ a o. ground (arith, next-mem m.next m.prev h h xs h r.links)))

add_tail_lem :
    (x h : Addr) (xs : List Addr) (m : Mem)
    → Ring m.next m.prev h xs
    → x ∉ h ∷ xs
    → x ≢ null
    → Relinks m
        (λ _ n v. Ring n v h (xs ++ x ∷ []) × SameOutside (x ∷ h ∷ xs) m n v)
        (list_add_tail x h m)
unfolding list_add_tail
add_tail_lem x h xs m r out ne =
    let eh : (h == null) ≡ false = ground (arith, r.mapped) in
    let ex : (x == null) ≡ false = ground arith in
    let ep : (m.prev h == null) ≡ false = last-mapped r in
    simp (eh, ex, ep)
      (relinks
        (added_tail x r out ne, λ a o. ground (arith, last-mem m.next m.prev h xs h r.links)))

del_lem :
    (x h : Addr) (xs : List Addr) (m : Mem)
    → Ring m.next m.prev h xs
    → x ∈ xs
    → Relinks m
        (λ _ n v.
          Ring n v h (erase x xs) × (n x ≡ null) × (v x ≡ null) × SameOutside (h ∷ xs) m n v)
        (list_del x m)
unfolding list_del
del_lem x h xs m r i =
    let ex : (x == null) ≡ false = ground (arith, r.mapped) in
    let ep : (m.prev x == null) ≡ false = prev-mapped r x i in
    let en : (m.next x == null) ≡ false = next-mapped r x (ground arith) in
    simp (ex, ep, en)
      (relinks (
        deleted x r i,
        ground arith,
        ground arith,
        λ a o. ground (
          arith,
          next-mem m.next m.prev x h xs h r.links,
          prev-mem m.next m.prev x h xs h r.links i,
        ),
      ))

empty_lem :
    (h : Addr) (m : Mem) → list_empty h m ≡ (if h == null then fault else ok (m.next h == h) m)
unfolding list_empty
empty_lem h m = refl

unfoldable pub ops : ListOps
unfolding init_list_head list_add list_add_tail list_del list_empty
ops = record {
  init_list_head = init_list_head;
  list_add = list_add;
  list_add_tail = list_add_tail;
  list_del = list_del;
  list_empty = list_empty;
}

pub laws : ListLaws ops
unfolding ops
laws = record {
  init_lem = init_lem;
  add_lem = add_lem;
  add_tail_lem = add_tail_lem;
  del_lem = del_lem;
  empty_lem = empty_lem;
}
