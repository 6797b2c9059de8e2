-- ===== src/Links.antt =====
-- The linked lists of phase1/include/list.h (a copy of the Linux header) as the kernel uses them:
-- the functions that it calls, and what it relies on them to do. The header's macros that only read
-- `next` or subtract an offset (`list_next`, `list_first_entry`, `container_of`, the loops of
-- `list_for_each_entry`) are written out where they are used.
pub mod Rings
pub mod Linux
use pand_os.Prelude.{
  ℕ, ◌≡◌, ◌≢◌, Bool, true, List, [], ◌∷◌, ◌++◌, ◌==◌, if◌then◌else◌, ◌∈◌, ◌∉◌, upd,
}
use pand_os.Mem.{Addr, null, Mem, relink, ok, fault, Cmd, Proc}
use pand_os.Outcome.{Relinks}
use Rings.{Ring, erase, SameOutside}

pub record ListOps : Type 0 where
  pub init_list_head : Addr → Proc
  -- the node, and then the head of the list
  pub list_add : Addr → Addr → Proc
  pub list_add_tail : Addr → Addr → Proc
  pub list_del : Addr → Proc
  pub list_empty : Addr → Cmd Bool

-- What the list functions do to a well-formed list.
pub record ListLaws (l : ListOps) : Type 0 where
  pub init_lem :
      (h : Addr) (m : Mem)
      → h ≢ null
      → l.init_list_head h m ≡ ok tt (relink m (upd m.next h h) (upd m.prev h h))
  pub add_lem :
      (x h : Addr) (xs : List Addr) (m : Mem)
      → Ring m.next m.prev h xs
      → x ∉ h ∷ xs
      → x ≢ null
      → Relinks m (λ _ n v. Ring n v h (x ∷ xs) × SameOutside (x ∷ h ∷ xs) m n v) (l.list_add x h m)
  pub add_tail_lem :
      (x h : Addr) (xs : List Addr) (m : Mem)
      → Ring m.next m.prev h xs
      → x ∉ h ∷ xs
      → x ≢ null
      → Relinks m
          (λ _ n v. Ring n v h (xs ++ x ∷ []) × SameOutside (x ∷ h ∷ xs) m n v)
          (l.list_add_tail x h m)
  pub del_lem :
      (x h : Addr) (xs : List Addr) (m : Mem)
      → Ring m.next m.prev h xs
      → x ∈ xs
      → Relinks m
          (λ _ n v.
            Ring n v h (erase x xs) × (n x ≡ null) × (v x ≡ null) × SameOutside (h ∷ xs) m n v)
          (l.list_del x m)
  pub empty_lem :
      (h : Addr) (m : Mem) → l.list_empty h m ≡ (if h == null then fault else ok (m.next h == h) m)
