-- ===== src/Kernel/Family/Cut.antt =====
-- outChild of phase1/pcb.c in terminateProcess: the process leaves its parent, and its progeny stays
-- below it.
use pand_os.Prelude.{
  ◌≡◌, ◌≢◌, refl, false, ◌⊎◌, inl, inr, List, [], ◌∷◌, arith, ◌==◌, ◌∈◌, ◌∉◌, Bool-cases,
}
use pand_os.Mem.{Addr, null, Mem, relink}
use pand_os.Fields.{p_child, p_sib}
use pand_os.Outcome.{Returns, returns, Relinks-then}
use pand_os.Links.Rings.{Ring, Ring-frame, SameOutside, erase, mem_of-erase, not_mem-erase_self}
use pand_os.Env.{Env, Laws}
use pand_os.Pcb.{out_child}
use pand_os.Pcb.Tree.{reparent, out_child-Removed, out_child-orphan}
use pand_os.Invariant.{place, Layout, IsPcb, IsLoose}
use pand_os.Invariant.Places.{not_mem-of}
use pand_os.Invariant.Tree.{SameQueues, tree-Holds, tree-IsLoose}
use pand_os.Kernel.{Lists, Models, view}
use pand_os.Kernel.Family.{
  Forest, nodes, SameAt, IsFamily, Members-frame, sibs-frame, tops-nodes, inner-nodes, Settled,
  Placed,
}
use pand_os.Kernel.Family.Spares.{Spares}
use pand_os.Kernel.Family.Detach.{IsProgeny}

-- The links of some processes in the list of their parent.
abbrev pub sib_links : List Addr → List Addr
sib_links [] = []
sib_links (y ∷ ys) = p_sib y ∷ sib_links ys

sib_links-mem :
    (x : Addr) (ys : List Addr) → x ∈ sib_links ys → (y : Addr) × (x ≡ p_sib y) × (y ∈ ys)
sib_links-mem x [] i = absurd (ground (arith, i))
sib_links-mem x (y ∷ ys) i = elim (Bool-cases (x == p_sib y)) [
  | inl hit ↦ (y, ground arith, ground arith)
  | inr miss ↦ let (z, same, j) = sib_links-mem x ys (ground arith) in (z, same, ground arith)
]

mem-sib_links : (y : Addr) (ys : List Addr) → y ∈ ys → p_sib y ∈ sib_links ys
mem-sib_links y [] i = i
mem-sib_links y (z ∷ zs) i = ground (arith, mem-sib_links y zs)

-- The process is a child of `q`, whose children are `ys`; `q` and they are none of the progeny `f`.
pub record IsChild (e : Env) (m : Mem) (p : Addr) (f : Forest) (q : Addr) (ys : List Addr)
    : Type 0 where
  pub parent : m.p_parent p ≡ q
  pub mapped : q ≢ null
  pub ring : Ring m.next m.prev (p_child q) (sib_links ys)
  pub here : p ∈ ys
  pub is_pcb : (x : Addr) → x ∈ q ∷ ys → IsPcb e x
  pub apart : (x : Addr) → x ∈ nodes f → x ∉ q ∷ ys
  pub other : (q == p) ≡ false

-- The parent of a process with its children, where it has one.
pub data Above : Type 0 where
  nobody : Above
  child_of : (parent : Addr) (children : List Addr) → Above

abbrev pub IsAbove : Env → Mem → Addr → Forest → Above → Type 0
IsAbove e m p f nobody = m.p_parent p ≡ null
IsAbove e m p f (child_of q ys) = IsChild e m p f q ys

-- The other children are the list of the parent.
abbrev pub IsLeft : Mem → Addr → Above → Type 0
IsLeft m p nobody = Unit
IsLeft m p (child_of q ys) = Ring m.next m.prev (p_child q) (erase (p_sib p) (sib_links ys))

module _ (e : Env) (m : Mem) (p : Addr) (f : Forest) (q : Addr) (ys : List Addr)
    (child : IsChild e m p f q ys) where
  links-tree : (x : Addr) → x ∈ p_child q ∷ sib_links ys → (place e x ≡ 16) ⊎ (place e x ≡ 24)
  links-tree x i = elim (Bool-cases (x == p_child q)) [
    | inl hit ↦ inl (ground (arith, child.is_pcb q))
    | inr miss ↦
        let (y, same, j) = sib_links-mem x ys (ground arith) in inr (ground (arith, child.is_pcb y))
  ]

  child-off : (x : Addr) → IsPcb e x → x ≢ q → p_child x ∉ p_child q ∷ sib_links ys
  child-off x px ne = not_mem-of (p_child x) (p_child q ∷ sib_links ys) λ i.
      elim (Bool-cases (p_child x == p_child q)) [
        | inl hit ↦ absurd (ne (ground arith))
        | inr miss ↦
            let (y, same, j) = sib_links-mem (p_child x) ys (ground arith) in
            absurd (ground (arith, child.is_pcb y, px, same))
      ]

  sib-off : (x : Addr) → IsPcb e x → x ∉ ys → p_sib x ∉ p_child q ∷ sib_links ys
  sib-off x px out = not_mem-of (p_sib x) (p_child q ∷ sib_links ys) λ i.
      elim (Bool-cases (p_sib x == p_child q)) [
        | inl hit ↦ absurd (ground (arith, child.is_pcb q, px))
        | inr miss ↦
            let (y, same, j) = sib_links-mem (p_sib x) ys (ground arith) in
            let eq : x ≡ y = omega (arith, same) in absurd (ground (arith, j, eq, out))
      ]

  -- Who is none of the dead keeps the other children.
  pub IsLeft-Spares :
      {dead : List Addr} (m1 m2 : Mem)
      → Ring m1.next m1.prev (p_child q) (erase (p_sib p) (sib_links ys))
      → Spares e dead m1 m2
      → q ∉ dead
      → ((y : Addr) → y ∈ ys → (y == p) ≡ false → y ∉ dead)
      → Ring m2.next m2.prev (p_child q) (erase (p_sib p) (sib_links ys))
  IsLeft-Spares m1 m2 r s oq oy = Ring-frame m2.next m2.prev r λ x i.
      elim (Bool-cases (x == p_child q)) [
        | inl hit ↦
            let eq : x ≡ p_child q = ground arith in
            rw eq (s.child q (child.is_pcb q (ground arith)) oq)
        | inr miss ↦
            let k : x ∈ erase (p_sib p) (sib_links ys) = ground arith in
            let (y, eq, j) = sib_links-mem x ys (mem_of-erase x (p_sib p) (sib_links ys) k) in
            let gone = not_mem-erase_self (p_sib p) (sib_links ys) child.ring.apart.1 in
            rw eq (s.sib y (child.is_pcb y (ground arith)) (oy y j (ground (arith, eq, k, gone))))
      ]

  module _ (n v : Addr → Addr) (same : SameOutside (p_child q ∷ sib_links ys) m n v) where
    abbrev cut : Mem
    cut = relink (reparent p null m) n v

    cut-SameQueues : SameQueues e m cut
    cut-SameQueues x w =
        same x (not_mem-of x (p_child q ∷ sib_links ys) λ j. ground (arith, links-tree x j, w))

    module _ (o : Layout e) (pp : IsPcb e p) (a : Lists) (g : IsProgeny e m a p f) where
      cut-family : IsFamily cut p f
      cut-family = (
        sibs-frame m cut (p_child p) f g.family.0
            (same (p_child p) (child-off p pp (λ eq. ground (arith, child.other))))
            (λ x i. sib x (tops-nodes x f i)),
        Members-frame m cut p f g.family.1
            (λ x i. (
              ground (arith, g.distinct.0),
              same (p_child x)
                  (child-off x (g.placed x i).0 (λ eq. ground (arith, child.apart x i))),
            ))
            (λ x i. sib x (inner-nodes x f i)),
      )
        where
          sib : (x : Addr) → x ∈ nodes f → SameAt m cut (p_sib x)
          sib x i = same (p_sib x) (sib-off x (g.placed x i).0 (ground (arith, child.apart x i)))

      cut-Placed : (x : Addr) → Placed e m a x → Placed e cut a x
      cut-Placed x (px, inl j) = (px, inl j)
      cut-Placed x (px, inr (inl l)) =
          (px, inr (inl (tree-IsLoose e m cut cut-SameQueues refl x l)))
      cut-Placed x (px, inr (inr w)) = (px, inr (inr w))

      cut-Settled : Settled e m a p → Settled e cut a p
      cut-Settled s = (cut-Placed p (pp, s)).1

      cut-IsProgeny : IsProgeny e cut a p f
      cut-IsProgeny = record {
        family = cut-family;
        distinct = g.distinct;
        mapped = g.mapped;
        placed = λ x i. cut-Placed x (g.placed x i);
      }

      cut-Models : Models e m a → Models e cut a
      cut-Models i = record {
        semds = i.semds;
        holds = tree-Holds e m cut cut-SameQueues o (view a i.semds) i.holds refl refl refl;
      }

-- What outChild leaves, for the loop.
pub record Rooted (e : Env) (m : Mem) (a : Lists) (p : Addr) (f : Forest) (up : Above) (m' : Mem)
    : Type 0 where
  pub models : Models e m' a
  pub settled : Settled e m' a p
  pub progeny : IsProgeny e m' a p f
  pub left : IsLeft m' p up
  pub loose : (c : Addr) → IsLoose e m c → IsLoose e m' c
  pub sched : m'.sched ≡ m.sched

pub out_child-Rooted :
    (e : Env) (L : Laws e) (o : Layout e) (m : Mem) (a : Lists) (p : Addr) (f : Forest) (up : Above)
    → Models e m a
    → p ≢ null
    → IsPcb e p
    → Settled e m a p
    → IsProgeny e m a p f
    → IsAbove e m p f up
    → Returns (λ _. Rooted e m a p f up) (out_child e p m)
out_child-Rooted e L o m a p f nobody i np pp settled g top =
    simp (out_child-orphan e L m p np top) (
      returns (record {
        models = i;
        settled = settled;
        progeny = g;
        left = tt;
        loose = λ c l. l;
        sched = refl;
      }))
out_child-Rooted e L o m a p f (child_of q ys) i np pp settled g child =
    Relinks-then
      (out_child-Removed e L m p q (sib_links ys) child.parent child.ring np child.mapped
        (mem-sib_links p ys child.here))
      λ _ n v r.
        let same = r.1.3 in
        record {
          models = cut-Models e m p f q ys child n v same o pp a g i;
          settled = cut-Settled e m p f q ys child n v same o pp a g settled;
          progeny = cut-IsProgeny e m p f q ys child n v same o pp a g;
          left = r.1.0;
          loose =
              tree-IsLoose e m (cut e m p f q ys child n v same)
                (cut-SameQueues e m p f q ys child n v same) refl;
          sched = refl;
        }
