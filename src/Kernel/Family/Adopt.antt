-- ===== src/Kernel/Family/Adopt.antt =====
-- insertChild of phase1/pcb.c in createProcess: the new process becomes the last child of the one that
-- runs.
use pand_os.Prelude.{
  ◌≡◌, ◌≢◌, refl, false, inl, inr, [], ◌∷◌, ◌++◌, arith, ◌==◌, ◌∈◌, ◌∉◌, Bool-cases, subst, sym,
}
use pand_os.Mem.{Addr, null, Mem, relink}
use pand_os.Fields.{p_child, p_sib}
use pand_os.Links.Rings.{Ring, Ring-frame, SameOutside}
use pand_os.Env.{Env}
use pand_os.Pcb.Tree.{reparent}
use pand_os.Invariant.{Layout, IsPcb, IsLoose}
use pand_os.Invariant.Places.{not_mem-of}
use pand_os.Invariant.Tree.{SameQueues, tree-Holds, tree-IsLoose}
use pand_os.Kernel.{Lists, Models, view}
use pand_os.Kernel.Family.{
  Forest, nodes, tops, sibs, SameAt, Members, Members-frame, inner-nodes, Placed,
}
use pand_os.Kernel.Family.Grow.{grown, has-grown, sibs-grown, Distinct-grown, Members-grown}
use pand_os.Kernel.Family.Kill.{child-outside, sib-outside, children-tree, inner-tops}
use pand_os.Kernel.Family.Detach.{IsProgeny}

module _ (e : Env) (o : Layout e) (m : Mem) (a : Lists) (c p : Addr) (f : Forest) (pc : IsPcb e c)
    (np : p ≢ null) (place_p : Placed e m a p) (g : IsProgeny e m a c f) (out : p ∉ c ∷ nodes f)
    (childless : Ring m.next m.prev (p_child p) []) (n v : Addr → Addr)
    (r : Ring n v (p_child c) (sibs f ++ p_sib p ∷ []))
    (same : SameOutside (p_sib p ∷ p_child c ∷ sibs f) m n v) where
  abbrev pub with_child : Mem
  with_child = relink (reparent p c m) n v

  pcbs : (x : Addr) → x ∈ nodes f → IsPcb e x
  pcbs x i = (g.placed x i).0

  child-same : (x : Addr) → IsPcb e x → x ≢ c → SameAt m with_child (p_child x)
  child-same x px ne =
      same (p_child x) (ground (arith, child-outside e c pc f pcbs x px ne, px, place_p.0))

  sib-same : (x : Addr) → x ∈ nodes f → x ∉ tops f → SameAt m with_child (p_sib x)
  sib-same x i deep =
      let off = sib-outside e c pc f pcbs x (pcbs x i) deep in
      let ne : (x == p) ≡ false = ground (arith, i, out) in same (p_sib x) (ground (arith, off, ne))

  pub with_child-SameQueues : SameQueues e m with_child
  with_child-SameQueues x q = same x (
      not_mem-of x (p_sib p ∷ p_child c ∷ sibs f)
        λ j. ground (arith, children-tree e c f pcbs pc x, j, q, place_p.0))

  pub with_child-IsLoose : (x : Addr) → IsLoose e m x → IsLoose e with_child x
  with_child-IsLoose = tree-IsLoose e m with_child with_child-SameQueues refl

  with_child-Placed : (x : Addr) → Placed e m a x → Placed e with_child a x
  with_child-Placed x (px, inl j) = (px, inl j)
  with_child-Placed x (px, inr (inl l)) = (px, inr (inl (with_child-IsLoose x l)))
  with_child-Placed x (px, inr (inr w)) = (px, inr (inr w))

  pub with_child-Models : Models e m a → Models e with_child a
  with_child-Models i = record {
    semds = i.semds;
    holds =
        tree-Holds e m with_child with_child-SameQueues o (view a i.semds) i.holds refl refl refl;
  }

  pub childless-same : Ring with_child.next with_child.prev (p_child p) []
  childless-same = Ring-frame with_child.next with_child.prev childless λ x i.
      let eq : x ≡ p_child p = ground arith in
      rw eq (child-same p place_p.0 (λ here. ground (arith, here)))

  members : Members with_child c f
  members =
      Members-frame m with_child c f g.family.1
        (λ x i.
          (ground (arith, i, out), child-same x (pcbs x i) (λ eq. ground (arith, g.distinct.0))))
        (λ x i. sib-same x (inner-nodes x f i) (inner-tops x f g.distinct.1 i))

  pub with_child-IsProgeny : IsProgeny e with_child a c (grown p f)
  with_child-IsProgeny = record {
    family = (
      subst (λ xs. Ring n v (p_child c) xs) (sym (sibs-grown p f)) r,
      Members-grown with_child c p f members (ground arith) childless-same,
    );
    distinct = (
      ground (arith, has-grown c p f, g.distinct.0, out),
      Distinct-grown p f g.distinct.1 (ground (arith, out)),
    );
    mapped = λ x i. elim (Bool-cases (x == p)) [
      | inl hit ↦ ground arith
      | inr miss ↦ g.mapped x (ground (arith, has-grown x p f, i))
    ];
    placed = λ x i. elim (Bool-cases (x == p)) [
      | inl hit ↦ let eq : x ≡ p = ground arith in rw eq (with_child-Placed p place_p)
      | inr miss ↦ with_child-Placed x (g.placed x (ground (arith, has-grown x p f, i)))
    ];
  }
