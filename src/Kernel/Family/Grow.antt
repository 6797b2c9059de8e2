-- ===== src/Kernel/Family/Grow.antt =====
-- A new child in the tree of phase1/pcb.c: it is the last one, and has no children.
use pand_os.Prelude.{
  ◌≡◌, refl, ◌⊎◌, inl, inr, [], ◌∷◌, ◌++◌, arith, ◌==◌, ◌∈◌, ◌∉◌, has, ◌||◌, has-append, Distinct,
  Distinct-append, Distinct-join, ap,
}
use pand_os.Mem.{Addr, Mem}
use pand_os.Fields.{p_child, p_sib}
use pand_os.Links.Rings.{Ring}
use pand_os.Env.{Env}
use pand_os.Invariant.{place, IsPcb}
use pand_os.Kernel.Family.{
  Forest, none, tree, nodes, sibs, SameAt, Members, IsFamily, Members-frame, sibs-frame, tops-nodes,
  inner-nodes,
}

-- A change that spares the tree.
pub tree-IsFamily :
    (e : Env) (m m' : Mem) (q : Addr) (f : Forest)
    → ((x : Addr) → (place e x ≡ 16) ⊎ (place e x ≡ 24) → SameAt m m' x)
    → m'.p_parent ≡ m.p_parent
    → IsPcb e q
    → ((x : Addr) → x ∈ nodes f → IsPcb e x)
    → IsFamily m q f
    → IsFamily m' q f
tree-IsFamily e m m' q f same parent pq pcbs w = (
  sibs-frame m m' (p_child q) f w.0 (same (p_child q) (inl pq.1))
      (λ x i. same (p_sib x) (inr (pcbs x (tops-nodes x f i)).2)),
  Members-frame m m' q f w.1 (λ x i. (cc parent, same (p_child x) (inl (pcbs x i).1)))
      (λ x i. same (p_sib x) (inr (pcbs x (inner-nodes x f i)).2)),
)

-- The forest with one more child.
abbrev pub grown : Addr → Forest → Forest
grown p none = tree p none none
grown p (tree c kids rest) = tree c kids (grown p rest)

pub has-grown : (x p : Addr) (f : Forest) → has x (nodes (grown p f)) ≡ (has x (nodes f) || x == p)
has-grown x p none = ground arith
has-grown x p (tree c kids rest) = ground (
  arith,
  has-append x (nodes kids) (nodes (grown p rest)),
  has-append x (nodes kids) (nodes rest),
  has-grown x p rest,
)

pub sibs-grown : (p : Addr) (f : Forest) → sibs (grown p f) ≡ sibs f ++ p_sib p ∷ []
sibs-grown p none = refl
sibs-grown p (tree c kids rest) = ap (λ xs. p_sib c ∷ xs) (sibs-grown p rest)

pub Distinct-grown :
    (p : Addr) (f : Forest) → Distinct (nodes f) → p ∉ nodes f → Distinct (nodes (grown p f))
Distinct-grown p none d out = (refl, tt)
Distinct-grown p (tree c kids rest) d out =
    let (dk, dr, apart) = Distinct-append (nodes kids) (nodes rest) d.1 in
    let mem = λ (x : Addr). has-append x (nodes kids) (nodes rest) in
    (
      ground (
        arith,
        d.0,
        mem c,
        has-append c (nodes kids) (nodes (grown p rest)),
        has-grown c p rest,
        out,
      ),
      Distinct-join (nodes kids) (nodes (grown p rest)) dk
          (Distinct-grown p rest dr (ground (arith, out, mem p)))
          (λ x i. ground (arith, has-grown x p rest, apart x, out, mem p)),
    )

pub Members-grown :
    (m : Mem) (q p : Addr) (f : Forest)
    → Members m q f
    → m.p_parent p ≡ q
    → Ring m.next m.prev (p_child p) []
    → Members m q (grown p f)
Members-grown m q p none w parent r = (parent, r, tt, tt)
Members-grown m q p (tree c kids rest) w parent r =
    (w.0, w.1, w.2, Members-grown m q p rest w.3 parent r)
