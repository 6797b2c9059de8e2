-- ===== src/Kernel/Family/Kill.antt =====
-- removeChild of phase1/pcb.c in the loop of __terminateProcess: what it leaves of the processes.
use pand_os.Prelude.{
  ◌≡◌, ◌≢◌, refl, ◌⊎◌, inl, inr, ◌∷◌, arith, ◌==◌, ◌∈◌, ◌∉◌, has-append, Distinct, Distinct-append,
  Bool-cases,
}
use pand_os.Mem.{Addr, null, Mem, relink}
use pand_os.Fields.{p_child, p_sib}
use pand_os.Links.Rings.{SameOutside}
use pand_os.Env.{Env}
use pand_os.Pcb.Tree.{reparent}
use pand_os.Invariant.{place, Layout, IsPcb}
use pand_os.Invariant.Places.{not_mem-of}
use pand_os.Invariant.Tree.{SameQueues, tree-IsLoose}
use pand_os.Kernel.{Lists}
use pand_os.Kernel.Family.{
  Forest, none, tree, nodes, inner, tops, sibs, SameAt, Members, IsFamily, Members-frame, sibs-mem,
  sibs-frame, tops-nodes, inner-nodes, unready, bury_all,
}
use pand_os.Kernel.Family.Spares.{Spares, mem-erase}

-- Who is not of the forest stays on the lists.
module _ (x : Addr) where
  pub bury_all-ready :
      (f : Forest) (a : Lists) → x ∉ nodes f → x ∈ a.ready → x ∈ (bury_all f a).ready
  bury_all-ready none a out i = i
  bury_all-ready (tree c kids rest) a out i =
      let apart = has-append x (nodes kids) (nodes rest) in
      bury_all-ready rest _ (ground (arith, apart)) (
        mem-erase x c _ (ground arith) (
          bury_all-ready kids (unready c a) (ground (arith, apart))
            (mem-erase x c a.ready (ground arith) i)))

  pub bury_all-waiting :
      (s : Addr) (f : Forest) (a : Lists)
      → x ∉ nodes f
      → x ∈ a.waiting s
      → x ∈ (bury_all f a).waiting s
  bury_all-waiting s none a out i = i
  bury_all-waiting s (tree c kids rest) a out i =
      let apart = has-append x (nodes kids) (nodes rest) in
      bury_all-waiting s rest _ (ground (arith, apart)) (
        mem-erase x c _ (ground arith)
          (bury_all-waiting s kids (unready c a) (ground (arith, apart)) i))

-- The children of `p` lie in the tree's links.
pub children-tree :
    (e : Env) (p : Addr) (f : Forest)
    → ((c : Addr) → c ∈ nodes f → IsPcb e c)
    → IsPcb e p
    → (x : Addr) → x ∈ p_child p ∷ sibs f
    → (place e x ≡ 16) ⊎ (place e x ≡ 24)
children-tree e p f pcbs pp x i = elim (Bool-cases (x == p_child p)) [
  | inl hit ↦ inl (ground (arith, pp))
  | inr miss ↦
      let (c, same, j) = sibs-mem x f (ground arith) in
      inr (ground (arith, pcbs c (tops-nodes c f j)))
]

-- Where a list of children has no link of a process.
module _ (e : Env) (p : Addr) (pp : IsPcb e p) (f : Forest)
    (pcbs : (c : Addr) → c ∈ nodes f → IsPcb e c) (x : Addr) (px : IsPcb e x) where
  pub child-outside : x ≢ p → p_child x ∉ p_child p ∷ sibs f
  child-outside ne = not_mem-of (p_child x) (p_child p ∷ sibs f) λ i.
      elim (Bool-cases (p_child x == p_child p)) [
        | inl hit ↦ absurd (ne (ground arith))
        | inr miss ↦
            let (c, same, j) = sibs-mem (p_child x) f (ground arith) in
            absurd (ground (arith, pcbs c (tops-nodes c f j), px, same))
      ]

  pub sib-outside : x ∉ tops f → p_sib x ∉ p_child p ∷ sibs f
  sib-outside out = not_mem-of (p_sib x) (p_child p ∷ sibs f) λ i.
      elim (Bool-cases (p_sib x == p_child p)) [
        | inl hit ↦ absurd (ground (arith, pp, px))
        | inr miss ↦
            let (c, same, j) = sibs-mem (p_sib x) f (ground arith) in
            let eq : x ≡ c = omega (arith, same) in absurd (ground (arith, j, eq, out))
      ]

-- In a forest without repetition no child is further progeny.
pub inner-tops : (x : Addr) (f : Forest) → Distinct (nodes f) → x ∈ inner f → x ∉ tops f
inner-tops x none d i = refl
inner-tops x (tree c kids rest) d i =
    let (dk, dr, apart) = Distinct-append (nodes kids) (nodes rest) d.1 in
    ground (
      arith,
      has-append x (nodes kids) (inner rest),
      has-append c (nodes kids) (nodes rest),
      d.0,
      apart x,
      inner-tops x rest dr,
      inner-nodes x rest,
      tops-nodes x rest,
    )

-- removeChild has taken `c`, the first child of `p`.
module _ (e : Env) (o : Layout e) (m : Mem) (p c : Addr) (kids rest : Forest) (pp : IsPcb e p)
    (pcbs : (x : Addr) → x ∈ nodes (tree c kids rest) → IsPcb e x)
    (d : Distinct (p ∷ nodes (tree c kids rest))) (n v : Addr → Addr)
    (same : SameOutside (p_child p ∷ sibs (tree c kids rest)) m n v) where
  abbrev family : Forest
  family = tree c kids rest

  abbrev pub without : Mem
  without = relink (reparent c null m) n v

  pub without-SameQueues : SameQueues e m without
  without-SameQueues x q = same x (
      not_mem-of x (p_child p ∷ sibs family)
        λ j. ground (arith, children-tree e p family pcbs pp x j, q))

  pub without-Spares : Spares e (p ∷ nodes family) m without
  without-Spares = record {
    loose = λ x out l. tree-IsLoose e m without without-SameQueues refl x l;
    parent = λ x out. ground arith;
    child =
        λ x px out. same (p_child x) (child-outside e p pp family pcbs x px (λ eq. ground arith));
    sib = λ x px out. same (p_sib x) (
        sib-outside e p pp family pcbs x px
          (not_mem-of x (tops family) λ i. ground (arith, tops-nodes x family i, out)));
  }

  own-same :
      (x : Addr)
      → x ∈ nodes family
      → x ≢ c
      → (without.p_parent x ≡ m.p_parent x) × SameAt m without (p_child x)
  own-same x i ne = (
    ground arith,
    same (p_child x) (child-outside e p pp family pcbs x (pcbs x i) (λ eq. ground (arith, d.0))),
  )

  sib-same : (x : Addr) → x ∈ nodes family → x ∉ tops family → SameAt m without (p_sib x)
  sib-same x i out = same (p_sib x) (sib-outside e p pp family pcbs x (pcbs x i) out)

  pub without-kids : IsFamily m c kids → IsFamily without c kids
  without-kids w =
      let (dk, dr, apart) = Distinct-append (nodes kids) (nodes rest) d.1.1 in
      let mem = λ (x : Addr). has-append x (nodes kids) (nodes rest) in
      let deep = λ (x : Addr) (i : x ∈ nodes kids). sib-same x (ground (arith, mem x)) (
        not_mem-of x (tops family)
          λ j. ground (arith, i, j, apart x, tops-nodes x rest, mem c, d.1.0)) in
      (
        sibs-frame m without (p_child c) kids w.0
            (same (p_child c) (
              child-outside e p pp family pcbs c (pcbs c (ground arith))
                (λ eq. ground (arith, d.0))))
            (λ x i. deep x (tops-nodes x kids i)),
        Members-frame m without c kids w.1
            (λ x i. own-same x (ground (arith, mem x)) (λ eq. ground (arith, i, mem c, d.1.0)))
            (λ x i. deep x (inner-nodes x kids i)),
      )

  pub without-rest : Members m p rest → Members without p rest
  without-rest w =
      let (dk, dr, apart) = Distinct-append (nodes kids) (nodes rest) d.1.1 in
      let mem = λ (x : Addr). has-append x (nodes kids) (nodes rest) in
      Members-frame m without p rest w
        (λ x i. own-same x (ground (arith, mem x)) (λ eq. ground (arith, i, mem c, d.1.0)))
        (λ x i.
          let j = inner-nodes x rest i in
          sib-same x (ground (arith, mem x)) (ground (arith, inner-tops x rest dr i, mem c, d.1.0)))
