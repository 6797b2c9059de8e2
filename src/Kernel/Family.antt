-- ===== src/Kernel/Family.antt =====
-- A process and its progeny: the tree of phase1/pcb.c below a process, by its children in order.
pub mod Grow
pub mod Spares
pub mod Free
pub mod Release
pub mod Kill
pub mod Detach
pub mod Progeny
pub mod Cut
pub mod Adopt
pub mod Fresh
pub mod Foreign
pub mod Stages
pub mod Create
pub mod Spawn
pub mod Ending
pub mod Lost
pub mod Trap
use pand_os.Prelude.{
  ◌≡◌, ◌≢◌, ◌⊎◌, inl, inr, List, [], ◌∷◌, ◌++◌, arith, ◌∈◌, ◌∉◌, has-append, ◌==◌, Bool-cases,
}
use pand_os.Mem.{Addr, Mem}
use pand_os.Fields.{p_child, p_sib}
use pand_os.Links.Rings.{Ring, Ring-frame, erase}
use pand_os.Env.{Env}
use pand_os.Invariant.{IsPcb, IsLoose}
use pand_os.Kernel.{Lists}

-- The first child with its own children, and the children behind it.
pub data Forest : Type 0 where
  none : Forest
  tree : (child : Addr) (kids rest : Forest) → Forest

-- The children, and their links.
abbrev pub tops : Forest → List Addr
tops none = []
tops (tree c kids rest) = c ∷ tops rest

abbrev pub sibs : Forest → List Addr
sibs none = []
sibs (tree c kids rest) = p_sib c ∷ sibs rest

-- All the progeny, and those that are nobody's child in the forest.
abbrev pub nodes : Forest → List Addr
nodes none = []
nodes (tree c kids rest) = c ∷ nodes kids ++ nodes rest

abbrev pub inner : Forest → List Addr
inner none = []
inner (tree c kids rest) = nodes kids ++ inner rest

-- The links of an address are as before.
abbrev pub SameAt : Mem → Mem → Addr → Type 0
SameAt m m' x = (m'.next x ≡ m.next x) × (m'.prev x ≡ m.prev x)

-- Each of the progeny of `q` has its parent, and the ring of its own children.
abbrev pub Members : Mem → Addr → Forest → Type 0
Members m q none = Unit
Members m q (tree c kids rest) =
    (m.p_parent c ≡ q)
    × Ring m.next m.prev (p_child c) (sibs kids)
    × Members m c kids
    × Members m q rest

-- The forest is the progeny of `q`.
abbrev pub IsFamily : Mem → Addr → Forest → Type 0
IsFamily m q f = Ring m.next m.prev (p_child q) (sibs f) × Members m q f

pub tops-nodes : (x : Addr) (f : Forest) → x ∈ tops f → x ∈ nodes f
tops-nodes x none i = i
tops-nodes x (tree c kids rest) i =
    ground (arith, has-append x (nodes kids) (nodes rest), tops-nodes x rest)

pub inner-nodes : (x : Addr) (f : Forest) → x ∈ inner f → x ∈ nodes f
inner-nodes x none i = i
inner-nodes x (tree c kids rest) i = ground (
  arith,
  has-append x (nodes kids) (nodes rest),
  has-append x (nodes kids) (inner rest),
  inner-nodes x rest,
)

pub sibs-mem : (x : Addr) (f : Forest) → x ∈ sibs f → (c : Addr) × (x ≡ p_sib c) × (c ∈ tops f)
sibs-mem x none i = absurd (ground (arith, i))
sibs-mem x (tree c kids rest) i = elim (Bool-cases (x == p_sib c)) [
  | inl hit ↦ (c, ground arith, ground arith)
  | inr miss ↦ let (d, same, j) = sibs-mem x rest (ground arith) in (d, same, ground arith)
]

-- A ring of children whose links a change spares.
pub sibs-frame :
    (m m' : Mem) (h : Addr) (f : Forest)
    → Ring m.next m.prev h (sibs f)
    → SameAt m m' h
    → ((c : Addr) → c ∈ tops f → SameAt m m' (p_sib c))
    → Ring m'.next m'.prev h (sibs f)
sibs-frame m m' h f r head same = Ring-frame m'.next m'.prev r λ x i. elim (Bool-cases (x == h)) [
  | inl hit ↦ let eq : x ≡ h = ground arith in rw eq head
  | inr miss ↦ let (c, eq, j) = sibs-mem x f (ground arith) in rw eq (same c j)
]

pub Members-frame :
    (m m' : Mem) (q : Addr) (f : Forest)
    → Members m q f
    → ((c : Addr) → c ∈ nodes f → (m'.p_parent c ≡ m.p_parent c) × SameAt m m' (p_child c))
    → ((c : Addr) → c ∈ inner f → SameAt m m' (p_sib c))
    → Members m' q f
Members-frame m m' q none w own sib = tt
Members-frame m m' q (tree c kids rest) w own sib =
    let here = own c (ground arith) in
    (
      ground (arith, here, w.0),
      sibs-frame m m' (p_child c) kids w.1 here.1 (λ d i.
          sib d (ground (arith, has-append d (nodes kids) (inner rest), tops-nodes d kids))),
      Members-frame m m' c kids w.2
          (λ d i. own d (ground (arith, has-append d (nodes kids) (nodes rest))))
          (λ d i.
            sib d (ground (arith, has-append d (nodes kids) (inner rest), inner-nodes d kids))),
      Members-frame m m' q rest w.3
          (λ d i. own d (ground (arith, has-append d (nodes kids) (nodes rest))))
          (λ d i. sib d (ground (arith, has-append d (nodes kids) (inner rest)))),
    )

-- __terminateProcess on the lists: a child leaves the ready queue; its progeny goes, and then it is
-- ready no more, waits no more and is free.
abbrev pub unready : Addr → Lists → Lists
unready c a = record a { ready = erase c a.ready }

abbrev pub bury : Addr → Lists → Lists
bury c a = record a {
  ready = erase c a.ready;
  pool = c ∷ a.pool;
  waiting = λ s. erase c (a.waiting s);
}

abbrev pub bury_all : Forest → Lists → Lists
bury_all none a = a
bury_all (tree c kids rest) a = bury_all rest (bury c (bury_all kids (unready c a)))

-- A process that is ready, or on no list, or waits for a semaphore.
abbrev pub Settled : Env → Mem → Lists → Addr → Type 0
Settled e m a c = (c ∈ a.ready) ⊎ (IsLoose e m c ⊎ ((s : Addr) × (c ∈ a.waiting s)))

abbrev pub Placed : Env → Mem → Lists → Addr → Type 0
Placed e m a c = IsPcb e c × Settled e m a c
