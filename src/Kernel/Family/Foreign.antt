-- ===== src/Kernel/Family/Foreign.antt =====
-- What createProcess changes beside the kernel's lists leaves them: the links of the namespaces of
-- phase1/ns.c, and enqueueReady of phase2/scheduler.c for a process that is new in the tree.
use pand_os.Prelude.{
  ◌≡◌, ◌≢◌, false, inl, inr, List, [], ◌∷◌, arith, ◌==◌, ◌∈◌, ◌∉◌, has-append, ap, ◌∙◌,
}
use pand_os.Mem.{Addr, Mem}
use pand_os.Fields.{n_link}
use pand_os.Links.Rings.{Ring-frame, erase}
use pand_os.Env.{Env}
use pand_os.Processes.Naming.{IsNamespace}
use pand_os.Invariant.{place, Layout, IsPcb, IsLoose, Others}
use pand_os.Invariant.Tree.{SameQueues, tree-Holds, tree-IsLoose}
use pand_os.Kernel.{Lists, Models, view, enqueue}
use pand_os.Kernel.Family.{Forest, nodes, SameAt}
use pand_os.Kernel.Family.Grow.{tree-IsFamily}
use pand_os.Kernel.Family.Spares.{mem-erase}
use pand_os.Kernel.Family.Detach.{IsProgeny}

-- The namespaces' links are none of the kernel's.
abbrev pub IsForeign : Env → (ns : Addr) → List Addr → Type 0
IsForeign e ns xs = (x : Addr) → x ∈ n_link ns ∷ e.pid_ns_list_h ∷ xs → place e x ≡ 0

-- A namespace whose list a change spares.
pub IsNamespace-frame :
    (e : Env) (m m' : Mem) (ns : Addr) (xs : List Addr)
    → IsForeign e ns xs
    → ((x : Addr) → place e x ≡ 0 → SameAt m m' x)
    → m'.n_type ≡ m.n_type
    → IsNamespace e m ns xs
    → IsNamespace e m' ns xs
IsNamespace-frame e m m' ns xs foreign same types w = record {
  mapped = w.mapped;
  kind = ap (λ t. t ns) types ∙ w.kind;
  ring = Ring-frame m'.next m'.prev w.ring (λ x i. same x (foreign x (ground arith)));
  apart = w.apart;
  movable = elim w.movable [
    | inl i ↦ inl i
    | inr (out, (n, v)) ↦
        let (sn, sv) = same (n_link ns) (foreign (n_link ns) (ground arith)) in
        inr (out, (sn ∙ n, sv ∙ v))
  ];
}

-- A change at links that are none of the kernel's.
module _ (e : Env) (o : Layout e) (m m' : Mem) (a : Lists) (c : Addr) (f : Forest) (pc : IsPcb e c)
    (i : Models e m a) (g : IsProgeny e m a c f)
    (same : (x : Addr) → place e x ≢ 0 → SameAt m m' x) where
  pub foreign-SameQueues : SameQueues e m m'
  foreign-SameQueues x q = same x q.1

  pub foreign-Models :
      m'.table ≡ m.table → m'.s_key ≡ m.s_key → m'.p_sem_add ≡ m.p_sem_add → Models e m' a
  foreign-Models table keys waits = record {
    semds = i.semds;
    holds = tree-Holds e m m' foreign-SameQueues o (view a i.semds) i.holds waits table keys;
  }

  pub foreign-IsProgeny :
      m'.p_sem_add ≡ m.p_sem_add → m'.p_parent ≡ m.p_parent → IsProgeny e m' a c f
  foreign-IsProgeny waits parent = record {
    family =
        tree-IsFamily e m m' c f (λ x w. same x (λ zero. ground (arith, w, zero))) parent pc
          (λ x j. (g.placed x j).0) g.family;
    distinct = g.distinct;
    mapped = g.mapped;
    placed = λ x j.
        let (px, s) = g.placed x j in
        (
          px,
          elim s [
            | inl k ↦ inl k
            | inr (inl l) ↦ inr (inl (tree-IsLoose e m m' foreign-SameQueues waits x l))
            | inr (inr k) ↦ inr (inr k)
          ],
        );
  }

-- enqueueReady of a process that is none of the progeny.
pub enqueued-IsProgeny :
    (e : Env) (m m' : Mem) (a : Lists) (c p : Addr) (f : Forest)
    → IsPcb e c
    → Others e p m m'
    → p ∉ nodes f
    → IsProgeny e m a c f
    → IsProgeny e m' (enqueue p a) c f
enqueued-IsProgeny e m m' a c p f pc others out g = record {
  family = tree-IsFamily e m m' c f others.tree others.parent pc (λ x j. (g.placed x j).0) g.family;
  distinct = g.distinct;
  mapped = g.mapped;
  placed = λ x j.
      let ne : (x == p) ≡ false = ground (arith, j, out) in
      let (px, s) = g.placed x j in
      (
        px,
        elim s [
          | inl k ↦
              inl (
                ground (arith, has-append x (erase p a.ready) (p ∷ []), mem-erase x p a.ready ne k))
          | inr (inl l) ↦ inr (inl (others.loose x (λ same. ground arith) l))
          | inr (inr k) ↦ inr (inr k)
        ],
      );
}

-- The lists, the progeny of the process that runs, and that process.
abbrev pub Tidy : Env → Mem → Lists → Addr → Forest → Type 0
Tidy e m a c f = Models e m a × IsProgeny e m a c f × IsLoose e m c

pub foreign-Tidy :
    (e : Env) (o : Layout e) (m m' : Mem) (a : Lists) (c : Addr) (f : Forest)
    → ((x : Addr) → place e x ≢ 0 → SameAt m m' x)
    → (m'.table ≡ m.table)
      × (m'.s_key ≡ m.s_key)
      × (m'.p_sem_add ≡ m.p_sem_add)
      × (m'.p_parent ≡ m.p_parent)
    → Tidy e m a c f
    → Tidy e m' a c f
foreign-Tidy e o m m' a c f same (table, keys, waits, parent) (i, g, l) = (
  foreign-Models e o m m' a c f l.1 i g same table keys waits,
  foreign-IsProgeny e o m m' a c f l.1 i g same waits parent,
  tree-IsLoose e m m' (foreign-SameQueues e o m m' a c f l.1 i g same) waits c l,
)
