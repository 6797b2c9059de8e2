-- ===== src/Kernel/Family/Spares.antt =====
-- What the end of some processes leaves of the others.
use pand_os.Prelude.{◌≡◌, refl, false, inl, inr, List, [], ◌∷◌, arith, ◌∈◌, ◌∉◌, ◌==◌, ◌∙◌}
use pand_os.Mem.{Addr, Mem}
use pand_os.Fields.{p_child, p_sib}
use pand_os.Links.Rings.{erase}
use pand_os.Env.{Env}
use pand_os.Invariant.{IsPcb, IsLoose, Others}
use pand_os.Kernel.{Lists}
use pand_os.Kernel.Family.{
  Forest, nodes, SameAt, IsFamily, Members-frame, sibs-frame, tops-nodes, inner-nodes, Placed,
  unready, bury,
}

-- Every process but the dead ones keeps its place in the tree, and stays loose if it was.
pub record Spares (e : Env) (dead : List Addr) (m m' : Mem) : Type 0 where
  pub loose : (c : Addr) → c ∉ dead → IsLoose e m c → IsLoose e m' c
  pub parent : (c : Addr) → c ∉ dead → m'.p_parent c ≡ m.p_parent c
  pub child : (c : Addr) → IsPcb e c → c ∉ dead → SameAt m m' (p_child c)
  pub sib : (c : Addr) → IsPcb e c → c ∉ dead → SameAt m m' (p_sib c)

module _ (e : Env) where
  pub Spares-none : {m : Mem} (dead : List Addr) → Spares e dead m m
  Spares-none dead = record {
    loose = λ c o l. l;
    parent = λ c o. refl;
    child = λ c p o. (refl, refl);
    sib = λ c p o. (refl, refl);
  }

  pub Spares-trans :
      {d1 d2 dead : List Addr} {m m1 m2 : Mem}
      → Spares e d1 m m1
      → Spares e d2 m1 m2
      → ((c : Addr) → c ∉ dead → (c ∉ d1) × (c ∉ d2))
      → Spares e dead m m2
  Spares-trans s t less = record {
    loose = λ c o l. t.loose c (less c o).1 (s.loose c (less c o).0 l);
    parent = λ c o. t.parent c (less c o).1 ∙ s.parent c (less c o).0;
    child = λ c p o.
        let (a, b) = s.child c p (less c o).0 in
        let (a', b') = t.child c p (less c o).1 in (a' ∙ a, b' ∙ b);
    sib = λ c p o.
        let (a, b) = s.sib c p (less c o).0 in
        let (a', b') = t.sib c p (less c o).1 in (a' ∙ a, b' ∙ b);
  }

  pub Spares-Others : {p : Addr} {m m' : Mem} → Others e p m m' → Spares e (p ∷ []) m m'
  Spares-Others {p} o = record {
    loose = λ c out l. o.loose c (λ same. ground arith) l;
    parent = λ c out. cc o.parent;
    child = λ c p' out. o.tree (p_child c) (inl p'.1);
    sib = λ c p' out. o.tree (p_sib c) (inr p'.2);
  }

  module _ {dead : List Addr} {m m' : Mem} (s : Spares e dead m m') where
    -- A family none of which is dead stays.
    pub Spares-IsFamily :
        (q : Addr) (f : Forest)
        → IsPcb e q
        → q ∉ dead
        → ((c : Addr) → c ∈ nodes f → IsPcb e c × (c ∉ dead))
        → IsFamily m q f
        → IsFamily m' q f
    Spares-IsFamily q f pq oq live w = (
      sibs-frame m m' (p_child q) f w.0 (s.child q pq oq)
          λ c i. let l = live c (tops-nodes c f i) in s.sib c l.0 l.1,
      Members-frame m m' q f w.1 (λ c i. let l = live c i in (s.parent c l.1, s.child c l.0 l.1))
          (λ c i. let l = live c (inner-nodes c f i) in s.sib c l.0 l.1),
    )

-- A node but the one that is erased stays in the list.
pub mem-erase : (x c : Addr) (xs : List Addr) → (x == c) ≡ false → x ∈ xs → x ∈ erase c xs
mem-erase x c [] ne i = i
mem-erase x c (y ∷ ys) ne i = ground (arith, mem-erase x c ys)

module _ (e : Env) (m m' : Mem) (a : Lists) (x c : Addr) (ne : (x == c) ≡ false)
    (loose : IsLoose e m x → IsLoose e m' x) where
  pub Placed-unready : Placed e m a x → Placed e m' (unready c a) x
  Placed-unready (p, inl i) = (p, inl (mem-erase x c a.ready ne i))
  Placed-unready (p, inr (inl l)) = (p, inr (inl (loose l)))
  Placed-unready (p, inr (inr w)) = (p, inr (inr w))

  pub Placed-bury : Placed e m a x → Placed e m' (bury c a) x
  Placed-bury (p, inl i) = (p, inl (mem-erase x c a.ready ne i))
  Placed-bury (p, inr (inl l)) = (p, inr (inl (loose l)))
  Placed-bury (p, inr (inr (s, i))) = (p, inr (inr (s, mem-erase x c (a.waiting s) ne i)))
