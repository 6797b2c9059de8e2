-- ===== src/Kernel/Family/Fresh.antt =====
-- allocPcb of phase1/pcb.c in createProcess: what it leaves of the processes and of their tree.
use pand_os.Prelude.{
  ◌≡◌, ◌≢◌, false, ◌⊎◌, inl, inr, List, [], ◌∷◌, arith, ◌==◌, ◌∈◌, ◌∉◌, Bool-cases, sym, ◌∙◌,
}
use pand_os.Mem.{Addr, Mem}
use pand_os.Fields.{p_child, p_sib}
use pand_os.Outcome.{Returns, Returns-mono}
use pand_os.Links.Rings.{node-ne-null}
use pand_os.Env.{Env, Laws}
use pand_os.Pcb.{alloc_pcb}
use pand_os.Pcb.Reset.{IsFresh, OnlyReset}
use pand_os.Pcb.Alloc.{alloc_pcb-cons}
use pand_os.Invariant.{place, Layout, IsPcb, IsLoose}
use pand_os.Invariant.Places.{
  IsLoose-outside, detached-outside, not_mem-of, not_mem-place, pool-place,
}
use pand_os.Invariant.Pool.{allocated-Holds, pool-IsSpaced, pool-Ring, first-IsPcb}
use pand_os.Invariant.Waking.{waiting-blocked, waiting-mapped}
use pand_os.Kernel.{Lists, Models, view}
use pand_os.Kernel.Family.{Forest, nodes, Settled}
use pand_os.Kernel.Family.Spares.{Spares, Spares-IsFamily}
use pand_os.Kernel.Family.Detach.{IsProgeny}

-- The free processes are these.
abbrev pub with_pool : List Addr → Lists → Lists
with_pool ps a = record a { pool = ps }

-- The process is off the free list, and reset.
pub record Allocated (e : Env) (m : Mem) (a : Lists) (p : Addr) (ps : List Addr) (m1 : Mem)
    : Type 0 where
  pub models : Models e m1 (with_pool ps a)
  pub fresh : IsFresh e.state_gpr_len m1 p
  pub only : OnlyReset (p_child p ∷ p_sib p ∷ e.pcb_free_h ∷ p ∷ ps) p m m1
  pub loose : IsLoose e m1 p
  pub spares : Spares e (p ∷ []) m m1

module _ (e : Env) (L : Laws e) (o : Layout e) (m : Mem) (a : Lists) (i : Models e m a) where
  -- A process that has a place is not free.
  pub Settled-pool : (d : Addr) → Settled e m a d → d ∉ a.pool
  Settled-pool d (inl j) = i.holds.apart d j
  Settled-pool d (inr (inl l)) = ground (arith, detached-outside m d i.holds.pool l.2)
  Settled-pool d (inr (inr (s, j))) = not_mem-of d a.pool λ k.
      let at = waiting-blocked e L o m (view a i.semds) i.holds s d j in
      absurd
        (waiting-mapped e L o m (view a i.semds) i.holds s d j (sym at ∙ i.holds.pool_idle d k))

  module _ (p : Addr) (ps : List Addr) (eq : a.pool ≡ p ∷ ps) where
    pub alloc_pcb-Allocated : Returns (λ q m1. (q ≡ p) × Allocated e m a p ps m1) (alloc_pcb e m)
    alloc_pcb-Allocated =
        let h = i.holds in
        let v = view a i.semds in
        let ring = pool-Ring e L o m v h p ps eq in
        let pp = first-IsPcb e L o m v h p ps eq in
        let off = λ (x : Addr) (k : (place e x ≡ 16) ⊎ (place e x ≡ 24)).
          let out =
            not_mem-place e x 4 (p ∷ ps) (λ y j. (h.pool_pcb y (rw eq j)).0) (ground (arith, k)) in
          let no : x ∉ e.pcb_free_h ∷ p ∷ ps = ground (arith, k, out, pool-place e o) in no in
        Returns-mono (alloc_pcb-cons e L p ps m ring (pool-IsSpaced e L o m v h p ps eq)) λ q m1 w.
          (
            w.0,
            record {
              models = record {
                semds = i.semds;
                holds = allocated-Holds e L o m v h p ps eq _ m1 w.1 w.2 w.3;
              };
              fresh = w.1;
              only = w.3;
              loose = (node-ne-null ring p (ground arith), pp, w.1.detached, w.1.not_blocked);
              spares = record {
                loose = λ c out l.
                    let ne : c ≢ p = λ same. ground arith in
                    IsLoose-outside e m m1 (p_child p ∷ p_sib p ∷ e.pcb_free_h ∷ p ∷ ps) c l
                      w.3.links (ground (arith, detached-outside m c ring l.2, l.1, pp, ne))
                      (w.3.p_sem_add c ne);
                parent = λ c out. w.3.p_parent c (λ same. ground arith);
                child = λ c pc out.
                    w.3.links (p_child c) (ground (arith, off (p_child c) (inl pc.1), pc, pp));
                sib = λ c pc out.
                    w.3.links (p_sib c) (ground (arith, off (p_sib c) (inr pc.2), pc, pp));
              };
            },
          )

    -- The progeny of another process stays.
    pub Allocated-IsProgeny :
        (m1 : Mem) (c : Addr) (f : Forest)
        → Allocated e m a p ps m1
        → IsPcb e c
        → Settled e m a c
        → IsProgeny e m a c f
        → (p ∉ c ∷ nodes f) × IsProgeny e m1 (with_pool ps a) c f
    Allocated-IsProgeny m1 c f w pc sc g =
        let free : p ∈ a.pool = rw eq (ground arith) in
        let other : (x : Addr) → Settled e m a x → (x == p) ≡ false =
          λ x s. ground (arith, Settled-pool x s, free) in
        let out : (x : Addr) → x ∈ c ∷ nodes f → (x == p) ≡ false = λ x j.
          elim (Bool-cases (x == c)) [
            | inl hit ↦ ground (arith, other c sc)
            | inr miss ↦ other x (g.placed x (ground arith)).1
          ] in
        (
          not_mem-of p (c ∷ nodes f) λ j. absurd (ground (arith, out p j)),
          record {
            family =
                Spares-IsFamily e w.spares c f pc (ground (arith, out c))
                  (λ x j. ((g.placed x j).0, ground (arith, out x))) g.family;
            distinct = g.distinct;
            mapped = g.mapped;
            placed = λ x j.
                let (px, s) = g.placed x j in
                (
                  px,
                  elim s [
                    | inl k ↦ inl k
                    | inr (inl l) ↦ inr (inl (w.spares.loose x (ground (arith, out x)) l))
                    | inr (inr k) ↦ inr (inr k)
                  ],
                );
          },
        )
