-- ===== src/Kernel/Family/Progeny.antt =====
-- __terminateProcess of phase2/syscall.c: a process and all its progeny end.
use pand_os.Prelude.{
  ℕ, zero, suc, ◌<◌, ◌≡◌, ◌≢◌, inl, inr, ◌∷◌, arith, ◌==◌, false, ◌∈◌, ◌∉◌, has-append, length,
  length-append, Distinct-append, ap, ◌∙◌,
}
use pand_os.Mem.{Addr, null, Mem}
use pand_os.Outcome.{Returns, Returns-bind, Returns-mono, Relinks-return}
use pand_os.Env.{Env, Laws}
use pand_os.Pcb.Tree.{remove_child-cons, remove_child-nil}
use pand_os.Processes.{terminate_tree}
use pand_os.Invariant.{Layout, IsPcb}
use pand_os.Kernel.{Lists, Models}
use pand_os.Kernel.Family.{Forest, none, tree, nodes, sibs, Settled, unready, bury, bury_all}
use pand_os.Kernel.Family.Spares.{Spares-trans, Spares-IsFamily, mem-erase}
use pand_os.Kernel.Family.Release.{release_process-Buried}
use pand_os.Kernel.Family.Kill.{bury_all-ready, bury_all-waiting}
use pand_os.Kernel.Family.Detach.{IsProgeny, Ended, Detached, out_proc_q-Detached}

-- The first child and its progeny have ended.
module _ (e : Env) (m : Mem) (a : Lists) (p c : Addr) (kids rest : Forest) (pp : IsPcb e p)
    (g : IsProgeny e m a p (tree c kids rest)) (m2 m3 : Mem) (d : Detached e m a p c kids rest m2)
    (ended : Ended e m2 (unready c a) c kids m3) where
  abbrev left : Lists
  left = bury c (bury_all kids (unready c a))

  apart : (x : Addr) → x ∈ p ∷ nodes rest → x ∉ c ∷ nodes kids
  apart x j =
      let (dk, dr, off) = Distinct-append (nodes kids) (nodes rest) g.distinct.1.1 in
      ground (
        arith,
        off x,
        has-append c (nodes kids) (nodes rest),
        has-append p (nodes kids) (nodes rest),
        has-append x (nodes kids) (nodes rest),
        g.distinct.0,
        g.distinct.1.0,
      )

  Settled-left :
      (x : Addr) → x ∈ p ∷ nodes rest → Settled e m2 (unready c a) x → Settled e m3 left x
  Settled-left x j (inl r) =
      let out = apart x j in
      inl (mem-erase x c _ (ground arith) (bury_all-ready x kids (unready c a) (ground arith) r))
  Settled-left x j (inr (inl l)) = inr (inl (ended.spares.loose x (apart x j) l))
  Settled-left x j (inr (inr (s, w))) =
      let out = apart x j in
      inr (
        inr (
          s,
          mem-erase x c _ (ground arith) (bury_all-waiting x s kids (unready c a) (ground arith) w),
        ))

  rest-IsProgeny : IsProgeny e m3 left p rest
  rest-IsProgeny = record {
    family =
        Spares-IsFamily e ended.spares p rest pp (apart p (ground arith))
          (λ x j. ((d.placed x j).0, apart x (ground arith))) d.family;
    distinct = (
      ground (arith, has-append p (nodes kids) (nodes rest), g.distinct.0),
      (Distinct-append (nodes kids) (nodes rest) g.distinct.1.1).1,
    );
    mapped = λ x j. g.mapped x (ground (arith, has-append x (nodes kids) (nodes rest)));
    placed = λ x j. let (px, s) = d.placed x j in (px, Settled-left x (ground arith) s);
  }

  tree-Ended : (m4 : Mem) → Ended e m3 left p rest m4 → Ended e m a p (tree c kids rest) m4
  tree-Ended m4 later =
      let mem = λ (x : Addr). has-append x (nodes kids) (nodes rest) in
      let len = length-append (nodes kids) (nodes rest) in
      record {
        models = later.models;
        spares =
            Spares-trans e d.spares
              (Spares-trans e {dead = p ∷ nodes (tree c kids rest)} ended.spares later.spares
                λ x out. (ground (arith, mem x), ground (arith, mem x)))
              λ x out. (out, out);
        count = λ le lt.
            let same : m2.process_count ≡ m.process_count = ap (λ z. z.process_count) d.sched in
            let first = ended.count (omega (arith, len)) (omega arith) in
            let second = later.count (omega (arith, len)) (omega arith) in omega (arith, len);
        current = later.current ∙ ended.current ∙ ap (λ z. z.current_active_process) d.sched;
      }

module _ (e : Env) (L : Laws e) (o : Layout e) where
  pub terminate_tree-Ended :
      (k : ℕ) (m : Mem) (a : Lists) (p : Addr) (f : Forest)
      → length (nodes f) < k
      → Models e m a
      → p ≢ null
      → IsPcb e p
      → Settled e m a p
      → IsProgeny e m a p f
      → Returns (λ _. Ended e m a p f) (terminate_tree e k p m)
  unfolding terminate_tree
  terminate_tree-Ended zero m a p f fuel i np pp settled g = absurd (omega arith)
  terminate_tree-Ended (suc k) m a p none fuel i np pp settled g =
      simp (remove_child-nil e L m p np g.family.0) (
        Returns-mono (release_process-Buried e L o m a i p np pp settled) λ _ m' r. record {
          models = r.0;
          spares = r.1;
          count = λ le lt. let eq = r.2 in ground arith;
          current = r.3;
        })
  terminate_tree-Ended (suc k) m a p (tree c kids rest) fuel i np pp settled g =
      let nc = g.mapped c (ground arith) in
      let ec : (c == null) ≡ false = ground arith in
      let len = length-append (nodes kids) (nodes rest) in
      Relinks-return _ (remove_child-cons e L m p c (sibs rest) g.family.0 np nc g.family.1.0)
        λ q n v r.
          simp (r.0, ec)
            (Returns-bind (out_proc_q-Detached e L o m a i p c kids rest pp settled g n v r.1 r.4)
              λ _ m2 d.
                Returns-bind
                  (terminate_tree-Ended k m2 (unready c a) c kids (omega (arith, len)) d.models nc
                    (g.placed c (ground arith)).0 d.settled d.progeny)
                  λ _ m3 ended.
                    Returns-mono
                      (terminate_tree-Ended k m3 (left e m a p c kids rest pp g m2 m3 d ended) p
                        rest (omega (arith, len)) ended.models np pp
                        (Settled-left e m a p c kids rest pp g m2 m3 d ended p (ground arith)
                          d.parent_settled)
                        (rest-IsProgeny e m a p c kids rest pp g m2 m3 d ended))
                      λ _ m4 later. tree-Ended e m a p c kids rest pp g m2 m3 d ended m4 later)
