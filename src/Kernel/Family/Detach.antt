-- ===== src/Kernel/Family/Detach.antt =====
-- The first child of a process in __terminateProcess of phase2/syscall.c: it leaves its parent and the
-- ready queue, ends with its own progeny, and the loop goes on with the children behind it.
use pand_os.Prelude.{
  ◌+◌, ◌^◌, ◌≤◌, ◌<◌, ◌≡◌, ◌≢◌, refl, inl, inr, ◌∷◌, ◌++◌, arith, ◌==◌, false, ◌∈◌, has-append,
  length, Distinct, Distinct-append,
}
use pand_os.Mem.{Addr, null, Mem, relink}
use pand_os.Fields.{p_child}
use pand_os.Outcome.{Returns, Returns-mono}
use pand_os.Links.Rings.{Ring, SameOutside}
use pand_os.Env.{Env, Laws}
use pand_os.Pcb.{out_proc_q}
use pand_os.Pcb.Tree.{reparent}
use pand_os.Invariant.{Layout, IsPcb, IsLoose, Others}
use pand_os.Invariant.Tree.{tree-Holds, tree-IsLoose}
use pand_os.Kernel.{Lists, Models, view}
use pand_os.Kernel.Family.{
  Forest, tree, nodes, sibs, IsFamily, Settled, Placed, unready, bury, bury_all,
}
use pand_os.Kernel.Family.Grow.{tree-IsFamily}
use pand_os.Kernel.Family.Spares.{Spares, Spares-trans, mem-erase, Placed-unready, Spares-Others}
use pand_os.Kernel.Family.Release.{out_proc_q-Models}
use pand_os.Kernel.Family.Kill.{without-SameQueues, without-Spares, without-kids, without-rest}

-- The progeny of a process of the kernel: processes of the array, each of which is ready, or on no
-- list, or waits, and no one twice.
pub record IsProgeny (e : Env) (m : Mem) (a : Lists) (p : Addr) (f : Forest) : Type 0 where
  pub family : IsFamily m p f
  pub distinct : Distinct (p ∷ nodes f)
  pub mapped : (c : Addr) → c ∈ nodes f → c ≢ null
  pub placed : (c : Addr) → c ∈ nodes f → Placed e m a c

-- What the end of `p` and its progeny leaves.
pub record Ended (e : Env) (m : Mem) (a : Lists) (p : Addr) (f : Forest) (m' : Mem) : Type 0 where
  pub models : Models e m' (bury p (bury_all f a))
  pub spares : Spares e (p ∷ nodes f) m m'
  pub count :
      length (p ∷ nodes f) ≤ m.process_count
      → m.process_count < 2 ^ 32
      → m'.process_count + length (p ∷ nodes f) ≡ m.process_count
  pub current : m'.current_active_process ≡ m.current_active_process

-- Where the first child has left its parent and the ready queue.
pub record Detached (e : Env) (m : Mem) (a : Lists) (p c : Addr) (kids rest : Forest) (m' : Mem)
    : Type 0 where
  pub models : Models e m' (unready c a)
  pub settled : Settled e m' (unready c a) c
  pub progeny : IsProgeny e m' (unready c a) c kids
  pub parent_settled : Settled e m' (unready c a) p
  pub family : IsFamily m' p rest
  pub placed : (x : Addr) → x ∈ nodes rest → Placed e m' (unready c a) x
  pub spares : Spares e (p ∷ nodes (tree c kids rest)) m m'
  pub sched : m'.sched ≡ m.sched

module _ (e : Env) (L : Laws e) (o : Layout e) (m : Mem) (a : Lists) (i : Models e m a) (p c : Addr)
    (kids rest : Forest) (pp : IsPcb e p) (settled : Settled e m a p)
    (g : IsProgeny e m a p (tree c kids rest)) where
  pcbs : (x : Addr) → x ∈ nodes (tree c kids rest) → IsPcb e x
  pcbs x j = (g.placed x j).0

  kids-mem : (x : Addr) → x ∈ nodes kids → x ∈ nodes (tree c kids rest)
  kids-mem x j = ground (arith, has-append x (nodes kids) (nodes rest))

  rest-mem : (x : Addr) → x ∈ nodes rest → x ∈ nodes (tree c kids rest)
  rest-mem x j = ground (arith, has-append x (nodes kids) (nodes rest))

  module _ (n v : Addr → Addr) (r : Ring n v (p_child p) (sibs rest))
      (same : SameOutside (p_child p ∷ sibs (tree c kids rest)) m n v) where
    abbrev pub m1 : Mem
    m1 = relink (reparent c null m) n v

    loose1 : (x : Addr) → IsLoose e m x → IsLoose e m1 x
    loose1 =
        tree-IsLoose e m m1 (without-SameQueues e o m p c kids rest pp pcbs g.distinct n v same)
          refl

    placed1 : (x : Addr) → Placed e m a x → Placed e m1 a x
    placed1 x (px, inl j) = (px, inl j)
    placed1 x (px, inr (inl l)) = (px, inr (inl (loose1 x l)))
    placed1 x (px, inr (inr w)) = (px, inr (inr w))

    models1 : Models e m1 a
    models1 = record {
      semds = i.semds;
      holds =
          tree-Holds e m m1 (without-SameQueues e o m p c kids rest pp pcbs g.distinct n v same) o
            (view a i.semds) i.holds refl refl refl;
    }

    module _ (m2 : Mem) (others : Others e c m1 m2) where
      placed2 : (x : Addr) → x ∈ nodes kids ++ nodes rest → Placed e m2 (unready c a) x
      placed2 x j =
          let ne : (x == c) ≡ false = ground (arith, g.distinct.1.0) in
          Placed-unready e m1 m2 a x c ne (others.loose x (λ eq. ground arith))
            (placed1 x (g.placed x (ground arith)))

      parent2 : Settled e m a p → Settled e m2 (unready c a) p
      parent2 (inl j) = inl (mem-erase p c a.ready (ground (arith, g.distinct.0)) j)
      parent2 (inr (inl l)) =
          inr (inl (others.loose p (λ eq. ground (arith, g.distinct.0)) (loose1 p l)))
      parent2 (inr (inr w)) = inr (inr w)

      progeny2 : IsProgeny e m2 (unready c a) c kids
      progeny2 = record {
        family =
            tree-IsFamily e m1 m2 c kids others.tree others.parent (pcbs c (ground arith))
              (λ x j. pcbs x (kids-mem x j))
              (without-kids e o m p c kids rest pp pcbs g.distinct n v same
                (g.family.1.1, g.family.1.2));
        distinct = (
          ground (arith, has-append c (nodes kids) (nodes rest), g.distinct.1.0),
          (Distinct-append (nodes kids) (nodes rest) g.distinct.1.1).0,
        );
        mapped = λ x j. g.mapped x (kids-mem x j);
        placed = λ x j. placed2 x (ground (arith, has-append x (nodes kids) (nodes rest)));
      }

      family2 : IsFamily m2 p rest
      family2 =
          tree-IsFamily e m1 m2 p rest others.tree others.parent pp (λ x j. pcbs x (rest-mem x j))
            (r, without-rest e o m p c kids rest pp pcbs g.distinct n v same g.family.1.3)

      spares2 : Spares e (p ∷ nodes (tree c kids rest)) m m2
      spares2 =
          Spares-trans e (without-Spares e o m p c kids rest pp pcbs g.distinct n v same)
            (Spares-Others e others) λ x out. (out, ground arith)

    -- outProcQ of the child, after removeChild.
    pub out_proc_q-Detached :
        Returns (λ _. Detached e m a p c kids rest) (out_proc_q e e.ready_queue c m1)
    out_proc_q-Detached =
        Returns-mono
          (out_proc_q-Models e L o m1 a models1 c (g.mapped c (ground arith))
            (placed1 c (g.placed c (ground arith))))
          λ _ m2 q. record {
            models = q.0;
            settled = q.3;
            progeny = progeny2 m2 q.1;
            parent_settled = parent2 m2 q.1 settled;
            family = family2 m2 q.1;
            placed =
                λ x j. placed2 m2 q.1 x (ground (arith, has-append x (nodes kids) (nodes rest)));
            spares = spares2 m2 q.1;
            sched = q.2;
          }
