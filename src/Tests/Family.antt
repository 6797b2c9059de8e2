-- ===== src/Tests/Family.antt =====
-- A kernel in order with a process tree: 2000 runs; 2192 and 2384 are its children, and 2576, which
-- waits for a semaphore, is the child of 2192.
use pand_os.Prelude.{◌≡◌, ◌≢◌, refl, inl, inr, [], ◌∷◌, arith, upd, ◌∈◌, ◌==◌, Bool-cases}
use pand_os.Mem.{Addr, State, Mem, ok, fault}
use pand_os.Outcome.{Exits}
use pand_os.Links.Rings.{Ring}
use pand_os.Ash.{find_pcb}
use pand_os.Processes.{pass_up_or_die}
use pand_os.Syscall.{dispatch}
use pand_os.Invariant.{place, Holds, IsLoose}
use pand_os.Invariant.Tree.{SameQueues, tree-Holds}
use pand_os.Kernel.{Models, view}
use pand_os.Kernel.Scheduling.{dequeue}
use pand_os.Kernel.Search.{IsAnswer, IsListed, find_pcb-IsAnswer}
use pand_os.Kernel.Family.{Forest, none, tree, nodes, Placed, bury, bury_all}
use pand_os.Kernel.Family.Detach.{IsProgeny}
use pand_os.Kernel.Family.Cut.{nobody, child_of}
use pand_os.Kernel.Family.Ending.{
  IsTarget, Terminated, pass_up_or_die-Terminated, dispatch-Terminated,
}
use pand_os.Kernel.Family.Lost.{IsNowhere, dispatch-IsNowhere, dispatch-unknown}
use pand_os.Instance.{env, laws}
use pand_os.Tests.States.{chain, zero_state}
use pand_os.Tests.Order.{free_links, ordered, ordered_lists, layout, pcbs-IsPcb, ordered-Holds}

abbrev pub rooted : Mem
rooted = record ordered {
  links =
      chain 2012 2012 (2212 ∷ 2404 ∷ [])
        (chain 2204 2204 (2596 ∷ []) (chain 2396 2396 [] (chain 2588 2588 [] ordered.links)));
  pcbs = record ordered.pcbs { p_parent = upd ordered.p_parent 2576 2192 };
}

rooted-SameQueues : SameQueues env ordered rooted
unfolding place
rooted-SameQueues x q = ground (arith, q)

rooted-Holds : Holds env rooted (view ordered_lists free_links)
rooted-Holds =
    tree-Holds env ordered rooted rooted-SameQueues layout (view ordered_lists free_links)
      ordered-Holds refl refl refl

pub rooted-Models : Models env rooted ordered_lists
rooted-Models = record { semds = free_links; holds = rooted-Holds }

pub rooted-IsLoose : IsLoose env rooted 2000
rooted-IsLoose = (omega arith, pcbs-IsPcb 2000 refl, (refl, refl), refl)

-- The children of 2000, with theirs.
abbrev pub below : Forest
below = tree 2192 (tree 2576 none none) (tree 2384 none none)

children-Ring : Ring rooted.next rooted.prev 2012 (2212 ∷ 2404 ∷ [])
children-Ring = record { links = omega arith; apart = (refl, (refl, (refl, tt))); mapped = refl }

grandchild-Ring : Ring rooted.next rooted.prev 2204 (2596 ∷ [])
grandchild-Ring = record { links = omega arith; apart = (refl, (refl, tt)); mapped = refl }

second-Ring : Ring rooted.next rooted.prev 2396 []
second-Ring = record { links = omega arith; apart = (refl, tt); mapped = refl }

third-Ring : Ring rooted.next rooted.prev 2588 []
third-Ring = record { links = omega arith; apart = (refl, tt); mapped = refl }

ready-Placed : (c : Addr) → c ∈ 2192 ∷ 2384 ∷ [] → Placed env rooted ordered_lists c
ready-Placed c i = (pcbs-IsPcb c (ground (arith, i)), inl i)

waiting-Placed : Placed env rooted ordered_lists 2576
waiting-Placed = (pcbs-IsPcb 2576 refl, inr (inr (9000, refl)))

below-Placed : (c : Addr) → c ∈ nodes below → Placed env rooted ordered_lists c
below-Placed c i = elim (Bool-cases (c == 2576)) [
  | inl hit ↦ let same : c ≡ 2576 = ground arith in rw same waiting-Placed
  | inr miss ↦ ready-Placed c (ground (arith, i))
]

pub below-IsProgeny : IsProgeny env rooted ordered_lists 2000 below
below-IsProgeny = record {
  family = (
    children-Ring,
    (refl, grandchild-Ring, (refl, third-Ring, tt, tt), (refl, second-Ring, tt, tt)),
  );
  distinct = (refl, (refl, (refl, (refl, tt))));
  mapped = λ c i. ground (arith, i);
  placed = below-Placed;
}

-- The running process with all of them, and its first child with its own.
pub rooted-IsTarget : IsTarget env rooted ordered_lists 2000 below nobody
rooted-IsTarget = record {
  mapped = omega arith;
  is_pcb = pcbs-IsPcb 2000 refl;
  settled = inr (inl rooted-IsLoose);
  progeny = below-IsProgeny;
  above = refl;
  counted = omega arith;
  fits = omega arith;
}

abbrev grandchild : Forest
grandchild = tree 2576 none none

grandchild-IsProgeny : IsProgeny env rooted ordered_lists 2192 grandchild
grandchild-IsProgeny = record {
  family = (grandchild-Ring, (refl, third-Ring, tt, tt));
  distinct = (refl, (refl, tt));
  mapped = λ c i. ground (arith, i);
  placed = λ c i. below-Placed c (ground (arith, i));
}

child-IsTarget :
    IsTarget env rooted ordered_lists 2192 grandchild (child_of 2000 (2192 ∷ 2384 ∷ []))
child-IsTarget = record {
  mapped = omega arith;
  is_pcb = pcbs-IsPcb 2192 refl;
  settled = inl refl;
  progeny = grandchild-IsProgeny;
  above = record {
    parent = refl;
    mapped = omega arith;
    ring = children-Ring;
    here = refl;
    is_pcb = λ x i. pcbs-IsPcb x (ground (arith, i));
    apart = λ x i. ground (arith, i);
    other = refl;
  };
  counted = omega arith;
  fits = omega arith;
}

-- An argument that names the process 2192, and one that names none.
abbrev on_child : State
on_child = record zero_state { gpr = upd (λ r. 0) 4 2 }

abbrev on_nobody : State
on_nobody = record zero_state { gpr = upd (λ r. 0) 4 9 }

listed-mem : (q : Addr) → IsListed ordered_lists q → q ∈ 2192 ∷ 2384 ∷ 2576 ∷ []
listed-mem q (inl i) = ground (arith, i)
listed-mem q (inr (s, i)) = ground (arith, i)

dispatch-Terminated_example :
    Exits
      (Terminated env rooted ordered_lists 2192 grandchild (child_of 2000 (2192 ∷ 2384 ∷ [])))
      (dispatch env 600 on_child 2 rooted)
dispatch-Terminated_example =
    dispatch-Terminated env laws layout rooted ordered_lists rooted-Models 2192 grandchild
      (child_of 2000 (2192 ∷ 2384 ∷ [])) child-IsTarget 600 on_child
      (inr (omega arith, refl, inl refl, λ q l same. ground (arith, listed-mem q l, same)))

pass_up_or_die-Terminated_example :
    Exits (Terminated env rooted ordered_lists 2000 below nobody) (pass_up_or_die env 1 rooted)
pass_up_or_die-Terminated_example =
    pass_up_or_die-Terminated env laws layout rooted ordered_lists rooted-Models 2000 below nobody
      rooted-IsTarget 1 refl refl refl

dispatch-IsNowhere_example :
    Exits
      (λ _ m'.
        let left = dequeue (bury 2192 (bury_all grandchild ordered_lists)) in
        Models env m' left × (m'.current_active_process ≢ 2000) × IsNowhere left 2000)
      (dispatch env 600 on_child 2 rooted)
dispatch-IsNowhere_example =
    dispatch-IsNowhere env laws layout rooted ordered_lists rooted-Models (λ ne. rooted-IsLoose)
      (omega arith) 2192 grandchild (child_of 2000 (2192 ∷ 2384 ∷ [])) child-IsTarget 600 on_child
      refl (inr (omega arith, refl, inl refl, λ q l same. ground (arith, listed-mem q l, same)))

dispatch-unknown_example : dispatch env 600 on_nobody 2 rooted ≡ fault
dispatch-unknown_example =
    dispatch-unknown env laws rooted ordered_lists rooted-Models 600 on_nobody (omega arith)
      (λ q l same. ground (arith, listed-mem q l, same))

find_pcb-IsAnswer_example :
    (p : Addr) × (find_pcb env 4 1000 rooted ≡ ok p rooted) × IsAnswer rooted ordered_lists 4 p
find_pcb-IsAnswer_example = find_pcb-IsAnswer env laws rooted ordered_lists rooted-Models 4
