-- ===== src/Tests/Trees.antt =====
-- The process tree and the free list at the memory `busy`.
use pand_os.Prelude.{◌≡◌, refl, [], ◌∷◌, arith}
use pand_os.Mem.{null}
use pand_os.Outcome.{Relinks, Returns}
use pand_os.Links.Rings.{Ring}
use pand_os.Pcb.{out_child, alloc_pcb}
use pand_os.Pcb.Unlink.{Removed}
use pand_os.Pcb.Tree.{reparent, out_child-Removed}
use pand_os.Pcb.Reset.{IsFresh, OnlyReset}
use pand_os.Pcb.Alloc.{alloc_pcb-cons}
use pand_os.Instance.{env, laws}
use pand_os.Tests.States.{busy, children-Ring, free-Ring}

out_child-Removed_example :
    Relinks
      (reparent 2384 null busy)
      (λ a n v. (a ≡ 2384) × Removed busy 2012 (2212 ∷ 2404 ∷ []) 2404 n v)
      (out_child env 2384 busy)
out_child-Removed_example =
    out_child-Removed env laws busy 2384 2000 (2212 ∷ 2404 ∷ []) refl children-Ring (omega arith)
      (omega arith) refl

alloc_pcb-cons_example :
    Returns
      (λ q m'.
        (q ≡ 2768)
        × IsFresh 29 m' 2768
        × Ring m'.next m'.prev 1008 (2960 ∷ [])
        × OnlyReset (2780 ∷ 2788 ∷ 1008 ∷ 2768 ∷ 2960 ∷ []) 2768 busy m')
      (alloc_pcb env busy)
alloc_pcb-cons_example = alloc_pcb-cons env laws 2768 (2960 ∷ []) busy free-Ring (refl, refl)
