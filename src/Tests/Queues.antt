-- ===== src/Tests/Queues.antt =====
-- The process queues and the free list at the memory `busy`.
use pand_os.Prelude.{◌≡◌, true, [], ◌∷◌, arith}
use pand_os.Mem.{null, ok, fault}
use pand_os.Outcome.{Relinks}
use pand_os.Links.Rings.{Ring, SameOutside}
use pand_os.Instance.{env, laws}
use pand_os.Pcb.{init_pcbs, remove_proc_q, head_proc_q, empty_proc_q}
use pand_os.Pcb.Queues.{proc_q-null}
use pand_os.Pcb.Start.{blocks, init_pcbs-Ring}
use pand_os.Tests.States.{blank, busy}

proc_q-null_example :
    (head_proc_q env null busy ≡ fault)
    × (remove_proc_q env null busy ≡ fault)
    × (empty_proc_q env null busy ≡ ok true busy)
proc_q-null_example = proc_q-null env laws busy

init_pcbs-Ring_example :
    Relinks blank
      (λ _ n v.
        Ring n v 1008 (blocks 2000 0 20 []) × SameOutside (1008 ∷ blocks 2000 0 20 []) blank n v)
      (init_pcbs env blank)
init_pcbs-Ring_example =
    init_pcbs-Ring env laws blank (omega arith) (omega arith) (λ j lt. omega arith)
