-- ===== src/Tests/Running.antt =====
-- The scheduler at concrete memories.
use pand_os.Prelude.{◌≡◌, refl, [], ◌∷◌, arith}
use pand_os.Mem.{load_state, and_then}
use pand_os.Outcome.{Exits}
use pand_os.Links.Rings.{Ring, SameOutside}
use pand_os.Instance.{env, laws}
use pand_os.Pcb.Unlink.{IsDetached}
use pand_os.Scheduler.{schedule, enqueue_ready}
use pand_os.Scheduler.Ready.{schedule-ready, round_robin}
use pand_os.Tests.States.{zero_state, busy, ready-Ring}

schedule-ready_example :
    Exits
      (λ x m'.
        (x ≡ load_state zero_state)
        × (m'.current_active_process ≡ 2192)
        × Ring m'.next m'.prev 1000 (2384 ∷ [])
        × IsDetached m' 2192
        × (m'.start_time ≡ 77)
        × (m'.local_timer ≡ 0)
        × (m'.pcbs ≡ busy.pcbs)
        × (m'.objects ≡ busy.objects)
        × (m'.process_count ≡ 4)
        × SameOutside (1000 ∷ 2192 ∷ 2384 ∷ []) busy m'.next m'.prev
        × (m'.table ≡ busy.table))
      (schedule env busy)
schedule-ready_example = schedule-ready env laws busy 2192 (2384 ∷ []) ready-Ring (omega arith)

round_robin_example :
    Exits
      (λ x m'.
        (x ≡ load_state zero_state)
        × (m'.current_active_process ≡ 2192)
        × Ring m'.next m'.prev 1000 (2384 ∷ 2000 ∷ []))
      (and_then (enqueue_ready env 2000 busy) (λ _. schedule env))
round_robin_example =
    round_robin env laws busy 2000 2192 (2384 ∷ []) ready-Ring refl (omega arith) (omega arith) refl
      (refl, refl) (omega arith)
