-- ===== src/Tests/Kernel.antt =====
-- The kernel in order at work.
use pand_os.Prelude.{◌≡◌, ◌≢◌, refl, inr, [], ◌∷◌, arith, upd}
use pand_os.Mem.{State, Mem}
use pand_os.Outcome.{Returns, Exits}
use pand_os.Ash.{insert_blocked, out_blocked}
use pand_os.Scheduler.{schedule}
use pand_os.Interrupt.{device_loop, manage_devices}
use pand_os.Syscall.{dispatch}
use pand_os.Invariant.{IsLoose, Runs}
use pand_os.Invariant.Blocking.{Joined, insert_blocked-refines}
use pand_os.Invariant.Waking.{Parted, out_blocked-refines}
use pand_os.Kernel.{Models, view, passeren_spec, verhogen_spec}
use pand_os.Kernel.Scheduling.{Scheduled, schedule-Scheduled}
use pand_os.Kernel.Calls.{Called, dispatch-passeren, dispatch-verhogen}
use pand_os.Kernel.Devices.{IsConnected, served, manage_devices-Models}
use pand_os.Kernel.Steps.{
  InOrder, Reach, here, next, computes, Leads, is_passeren, Reach-InOrder, Reach-operates,
}
use pand_os.Instance.{env, laws}
use pand_os.Tests.States.{zero_state}
use pand_os.Tests.Order.{
  layout, ordered, ordered_lists, free_links, ordered-Holds, ordered-Runs, ordered-InOrder,
}

-- A call on the semaphore at 9000.
abbrev on_9000 : State
on_9000 = record zero_state { gpr = upd (λ r. 0) 4 9000 }

runner-IsLoose : IsLoose env ordered 2000
runner-IsLoose = ordered-Runs (omega arith)

ordered-Models : Models env ordered ordered_lists
ordered-Models = record { semds = free_links; holds = ordered-Holds }

some_free : free_links ≢ []
some_free e = ground (arith, e)

insert_blocked-refines_example :
    Returns
      (Joined env 9000 2000 ordered (view ordered_lists free_links))
      (insert_blocked env 9000 2000 ordered)
insert_blocked-refines_example =
    insert_blocked-refines env laws layout ordered (view ordered_lists free_links) ordered-Holds
      9000 (omega arith) 2000 runner-IsLoose (inr some_free)

out_blocked-refines_example :
    Returns
      (Parted env 7000 9000 2576 ordered (view ordered_lists free_links))
      (out_blocked env 2576 ordered)
out_blocked-refines_example =
    out_blocked-refines env laws layout ordered (view ordered_lists free_links) ordered-Holds 9000
      2576 refl

schedule-Scheduled_example : Exits (Scheduled env ordered ordered_lists) (schedule env ordered)
schedule-Scheduled_example = schedule-Scheduled env laws layout ordered ordered_lists ordered-Models

dispatch-passeren_example :
    Called env 600 ordered
      (passeren_spec 2000 9000 ordered.word ordered_lists)
      (dispatch env 600 on_9000 3 ordered)
dispatch-passeren_example =
    dispatch-passeren env laws layout 600 (omega arith) ordered (omega arith) ordered_lists
      ordered-Models ordered-Runs on_9000 (omega arith)

dispatch-verhogen_example :
    Called env 600 ordered
      (verhogen_spec 2000 9000 ordered.word ordered_lists)
      (dispatch env 600 on_9000 4 ordered)
dispatch-verhogen_example =
    dispatch-verhogen env laws layout 600 (omega arith) ordered (omega arith) ordered_lists
      ordered-Models ordered-Runs on_9000 (omega arith)

-- The process 2576 waits for the disk 0, whose semaphore is the one at 9000, with an array at 9500.
abbrev disk_waited : Mem
disk_waited = record ordered {
  pcbs = record ordered.pcbs { p_saved_device_status = upd (λ p. 0) 2576 9500 };
}

disk_waited-IsConnected : IsConnected env 3 disk_waited
unfolding device_loop
disk_waited-IsConnected = record {
  bitmap = omega arith;
  status = omega arith;
  command = omega arith;
  semaphore = omega arith;
  array = λ p blocked. ground (arith, blocked);
}

manage_devices-Models_example :
    Returns
      (λ _ m'.
        Models env m' (served 9000 ordered_lists (2576 ∷ []))
        × Runs env m'
        × (m'.current_active_process ≡ 2000))
      (manage_devices env 3 disk_waited)
unfolding device_loop
manage_devices-Models_example =
    manage_devices-Models env laws layout 3 disk_waited ordered_lists
      (record { semds = free_links; holds = ordered-Holds }) ordered-Runs disk_waited-IsConnected

-- The process has set the semaphore at 9000 to 1.
abbrev raised : Mem
raised = record ordered { objects = record ordered.objects { word = upd ordered.word 9000 1 } }

raised-Reach : Reach env 600 ordered raised
raised-Reach = next here (computes (upd ordered.word 9000 1) ordered.state)

Reach-InOrder_example : InOrder env raised
Reach-InOrder_example =
    Reach-InOrder env laws layout 600 (omega arith) (omega arith) ordered raised ordered-InOrder
      raised-Reach

Reach-operates_example : (m' : Mem) × Leads (dispatch env 600 on_9000 3 raised) m'
Reach-operates_example =
    Reach-operates env laws layout 600 (omega arith) (omega arith) ordered raised ordered-InOrder
      raised-Reach on_9000 3 is_passeren (record { current = omega arith; semaphore = omega arith })
