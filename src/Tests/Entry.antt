-- ===== src/Tests/Entry.antt =====
-- The running process of a kernel in order makes SYS3 or SYS2, from the exception on.
use pand_os.Prelude.{refl, inl, arith, upd}
use pand_os.Mem.{State, Mem}
use pand_os.Outcome.{Exits}
use pand_os.Processes.{bios_data_page}
use pand_os.Exception.{exception_handler}
use pand_os.Kernel.Steps.{is_passeren}
use pand_os.Kernel.Entry.{
  IsSyscall, stepped, charged, advanced, promised, Answered, exception_handler-Answered,
}
use pand_os.Kernel.Family.Cut.{nobody}
use pand_os.Kernel.Family.Ending.{IsTarget, Terminated}
use pand_os.Kernel.Family.Trap.{exception_handler-Terminated}
use pand_os.Instance.{env, laws}
use pand_os.Tests.States.{zero_state}
use pand_os.Tests.Order.{free_links, ordered, ordered_lists, layout, ordered-Holds, ordered-Runs}
use pand_os.Tests.Family.{rooted, rooted-Models, rooted-IsTarget, below}

-- The code of a SYSCALL is 8, and reg_a0 and reg_a1 are the registers 3 and 4.
abbrev asking_3 : State
asking_3 = record zero_state { cause = 32; gpr = upd (upd (λ r. 0) 3 3) 4 9000 }

abbrev asking_2 : State
asking_2 = record zero_state { cause = 32; gpr = upd (λ r. 0) 3 2 }

abbrev with_saved : State → Mem → Mem
with_saved s m = record m { objects = record m.objects { state = upd m.state bios_data_page s } }

ordered-IsSyscall : IsSyscall env (with_saved asking_3 ordered) asking_3
ordered-IsSyscall = record {
  no_interrupt = refl;
  no_fault = refl;
  syscall = refl;
  kernel_mode = refl;
}

rooted-IsSyscall : IsSyscall env (with_saved asking_2 rooted) asking_2
rooted-IsSyscall = record {
  no_interrupt = refl;
  no_fault = refl;
  syscall = refl;
  kernel_mode = refl;
}

exception_handler-Answered_example :
    Exits
      (Answered env
        (stepped (charged (with_saved asking_3 ordered)))
        (advanced asking_3)
        (promised is_passeren 2000 9000 ordered.word ordered_lists))
      (exception_handler env (with_saved asking_3 ordered))
exception_handler-Answered_example =
    exception_handler-Answered env laws layout (with_saved asking_3 ordered) ordered_lists
      (record { semds = free_links; holds = ordered-Holds }) ordered-Runs ordered-IsSyscall
      is_passeren (record { current = omega arith; semaphore = omega arith })

saved-IsTarget : IsTarget env (with_saved asking_2 rooted) ordered_lists 2000 below nobody
saved-IsTarget = record {
  mapped = rooted-IsTarget.mapped;
  is_pcb = rooted-IsTarget.is_pcb;
  settled = rooted-IsTarget.settled;
  progeny = record {
    family = rooted-IsTarget.progeny.family;
    distinct = rooted-IsTarget.progeny.distinct;
    mapped = rooted-IsTarget.progeny.mapped;
    placed = rooted-IsTarget.progeny.placed;
  };
  above = rooted-IsTarget.above;
  counted = rooted-IsTarget.counted;
  fits = rooted-IsTarget.fits;
}

exception_handler-Terminated_example :
    Exits
      (Terminated env
        (stepped (charged (with_saved asking_2 rooted)))
        ordered_lists
        2000
        below
        nobody)
      (exception_handler env (with_saved asking_2 rooted))
exception_handler-Terminated_example =
    exception_handler-Terminated env laws layout (with_saved asking_2 rooted) ordered_lists
      (record { semds = rooted-Models.semds; holds = rooted-Models.holds }) 2000 below nobody
      saved-IsTarget rooted-IsSyscall (omega arith) refl (inl (refl, refl))
