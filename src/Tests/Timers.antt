-- ===== src/Tests/Timers.antt =====
-- The timers of the kernel in order: a process that waits for the pseudo clock, whose semaphore is at
-- 1300, and one whose time slice is over.
use pand_os.Prelude.{Bool-cases, inl, ◌==◌, ◌≡◌, refl, inr, [], ◌∷◌, arith, upd}
use pand_os.Mem.{null, Mem, set_cpu}
use pand_os.Outcome.{Returns, Exits}
use pand_os.Interrupt.{never, interval_timer_interrupt, local_timer_interrupt}
use pand_os.Interrupt.Semaphores.{more_soft_blocked}
use pand_os.Syscall.{dispatch}
use pand_os.Invariant.{Holds, IsQueue, Runs}
use pand_os.Kernel.{Lists, enqueue, Models, join, view}
use pand_os.Kernel.Scheduling.{Scheduled}
use pand_os.Kernel.Calls.{saved}
use pand_os.Kernel.Timers.{
  wake_each, interval_timer_interrupt-Models, local_timer_interrupt-Models, dispatch-clock_wait,
}
use pand_os.Instance.{env, laws}
use pand_os.Tests.States.{zero_state}
use pand_os.Tests.Order.{layout, ordered, ordered_lists, free_links, ordered-Holds, ordered-Runs}

-- 2576 waits for the clock.
abbrev sleeping : Mem
sleeping = record ordered {
  table = (7012, 1300) ∷ [];
  pcbs = record ordered.pcbs { p_sem_add = upd (λ p. 0) 2576 1300 };
  objects = record ordered.objects { s_key = upd (λ s. 0) 7000 1300 };
}

abbrev sleeping_lists : Lists
sleeping_lists = record ordered_lists { waiting = upd (λ s. []) 1300 (2576 ∷ []) }

sleeping-IsQueue : IsQueue env sleeping.links sleeping.p_sem_add free_links 1300 7000 (2576 ∷ [])
sleeping-IsQueue =
    let q = ordered-Holds.known 9000 (omega arith) in
    record {
      key_mapped = omega arith;
      ring = q.ring;
      in_use = refl;
      is_semd = q.is_semd;
      is_pcb = q.is_pcb;
      blocked = λ a i. ground arith;
      busy = λ e. ground (arith, e);
    }

sleeping-Holds : Holds env sleeping (view sleeping_lists free_links)
sleeping-Holds = record {
  keyed = (refl, refl, refl, refl, tt);
  ready = ordered-Holds.ready;
  pool = ordered-Holds.pool;
  semds = ordered-Holds.semds;
  known = λ key ne. elim (Bool-cases (key == 1300)) [
    | inl hit ↦ let same : key ≡ 1300 = ground arith in rw same sleeping-IsQueue
    | inr miss ↦ absurd (ne (ground arith))
  ];
  unknown = λ key none. ground arith;
  ready_pcb = ordered-Holds.ready_pcb;
  ready_idle = λ a i. ground arith;
  pool_pcb = ordered-Holds.pool_pcb;
  pool_idle = λ a i. ground arith;
  apart = ordered-Holds.apart;
  free_semd = ordered-Holds.free_semd;
  count = refl;
  free_link = ordered-Holds.free_link;
}

interval_timer_interrupt-Models_example :
    Returns
      (λ _ m'.
        Models env m' (wake_each 1300 (2576 ∷ []) sleeping_lists)
        × Runs env m'
        × (m'.word 1300 ≡ 0)
        × (m'.current_active_process ≡ 2000)
        × (m'.state ≡ sleeping.state)
        × (m'.interval_timer ≡ 100100))
      (interval_timer_interrupt env sleeping)
interval_timer_interrupt-Models_example =
    interval_timer_interrupt-Models env laws layout (omega arith) sleeping sleeping_lists
      (record { semds = free_links; holds = sleeping-Holds }) ordered-Runs

-- The local timer is on, and the time slice of 2000 is over.
abbrev slice_over : Mem
slice_over = set_cpu (λ c. record c { status_reg = 0x08000000 }) ordered

local_timer_interrupt-Models_example :
    Returns
      (λ _ m'.
        Models env m' (enqueue 2000 ordered_lists)
        × Runs env m'
        × (m'.current_active_process ≡ null)
        × (m'.state ≡ (saved 600 2000 slice_over).state)
        × (m'.local_timer ≡ never))
      (local_timer_interrupt env 600 slice_over)
local_timer_interrupt-Models_example =
    local_timer_interrupt-Models env laws layout 600 (omega arith) slice_over ordered_lists
      (record { semds = free_links; holds = ordered-Holds }) ordered-Runs (omega arith)

dispatch-clock_wait_example :
    Exits
      (Scheduled env (more_soft_blocked (saved 600 2000 ordered)) (join 2000 1300 ordered_lists))
      (dispatch env 600 zero_state 7 ordered)
dispatch-clock_wait_example =
    dispatch-clock_wait env laws layout 600 (omega arith) ordered ordered_lists
      (record { semds = free_links; holds = ordered-Holds }) ordered-Runs (omega arith) zero_state
      (omega arith) refl
