-- ===== src/Tests/Interrupts.antt =====
-- Interrupts at concrete memories.
use pand_os.Prelude.{◌≡◌, refl, true, [], ◌∷◌, arith, upd}
use pand_os.Mem.{null, Mem, load_state}
use pand_os.Fields.{p_s}
use pand_os.Outcome.{Relinks, Exits}
use pand_os.Links.Rings.{Ring}
use pand_os.Env.{set_table}
use pand_os.Instance.{env, laws}
use pand_os.Ash.Block.{waits}
use pand_os.Ash.Wake.{IsWaiting}
use pand_os.Scheduler.Wake.{Woken}
use pand_os.Interrupt.{device_loop, manage_devices, interrupt_handler}
use pand_os.Interrupt.Semaphores.{set_word, fewer_soft_blocked}
use pand_os.Interrupt.Preempt.{IsTick, interrupt_handler-preempts}
use pand_os.Interrupt.Completion.{told, IsAwaited, manage_devices-completes}
use pand_os.Tests.States.{
  zero_state, chain, no_links, busy, ready-Ring, blocked-Ring, semds-Ring, busy-IsSeparate,
}

-- The time slice of 2000 is over.
abbrev ticking : Mem
ticking = record busy { cpu = record busy.cpu { cause_reg = 0x200; status_reg = 0x08000000 } }

ticking-IsTick : IsTick env ticking
ticking-IsTick = record {
  plt = refl;
  clock = refl;
  disk = refl;
  flash = refl;
  net = refl;
  print = refl;
  term = refl;
  enabled = refl;
}

interrupt_handler-preempts_example :
    Exits
      (λ x m'.
        (x ≡ load_state zero_state)
        × (m'.current_active_process ≡ 2192)
        × (m'.state (p_s 2000) ≡ zero_state)
        × Ring m'.next m'.prev 1000 (2384 ∷ 2000 ∷ []))
      (interrupt_handler env 9500 ticking)
interrupt_handler-preempts_example =
    interrupt_handler-preempts env laws ticking 9500 2000 2192 (2384 ∷ []) ticking-IsTick ready-Ring
      refl (omega arith) (omega arith) (omega arith) refl (refl, refl) (omega arith)

-- 2576 waits for the first disk, which interrupts and is ready.
abbrev disk_done : Mem
disk_done = record busy {
  table = (7012, 9000) ∷ [];
  pcbs = record busy.pcbs {
    p_sem_add = upd (λ p. 0) 2576 9000;
    p_saved_device_status = upd (λ p. 0) 2576 9600;
  };
  objects = record busy.objects {
    s_key = upd (λ s. 0) 7000 9000;
    word = upd (upd (λ a. 0) 0x10000040 1) 0x10000054 1;
  };
}

disk_done-IsWaiting : IsWaiting env disk_done 9000 7000 (2576 ∷ []) (7048 ∷ [])
disk_done-IsWaiting = record {
  keyed = (refl, refl, refl, refl, tt);
  key_mapped = omega arith;
  sem_mapped = omega arith;
  found = refl;
  queue = blocked-Ring;
  free = semds-Ring;
  apart = λ a i. ground arith;
  in_use = refl;
  waiting = λ a i. ground arith;
}

one_device : device_loop 8 1 0 ≡ 0
unfolding device_loop
one_device = refl

disk_done-IsAwaited :
    IsAwaited env laws disk_done 3 0 9000 0x10000054 7000 2576 [] (7048 ∷ []) (2192 ∷ 2384 ∷ [])
disk_done-IsAwaited = record {
  bitmap_mapped = omega arith;
  device = one_device;
  register = refl;
  semaphore = refl;
  status_mapped = omega arith;
  command_mapped = omega arith;
  array_mapped = omega arith;
  waiting = disk_done-IsWaiting;
  ready = ready-Ring;
  unready = refl;
  other = omega arith;
  separate = busy-IsSeparate;
}

manage_devices-completes_example :
    Relinks
      (told env 2576 1 true
        (fewer_soft_blocked (set_table [] (waits 2576 null (set_word 0x10000058 1 disk_done)))))
      (λ _ n v. Woken env 7000 2576 [] (7048 ∷ []) (2192 ∷ 2384 ∷ []) n v)
      (manage_devices env 3 disk_done)
manage_devices-completes_example =
    manage_devices-completes env laws disk_done 3 0 9000 0x10000054 7000 2576 [] (7048 ∷ [])
      (2192 ∷ 2384 ∷ []) disk_done-IsAwaited

-- 2576 and 2768 wait for the tick of the clock, 2192 is ready and 2000 runs.
abbrev clock_wait : Mem
clock_wait = record busy {
  links =
      chain 1000 1000 (2192 ∷ [])
        (chain 1016 1016 (7048 ∷ []) (chain 7004 7004 (2576 ∷ 2768 ∷ []) no_links));
  table = (7012, 1300) ∷ [];
  pcbs = record busy.pcbs { p_sem_add = upd (upd (λ p. 0) 2576 1300) 2768 1300 };
  objects = record busy.objects { s_key = upd (λ s. 0) 7000 1300 };
  sched = record busy.sched { soft_block_count = 2 };
}

clock_wait-IsWaiting : IsWaiting env clock_wait 1300 7000 (2576 ∷ 2768 ∷ []) (7048 ∷ [])
clock_wait-IsWaiting = record {
  keyed = (refl, refl, refl, refl, tt);
  key_mapped = omega arith;
  sem_mapped = omega arith;
  found = refl;
  queue = record { links = omega arith; apart = (refl, (refl, (refl, tt))); mapped = refl };
  free = record { links = omega arith; apart = (refl, (refl, tt)); mapped = refl };
  apart = λ a i. ground arith;
  in_use = refl;
  waiting = λ a i. ground arith;
}

clock_wait-Ring : Ring clock_wait.next clock_wait.prev 1000 (2192 ∷ [])
clock_wait-Ring = record { links = omega arith; apart = (refl, (refl, tt)); mapped = refl }
