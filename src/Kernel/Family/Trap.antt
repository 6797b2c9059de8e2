-- ===== src/Kernel/Family/Trap.antt =====
-- SYS2 from its exception on: exceptionHandler of phase2/exception.c with the number of SYS2.
use pand_os.Prelude.{◌≡◌, ◌≢◌}
use pand_os.Mem.{Addr, null, State, Mem}
use pand_os.Outcome.{Exits, Exits-bind}
use pand_os.Env.{Env, Laws}
use pand_os.Processes.{bios_data_page}
use pand_os.Syscall.{term_process_sys}
use pand_os.Exception.{exception_handler}
use pand_os.Invariant.{Layout}
use pand_os.Kernel.{Lists, Models}
use pand_os.Kernel.Entry.{IsSyscall, stepped, charged, exception_handler-dispatch}
use pand_os.Kernel.Search.{IsNamed}
use pand_os.Kernel.Family.{Forest}
use pand_os.Kernel.Family.Cut.{Above, nobody, child_of, IsAbove}
use pand_os.Kernel.Family.Ending.{IsTarget, Terminated, dispatch-Terminated}

-- The handlers' own changes leave the tree alone.
stepped-IsAbove :
    (e : Env) (m : Mem) (p : Addr) (f : Forest) (up : Above)
    → IsAbove e m p f up
    → IsAbove e (stepped (charged m)) p f up
stepped-IsAbove e m p f nobody w = w
stepped-IsAbove e m p f (child_of q ys) w = record {
  parent = w.parent;
  mapped = w.mapped;
  ring = w.ring;
  here = w.here;
  is_pcb = w.is_pcb;
  apart = w.apart;
  other = w.other;
}

stepped-IsTarget :
    (e : Env) (m : Mem) (a : Lists) (p : Addr) (f : Forest) (up : Above)
    → IsTarget e m a p f up
    → IsTarget e (stepped (charged m)) a p f up
stepped-IsTarget e m a p f up t = record {
  mapped = t.mapped;
  is_pcb = t.is_pcb;
  settled = t.settled;
  progeny = record {
    family = t.progeny.family;
    distinct = t.progeny.distinct;
    mapped = t.progeny.mapped;
    placed = t.progeny.placed;
  };
  above = stepped-IsAbove e m p f up t.above;
  counted = t.counted;
  fits = t.fits;
}

module _ (e : Env) (L : Laws e) (o : Layout e) (m : Mem) (a : Lists) (i : Models e m a) (p : Addr)
    (f : Forest) (up : Above) (t : IsTarget e m a p f up) where
  abbrev s0 : State
  s0 = m.state bios_data_page

  -- In a kernel in order, an exception by a SYSCALL in kernel mode, of SYS2 that means the running
  -- process or one that alone has the identifier among the ready and waiting ones, ends that
  -- process with all its progeny, and the next ready process runs.
  pub exception_handler-Terminated :
      IsSyscall e m s0
      → m.current_active_process ≢ null
      → s0.gpr e.reg_a0 ≡ term_process_sys
      → IsNamed m a (s0.gpr e.reg_a1) p
      → Exits (Terminated e (stepped (charged m)) a p f up) (exception_handler e m)
  exception_handler-Terminated c nc number named =
      let m1 = stepped (charged m) in
      rw (exception_handler-dispatch e m c nc) (
        rw number (
          Exits-bind _ (
            Exits-bind _ (
              dispatch-Terminated e L o m1 a (record { semds = i.semds; holds = i.holds }) p f up
                (stepped-IsTarget e m a p f up t) bios_data_page _ named))))
