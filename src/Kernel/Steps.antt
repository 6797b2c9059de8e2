-- ===== src/Kernel/Steps.antt =====
-- The kernel and its processes as a step relation: the processes compute, the running one makes SYS3,
-- SYS4 and SYS7 (phase2/syscall.c), the timers and the devices interrupt (phase2/interrupt.c), and an
-- idle kernel schedules (phase2/scheduler.c).
use pand_os.Prelude.{ℕ, ◌≡◌, ◌≢◌}
use pand_os.Mem.{Addr, null, State, Cpu, Mem, set_objects, set_cpu, Exit, Run, ok, exit}
use pand_os.Outcome.{Returns, returns, Exits, exits, Ends, comes_back, leaves}
use pand_os.Env.{Env, Laws}
use pand_os.Devices.{get_pseudo_clock_sem}
use pand_os.Scheduler.{schedule}
use pand_os.Interrupt.{manage_devices, interval_timer_interrupt, local_timer_interrupt}
use pand_os.Syscall.{passeren_sys, verhogen_sys, clock_wait_sys, dispatch}
use pand_os.Invariant.{Layout, Runs}
use pand_os.Kernel.{Lists, Models, Effect}
use pand_os.Kernel.Scheduling.{dequeue, schedule-Scheduled}
use pand_os.Kernel.Calls.{Called, dispatch-passeren, dispatch-verhogen}
use pand_os.Kernel.Devices.{IsConnected, manage_devices-Models}
use pand_os.Kernel.Timers.{
  interval_timer_interrupt-Models, local_timer_interrupt-Models, dispatch-clock_wait,
}

-- The memory that a run leaves, whether it returns or leaves the kernel.
pub data Leads : Run (Unit {0}) → Mem → Type 0 where
  back : {m : Mem} → Leads (ok tt m) m
  out : {x : Exit} {m : Mem} → Leads (exit x m) m

pub data IsOperation : ℕ → Type 0 where
  is_passeren : IsOperation passeren_sys
  is_verhogen : IsOperation verhogen_sys

-- A process runs, and passes the semaphore of its call in a register.
pub record IsCalling (e : Env) (m : Mem) (st : State) : Type 0 where
  pub current : m.current_active_process ≢ null
  pub semaphore : st.gpr e.reg_a1 ≢ null

pub data Step (e : Env) (exc_state : Addr) : Mem → Mem → Type 0 where
  computes :
      {m : Mem} (word : Addr → ℕ) (state : Addr → State)
      → Step e exc_state m (set_objects (λ b. record b { word = word; state = state }) m)
  elapses : {m : Mem} (c : Cpu) → Step e exc_state m (set_cpu (λ _. c) m)
  operates :
      {m m' : Mem} (st : State) (number : ℕ)
      → IsOperation number
      → IsCalling e m st
      → Leads (dispatch e exc_state st number m) m'
      → Step e exc_state m m'
  sleeps :
      {m m' : Mem} (st : State)
      → m.current_active_process ≢ null
      → m.word (get_pseudo_clock_sem e) ≡ 0
      → Leads (dispatch e exc_state st clock_wait_sys m) m'
      → Step e exc_state m m'
  ticks : {m m' : Mem} → Leads (interval_timer_interrupt e m) m' → Step e exc_state m m'
  preempts :
      {m m' : Mem}
      → m.current_active_process ≢ null
      → Leads (local_timer_interrupt e exc_state m) m'
      → Step e exc_state m m'
  completes :
      {m m' : Mem} (line : ℕ)
      → IsConnected e line m
      → Leads (manage_devices e line m) m'
      → Step e exc_state m m'
  schedules : {m m' : Mem} → Leads (schedule e m) m' → Step e exc_state m m'

pub data Reach (e : Env) (exc_state : Addr) (start : Mem) : Mem → Type 0 where
  here : Reach e exc_state start start
  next :
      {m m' : Mem} → Reach e exc_state start m → Step e exc_state m m' → Reach e exc_state start m'

-- The memory holds some lists in order, and the process that runs is on none of them.
pub record InOrder (e : Env) (m : Mem) : Type 0 where
  pub lists : Lists
  pub models : Models e m lists
  pub runs : Runs e m

Leads-Returns :
    {Q : Unit {0} → Mem → Type 0} {r : Run (Unit {0})} {m : Mem} → Returns Q r → Leads r m → Q tt m
Leads-Returns (returns q) back = q

Leads-Exits :
    {Q : Exit → Mem → Type 0} {r : Run (Unit {0})} {m : Mem}
    → Exits Q r
    → Leads r m
    → (x : Exit) × Q x m
Leads-Exits (exits q) out = (_, q)

Leads-Called :
    (e : Env) (exc_state : Addr) (m : Mem) (x : Effect) {r : Run (Unit {0})} {m' : Mem}
    → Called e exc_state m x r
    → Leads r m'
    → InOrder e m'
Leads-Called e exc_state m x (comes_back w) back = record {
  lists = x.lists;
  models = w.1.models;
  runs = w.1.runs w.0;
}
Leads-Called e exc_state m x (leaves w) out = record {
  lists = dequeue x.lists;
  models = w.1.models;
  runs = w.1.runs;
}

Ends-Leads :
    {R : Mem → Type 0} {X : Exit → Mem → Type 0} {r : Run (Unit {0})}
    → Ends R X r
    → (m : Mem) × Leads r m
Ends-Leads (comes_back q) = (_, back)
Ends-Leads (leaves q) = (_, out)

module _ (e : Env) (L : Laws e) (o : Layout e) (exc_state : Addr) (ne : exc_state ≢ null)
    (ns : get_pseudo_clock_sem e ≢ null) where
  operation-Called :
      (m : Mem) (i : InOrder e m) (st : State) (number : ℕ)
      → IsOperation number
      → IsCalling e m st
      → (x : Effect) × Called e exc_state m x (dispatch e exc_state st number m)
  operation-Called m i st number is_passeren c =
      (_, dispatch-passeren e L o exc_state ne m c.current i.lists i.models i.runs st c.semaphore)
  operation-Called m i st number is_verhogen c =
      (_, dispatch-verhogen e L o exc_state ne m c.current i.lists i.models i.runs st c.semaphore)

  -- Every step keeps the kernel in order.
  pub Step-InOrder : (m m' : Mem) → InOrder e m → Step e exc_state m m' → InOrder e m'
  Step-InOrder m m' i (computes word state) = record {
    lists = i.lists;
    models = record { semds = i.models.semds; holds = i.models.holds };
    runs = i.runs;
  }
  Step-InOrder m m' i (elapses c) = record {
    lists = i.lists;
    models = record { semds = i.models.semds; holds = i.models.holds };
    runs = i.runs;
  }
  Step-InOrder m m' i (operates st number op c to) =
      Leads-Called e exc_state m _ (operation-Called m i st number op c).1 to
  Step-InOrder m m' i (sleeps st nc down to) =
      let (x, s) =
        Leads-Exits (dispatch-clock_wait e L o exc_state ne m i.lists i.models i.runs nc st ns down)
          to in
      record { lists = _; models = s.models; runs = s.runs }
  Step-InOrder m m' i (ticks to) =
      let s =
        Leads-Returns (interval_timer_interrupt-Models e L o ns m i.lists i.models i.runs) to in
      record { lists = _; models = s.0; runs = s.1 }
  Step-InOrder m m' i (preempts nc to) =
      let s =
        Leads-Returns (local_timer_interrupt-Models e L o exc_state ne m i.lists i.models i.runs nc)
          to in
      record { lists = _; models = s.0; runs = s.1 }
  Step-InOrder m m' i (completes line c to) =
      let s = Leads-Returns (manage_devices-Models e L o line m i.lists i.models i.runs c) to in
      record { lists = _; models = s.0; runs = s.1 }
  Step-InOrder m m' i (schedules to) =
      let (x, s) = Leads-Exits (schedule-Scheduled e L o m i.lists i.models) to in
      record { lists = _; models = s.models; runs = s.runs }

  -- From a kernel in order, whatever the processes compute, whatever they ask by SYS3, SYS4 and
  -- SYS7 and whenever the two timers and the devices (with addresses that are not NULL) interrupt,
  -- every state that is reached is in order: each list is a ring in memory, no process is on two
  -- lists, and the one that runs is on none.
  pub Reach-InOrder : (start m : Mem) → InOrder e start → Reach e exc_state start m → InOrder e m
  Reach-InOrder start m i here = i
  Reach-InOrder start m i (next {m = before} r s) =
      Step-InOrder before m (Reach-InOrder start before i r) s

  -- In every state that is reached from a kernel in order, SYS3 and SYS4 of the process that runs,
  -- on any semaphore but NULL, go through: the kernel faults nowhere, and no loop runs out of its
  -- bound.
  pub Reach-operates :
      (start m : Mem)
      → InOrder e start
      → Reach e exc_state start m
      → (st : State) (number : ℕ) → IsOperation number
      → IsCalling e m st
      → (m' : Mem) × Leads (dispatch e exc_state st number m) m'
  Reach-operates start m i r st number op c =
      Ends-Leads (operation-Called m (Reach-InOrder start m i r) st number op c).1
