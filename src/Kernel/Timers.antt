-- ===== src/Kernel/Timers.antt =====
-- The interrupts of the two timers in phase2/interrupt.c, and SYS7 in phase2/syscall.c.
use pand_os.Prelude.{
  ℕ, zero, suc, ◌<◌, ◌≡◌, ◌≢◌, refl, false, true, inl, inr, Bool-cases, List, [], ◌∷◌, arith, ap,
  ◌==◌, ◌∙◌, if◌then◌else◌, upd, length, bit_and, ◌/◌, ◌^◌,
}
use pand_os.Mem.{Addr, null, State, Mem, Sched, set_cpu, set_objects}
use pand_os.Fields.{p_s}
use pand_os.Outcome.{
  Returns, returns, Returns-bind, Returns-mono, Returns-exit, Exits, Exits-mono, Relinks-then,
}
use pand_os.Links.Rings.{erase-head}
use pand_os.Env.{Env, Laws}
use pand_os.Devices.{get_pseudo_clock_sem}
use pand_os.Scheduler.{
  it_interval, reset_interval_timer, decrement_soft_block_count, increment_soft_block_count,
}
use pand_os.Interrupt.{clock_loop, interval_timer_interrupt, local_timer_interrupt, sem_p, never}
use pand_os.Interrupt.Semaphores.{fewer_soft_blocked, more_soft_blocked}
use pand_os.Syscall.{clock_wait_sys, dispatch}
use pand_os.Invariant.{Layout, Runs}
use pand_os.Invariant.Waking.{first-ne-null, head_blocked-first, head_blocked-nobody}
use pand_os.Kernel.{Lists, Models, view, wake, join, enqueue}
use pand_os.Kernel.Waking.{wake-Returns}
use pand_os.Kernel.Semaphores.{block-Shows}
use pand_os.Kernel.Scheduling.{Scheduled, schedule-Scheduled}
use pand_os.Kernel.Calls.{saved, Scheduled-same}
use pand_os.Invariant.Room.{length-waiting}
use pand_os.Invariant.Ready.{enqueue_ready-refines}
use pand_os.Words.{add32}

-- All of `ps`, in their order, wake up.
abbrev pub wake_each : (s : Addr) → List Addr → Lists → Lists
wake_each s [] a = a
wake_each s (p ∷ ps) a = wake_each s ps (wake p s a)

wake-waiting :
    (s p : Addr) (ps : List Addr) (a : Lists) → a.waiting s ≡ p ∷ ps → (wake p s a).waiting s ≡ ps
wake-waiting s p ps a eq =
    let here : (s == s) ≡ true = ground arith in simp (here, eq) (erase-head p ps)

module _ (e : Env) (L : Laws e) (o : Layout e) (ns : get_pseudo_clock_sem e ≢ null) where
  clock_loop-Models :
      (k : ℕ) (ps : List Addr) (m : Mem) (a : Lists)
      → length ps < k
      → a.waiting (get_pseudo_clock_sem e) ≡ ps
      → Models e m a
      → Runs e m
      → Returns
          (λ _ m'.
            Models e m' (wake_each (get_pseudo_clock_sem e) ps a)
            × Runs e m'
            × (m'.current_active_process ≡ m.current_active_process)
            × (m'.state ≡ m.state)
            × (m'.cpu ≡ m.cpu))
          (clock_loop e k m)
  unfolding clock_loop decrement_soft_block_count
  clock_loop-Models zero ps m a fuel eq i runs = absurd (omega arith)
  clock_loop-Models (suc k) [] m a fuel eq i runs =
      simp (head_blocked-nobody e L o m (view a i.semds) i.holds (get_pseudo_clock_sem e) ns eq)
        (returns (i, runs, refl, refl, refl))
  clock_loop-Models (suc k) (p ∷ ps) m a fuel eq i runs =
      let s = get_pseudo_clock_sem e in
      let v = view a i.semds in
      let ep : (p == null) ≡ false = ground (arith, first-ne-null e L o m v i.holds s p ps eq) in
      simp (head_blocked-first e L o m v i.holds s p ps eq, ep)
        (wake-Returns e L o m a i s p ps eq runs _ λ m' w.
          Returns-mono
            (clock_loop-Models k ps (fewer_soft_blocked m') (wake p s a) (omega arith)
              (wake-waiting s p ps a eq) (record { semds = w.0.semds; holds = w.0.holds }) w.1)
            λ x m'' z.
              (z.0, z.1, z.2 ∙ ap (λ q. q.current_active_process) w.2.0, z.3 ∙ w.2.3, z.4 ∙ w.2.1))

  -- In a kernel in order the interval timer's interrupt returns within its bound of 21 rounds: all
  -- that wait for the pseudo clock stand behind the ready processes in their order, nobody waits
  -- for it any more, its semaphore is 0, and the timer is set to ITINTERVAL; the process that runs,
  -- if one does, still runs, and the saved states are as they were.
  pub interval_timer_interrupt-Models :
      (m : Mem) (a : Lists)
      → Models e m a
      → Runs e m
      → Returns
          (λ _ m'.
            Models e m' (wake_each (get_pseudo_clock_sem e) (a.waiting (get_pseudo_clock_sem e)) a)
            × Runs e m'
            × (m'.word (get_pseudo_clock_sem e) ≡ 0)
            × (m'.current_active_process ≡ m.current_active_process)
            × (m'.state ≡ m.state)
            × (m'.interval_timer ≡ it_interval))
          (interval_timer_interrupt e m)
  unfolding interval_timer_interrupt reset_interval_timer
  interval_timer_interrupt-Models m a i runs =
      let s = get_pseudo_clock_sem e in
      let es : (s == null) ≡ false = ground arith in
      let m1 = set_cpu (λ k. record k { interval_timer = it_interval }) m in
      Returns-bind
        (clock_loop-Models 21 (a.waiting s) m1 a
          (omega (arith, length-waiting e m (view a i.semds) i.holds s)) refl
          (record { semds = i.semds; holds = i.holds }) runs)
        λ x m' z. simp es (
          returns (
            record { semds = z.0.semds; holds = z.0.holds },
            z.1,
            ground arith,
            z.2,
            z.3,
            ap (λ c. c.interval_timer) z.4,
          ))

-- The lists after the end of a time slice, if the timer is on.
abbrev pub sliced : Env → Mem → Lists → Lists
sliced e m a =
    if bit_and m.status_reg e.status_te / 2 ^ e.status_te_bit == 0
    then a
    else enqueue m.current_active_process a

-- The process that runs then, the saved states and the local timer.
abbrev pub sliced_process : Env → Mem → Addr
sliced_process e m =
    if bit_and m.status_reg e.status_te / 2 ^ e.status_te_bit == 0
    then m.current_active_process
    else null

abbrev pub sliced_states : Env → (exc_state : Addr) → Mem → (Addr → State)
sliced_states e exc_state m =
    if bit_and m.status_reg e.status_te / 2 ^ e.status_te_bit == 0
    then m.state
    else (saved exc_state m.current_active_process m).state

abbrev pub sliced_timer : Env → Mem → ℕ
sliced_timer e m =
    if bit_and m.status_reg e.status_te / 2 ^ e.status_te_bit == 0 then m.local_timer else never

module _ (e : Env) (L : Laws e) (o : Layout e) (exc_state : Addr) (ne : exc_state ≢ null) (m : Mem)
    (a : Lists) (i : Models e m a) (runs : Runs e m) (nc : m.current_active_process ≢ null) where
  -- In a kernel in order with a process that runs, the local timer's interrupt returns: where the
  -- timer is on, that process is last on the ready queue with its state saved, none runs, and the
  -- timer is set to NEVER; else the lists, the process that runs, the saved states and the timer
  -- are as they were.
  pub local_timer_interrupt-Models :
      Returns
        (λ _ m'.
          Models e m' (sliced e m a)
          × Runs e m'
          × (m'.current_active_process ≡ sliced_process e m)
          × (m'.state ≡ sliced_states e exc_state m)
          × (m'.local_timer ≡ sliced_timer e m))
        (local_timer_interrupt e exc_state m)
  unfolding local_timer_interrupt
  local_timer_interrupt-Models =
      elim (Bool-cases (bit_and m.status_reg e.status_te / 2 ^ e.status_te_bit == 0)) [
        | inl off ↦ simp off (returns (i, runs, refl, refl, refl))
        | inr on ↦
            let c = m.current_active_process in
            let en : (exc_state == null) ≡ false = ground arith in
            let ec : (c == null) ≡ false = ground arith in
            let hit : (c == c) ≡ true = ground arith in
            let m1 =
              set_objects (λ b. record b { state = upd b.state (p_s c) (m.state exc_state) })
                (set_cpu (λ k. record k { local_timer = never }) m) in
            let r = enqueue_ready-refines e L o m1 (view a i.semds) i.holds c (inr (runs nc)) in
            simp (on, en, ec)
              (Relinks-then (rw hit at r) λ _ n w q.
                (record { semds = i.semds; holds = q.0 }, λ z. absurd (z refl), refl, refl, refl))
      ]

  sem_p-Models :
      (s : Addr)
      → s ≢ null
      → m.word s ≡ 0
      → Returns
          (λ _ m'.
            Models e m' (join m.current_active_process s a)
            × (m'.sched ≡ (more_soft_blocked m).sched)
            × (m'.state ≡ m.state)
            × (m'.word ≡ m.word)
            × (m'.p_time ≡ m.p_time))
          (sem_p e s m)
  unfolding sem_p increment_soft_block_count
  sem_p-Models s ns down =
      let es : (s == null) ≡ false = ground arith in
      simp (es, down)
        (Returns-bind (block-Shows e L o m a i runs s ns nc) λ r m1 j. returns (
          record { semds = j.1.semds; holds = j.1.holds },
          ap (λ (z : Sched). record z { soft_block_count = add32 z.soft_block_count 1 }) j.2.0,
          j.2.3,
          j.2.2,
          j.2.5,
        ))

  -- In a kernel in order, with the pseudo clock's semaphore at 0, SYS7 of the process that runs
  -- leaves the kernel: the process waits for the clock with its state saved, and the next ready
  -- process runs; the other saved states, the variables and the times of the processes are as they
  -- were.
  pub dispatch-clock_wait :
      (st : State)
      → get_pseudo_clock_sem e ≢ null
      → m.word (get_pseudo_clock_sem e) ≡ 0
      → Exits
          (Scheduled e
            (more_soft_blocked (saved exc_state m.current_active_process m))
            (join m.current_active_process (get_pseudo_clock_sem e) a))
          (dispatch e exc_state st clock_wait_sys m)
  unfolding dispatch
  dispatch-clock_wait st ns down =
      let c = m.current_active_process in
      let s = get_pseudo_clock_sem e in
      let en : (exc_state == null) ≡ false = ground arith in
      Returns-exit (sem_p-Models s ns down) λ r m1 j.
        let same : m1.current_active_process ≡ c = ap (λ z. z.current_active_process) j.1 in
        let ec : (m1.current_active_process == null) ≡ false = ground arith in
        let m2 = saved exc_state m1.current_active_process m1 in
        simp (en, ec)
          (Exits-mono
            (schedule-Scheduled e L o m2 (join c s a)
              (record { semds = j.0.semds; holds = j.0.holds }))
            λ y m' z. Scheduled-same _ _ z j.1 (rw (same, j.2) refl) j.3 j.4)
