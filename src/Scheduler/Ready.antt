-- ===== src/Scheduler/Ready.antt =====
-- The ready queue and what `schedule` does with it.
use pand_os.Prelude.{
  ◌*◌, ◌%◌, ◌^◌, ◌<◌, ◌≡◌, ◌≢◌, inl, inr, Bool-cases, refl, subst, true, false, List, [], ◌∷◌, ◌++◌,
  arith, ◌==◌, if◌then◌else◌, length, length-append, ◌∉◌, ℕ,
}
use pand_os.Mem.{
  Addr, null, Mem, relink, set_sched, set_cpu, Exit, halted, waiting, panicked, load_state, exit,
  and_then,
}
use pand_os.Fields.{p_s}
use pand_os.Outcome.{Relinks, relinks, Relinks-bind, Relinks-exit, Exits, exits, Exits-mono}
use pand_os.Links.Rings.{
  Ring, SameOutside, erase, erase-not_mem, empty-nil, first-ne-head, next-head,
}
use pand_os.Env.{Env, Laws}
use pand_os.Pcb.Unlink.{IsDetached}
use pand_os.Pcb.Queues.{IsMovable, insert_proc_q-append, remove_proc_q-cons, empty_proc_q_lem}
use pand_os.Scheduler.{schedule, enqueue_ready, wait_status, timeslice, timescale_addr}

-- The memory with another current process.
abbrev pub running : Addr → Mem → Mem
running p = set_sched (λ s. record s { current_active_process = p })

-- Putting the current process on the ready queue takes the processor from it.
abbrev pub yielded : Addr → Mem → Mem
yielded p m = if p == m.current_active_process then running null m else m

-- What `schedule` does when no process is ready.
abbrev pub idle_exit : (processes soft_blocked : ℕ) → Exit
idle_exit processes soft_blocked =
    if processes == 0 then halted else if soft_blocked == 0 then panicked else waiting

-- In the wait the local timer is off and every other interrupt is on.
abbrev pub idle_mem : Mem → Mem
idle_mem m =
    if m.process_count == 0
    then running null m
    else if m.soft_block_count == 0
    then running null m
    else set_cpu (λ c. record c { status_reg = wait_status }) (running null m)

module _ (e : Env) (L : Laws e) (m : Mem) where
  open e use {ready_queue}

  -- A process that is on the ready queue already, or in no list, becomes the last of the ready
  -- queue; where it was the current process, no process is current afterwards.
  pub enqueue_ready-append :
      (p : Addr) (xs : List Addr)
      → Ring m.next m.prev ready_queue xs
      → p ≢ null
      → p ≢ ready_queue
      → IsMovable m xs p
      → Relinks
          (yielded p m)
          (λ _ n v.
            Ring n v ready_queue (erase p xs ++ p ∷ []) × SameOutside (p ∷ ready_queue ∷ xs) m n v)
          (enqueue_ready e p m)
  unfolding enqueue_ready
  enqueue_ready-append p xs r np nq movable =
      Relinks-bind _ (insert_proc_q-append e L m ready_queue xs r p np nq movable) λ _ n v q.
        elim (Bool-cases (p == m.current_active_process)) [
          | inl hit ↦ simp hit (relinks q)
          | inr miss ↦ simp miss (relinks q)
        ]

  -- Where the ready queue is p and then ps (fewer than 20), schedule leaves the kernel by loading
  -- the state of p: p is current and in no list, ps is the queue, the start time is the clock, the
  -- local timer is one time slice, and the fields of the processes, all objects, the hash table,
  -- the process count and all links outside the queue are as before.
  pub schedule-ready :
      (p : Addr) (ps : List Addr)
      → Ring m.next m.prev ready_queue (p ∷ ps)
      → length ps < 20
      → Exits
          (λ x m'.
            (x ≡ load_state (m.state (p_s p)))
            × (m'.current_active_process ≡ p)
            × Ring m'.next m'.prev ready_queue ps
            × IsDetached m' p
            × (m'.start_time ≡ m.clock)
            × (m'.local_timer ≡ (timeslice * m.word timescale_addr) % 2 ^ 32)
            × (m'.pcbs ≡ m.pcbs)
            × (m'.objects ≡ m.objects)
            × (m'.process_count ≡ m.process_count)
            × SameOutside (ready_queue ∷ p ∷ ps) m m'.next m'.prev
            × (m'.table ≡ m.table))
          (schedule e m)
  unfolding schedule
  schedule-ready p ps r few =
      let ep : (p == null) ≡ false = ground (arith, r.mapped) in
      simp
        (
          λ (m' : Mem). empty_proc_q_lem e L m' ready_queue (ground (arith, r.mapped)),
          next-head r,
          first-ne-head r,
        )
        (Relinks-exit _ (remove_proc_q-cons e L (running null m) ready_queue p ps r few) λ a n v q.
          simp (q.0, ep)
            (exits (refl, refl, q.1, (q.2, q.3), refl, refl, refl, refl, refl, q.4, refl)))

  -- Where the ready queue is empty, schedule halts without processes, panics where no process waits
  -- for a device or the clock, and else waits with the interrupts on and the local timer off; no
  -- process is current then.
  pub schedule-idle :
      Ring m.next m.prev ready_queue []
      → schedule e m ≡ exit (idle_exit m.process_count m.soft_block_count) (idle_mem m)
  unfolding schedule
  schedule-idle r =
      simp
        (λ (m' : Mem). empty_proc_q_lem e L m' ready_queue (ground (arith, r.mapped)), empty-nil r)
        (elim (Bool-cases (m.process_count == 0)) [
          | inl none ↦ simp none
          | inr some ↦ elim (Bool-cases (m.soft_block_count == 0)) [
            | inl stuck ↦ simp (some, stuck)
            | inr soft ↦ simp (some, soft)
          ]
        ])

-- Where process c runs and is in no list, and the ready queue holds p and then ps (fewer than 19),
-- putting c on the ready queue and scheduling loads the state of p, makes p the current process,
-- and leaves the queue ps with c last.
pub round_robin :
    (e : Env)
    → Laws e
    → (m : Mem) (c p : Addr) (ps : List Addr) → Ring m.next m.prev e.ready_queue (p ∷ ps)
    → m.current_active_process ≡ c
    → c ≢ null
    → c ≢ e.ready_queue
    → c ∉ p ∷ ps
    → IsDetached m c
    → length ps < 19
    → Exits
        (λ x m'.
          (x ≡ load_state (m.state (p_s p)))
          × (m'.current_active_process ≡ p)
          × Ring m'.next m'.prev e.ready_queue (ps ++ c ∷ []))
        (and_then (enqueue_ready e c m) (λ _. schedule e))
round_robin e L m c p ps r cur nc nq out d few =
    Relinks-exit _ (enqueue_ready-append e L m c (p ∷ ps) r nc nq (inr (out, d))) λ _ n v q.
      let hit : (c == m.current_active_process) ≡ true = ground arith in
      let r' : Ring n v e.ready_queue (p ∷ ps ++ c ∷ []) =
        subst (λ zs. Ring n v e.ready_queue (zs ++ c ∷ [])) (erase-not_mem c (p ∷ ps) out) q.0 in
      simp hit (
        Exits-mono
          (schedule-ready e L (relink (running null m) n v) p (ps ++ c ∷ []) r'
            (omega (arith, length-append ps (c ∷ []))))
          λ x m' w. (w.0, w.1, w.2))
