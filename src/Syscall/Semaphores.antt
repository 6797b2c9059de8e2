-- ===== src/Syscall/Semaphores.antt =====
-- SYS3 and SYS4: passeren and verhogen on a binary semaphore of the processes.
use pand_os.Prelude.{◌≡◌, ◌≢◌, refl, false, List, [], ◌∷◌, ◌++◌, arith, ◌==◌, ◌∉◌}
use pand_os.Mem.{Addr, null, Mem}
use pand_os.Fields.{s_procq}
use pand_os.Outcome.{Relinks, relinks, Relinks-bind}
use pand_os.Links.Rings.{Ring}
use pand_os.Env.{Env, Laws}
use pand_os.Ash.Block.{waits, insert_blocked-known}
use pand_os.Ash.Wake.{IsWaiting, head_blocked_lem}
use pand_os.Scheduler.Wake.{IsSeparate, Woken, awake, wake_then}
use pand_os.Syscall.{passeren, verhogen}

module _ (e : Env) (L : Laws e) (m : Mem) (s : Addr) where
  module _ (sem : Addr) (xs fs : List Addr) (w : IsWaiting e m s sem xs fs)
      (nc : m.current_active_process ≢ null) (idle : m.p_sem_add m.current_active_process ≡ null)
      (out : m.current_active_process ∉ s_procq sem ∷ xs) where
    -- Where the semaphore is 0 and has a descriptor, and the current process waits for nothing and
    -- is not on its queue, passeren answers 1 and the process is the last of the queue.
    pub passeren-blocks :
        m.word s ≡ 0
        → Relinks
            (waits m.current_active_process s m)
            (λ a n v. (a ≡ 1) × Ring n v (s_procq sem) (xs ++ m.current_active_process ∷ []))
            (passeren e s m)
    unfolding passeren
    passeren-blocks down =
        let es : (s == null) ≡ false = ground (arith, w.key_mapped) in
        simp (es, down)
          (Relinks-bind _
            (insert_blocked-known e L m w.keyed s w.key_mapped m.current_active_process nc idle sem
              xs w.found w.sem_mapped w.queue out)
            λ a n v q. relinks (refl, q.1))

    -- Where the semaphore is 1 and has a descriptor, and the current process waits for nothing and
    -- is not on its queue, verhogen answers 1 and the process is the last of the queue.
    pub verhogen-blocks :
        m.word s ≡ 1
        → Relinks
            (waits m.current_active_process s m)
            (λ a n v. (a ≡ 1) × Ring n v (s_procq sem) (xs ++ m.current_active_process ∷ []))
            (verhogen e s m)
    unfolding verhogen
    verhogen-blocks up =
        let es : (s == null) ≡ false = ground (arith, w.key_mapped) in
        simp (es, up)
          (Relinks-bind _
            (insert_blocked-known e L m w.keyed s w.key_mapped m.current_active_process nc idle sem
              xs w.found w.sem_mapped w.queue out)
            λ a n v q. relinks (refl, q.1))

  module _ (sem p : Addr) (ps fs rs : List Addr) (w : IsWaiting e m s sem (p ∷ ps) fs)
      (ready : Ring m.next m.prev e.ready_queue rs) (out : p ∉ e.ready_queue ∷ rs)
      (nc : p ≢ m.current_active_process) (apart : IsSeparate e sem rs (p ∷ ps) fs) where
    -- Where the semaphore is not 0 and p waits first for it, p is neither ready nor current and the
    -- queues share no node, passeren does not block: it wakes p, which is last on the ready queue,
    -- and leaves the value as it was.
    pub passeren-wakes :
        m.word s ≢ 0
        → Relinks
            (awake sem p ps m)
            (λ a n v. (a ≡ 0) × Woken e sem p ps fs rs n v)
            (passeren e s m)
    unfolding passeren
    passeren-wakes up =
        let es : (s == null) ≡ false = ground (arith, w.key_mapped) in
        let ep : (p == null) ≡ false = ground (arith, w.queue.mapped) in
        let ev : (m.word s == 0) ≡ false = ground arith in
        simp (es, ev, head_blocked_lem e L m s sem p ps fs w, ep)
          (wake_then e L m s sem p ps fs rs w ready out nc apart _ λ n v q. relinks (refl, q))

    -- Where the semaphore is not 1 and p waits first for it, p is neither ready nor current and the
    -- queues share no node, verhogen does not block: it wakes p, which is last on the ready queue,
    -- and leaves the value as it was.
    pub verhogen-wakes :
        m.word s ≢ 1
        → Relinks
            (awake sem p ps m)
            (λ a n v. (a ≡ 0) × Woken e sem p ps fs rs n v)
            (verhogen e s m)
    unfolding verhogen
    verhogen-wakes down =
        let es : (s == null) ≡ false = ground (arith, w.key_mapped) in
        let ep : (p == null) ≡ false = ground (arith, w.queue.mapped) in
        let ev : (m.word s == 1) ≡ false = ground arith in
        simp (es, ev, head_blocked_lem e L m s sem p ps fs w, ep)
          (wake_then e L m s sem p ps fs rs w ready out nc apart _ λ n v q. relinks (refl, q))
