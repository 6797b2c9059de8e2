-- ===== src/Interrupt/Semaphores.antt =====
-- P and V on a device semaphore.
use pand_os.Prelude.{◌≡◌, ◌≢◌, refl, false, List, [], ◌∷◌, ◌++◌, arith, ◌==◌, leb, ◌∉◌, upd}
use pand_os.Mem.{Addr, null, Mem, set_sched, set_objects, ok}
use pand_os.Fields.{s_procq}
use pand_os.Words.{add32, sub32}
use pand_os.Outcome.{Relinks, relinks, Relinks-bind}
use pand_os.Links.Rings.{Ring, SameOutside}
use pand_os.Env.{Env, Laws, set_table}
use pand_os.Ash.Find.{IsKeyed, semd_at}
use pand_os.Ash.Block.{waits, insert_blocked-known, head_blocked-unknown}
use pand_os.Ash.Wake.{IsWaiting, table_after, head_blocked_lem}
use pand_os.Scheduler.{increment_soft_block_count, decrement_soft_block_count}
use pand_os.Scheduler.Wake.{IsSeparate, Woken, wake_then}
use pand_os.Interrupt.{sem_p, sem_v}

abbrev pub set_word : Addr → Addr → Mem → Mem
set_word a v = set_objects (λ b. record b { word = upd b.word a v })

-- The number of processes that wait for a device or the clock.
abbrev pub more_soft_blocked : Mem → Mem
more_soft_blocked = set_sched (λ s. record s { soft_block_count = add32 s.soft_block_count 1 })

abbrev pub fewer_soft_blocked : Mem → Mem
fewer_soft_blocked = set_sched (λ s. record s { soft_block_count = sub32 s.soft_block_count 1 })

module _ (e : Env) (L : Laws e) (m : Mem) (s : Addr) where
  pub sem_p-passes : s ≢ null → m.word s ≢ 0 → sem_p e s m ≡ ok tt (set_word s 0 m)
  unfolding sem_p
  sem_p-passes ns up =
      let es : (s == null) ≡ false = ground arith in
      let ev : leb (m.word s) 0 ≡ false = ground arith in simp (es, ev)

  -- Where the device semaphore is 0 and has a descriptor, and the current process waits for nothing
  -- and is not on its queue, P makes it the last of that queue and counts one soft-blocked process
  -- more.
  pub sem_p-blocks :
      (sem : Addr) (xs fs : List Addr)
      → IsWaiting e m s sem xs fs
      → m.word s ≡ 0
      → m.current_active_process ≢ null
      → m.p_sem_add m.current_active_process ≡ null
      → m.current_active_process ∉ s_procq sem ∷ xs
      → Relinks
          (more_soft_blocked (waits m.current_active_process s m))
          (λ _ n v.
            Ring n v (s_procq sem) (xs ++ m.current_active_process ∷ [])
            × SameOutside (m.current_active_process ∷ s_procq sem ∷ xs) m n v)
          (sem_p e s m)
  unfolding sem_p increment_soft_block_count
  sem_p-blocks sem xs fs w down nc idle out =
      let es : (s == null) ≡ false = ground (arith, w.key_mapped) in
      simp (es, down)
        (Relinks-bind _
          (insert_blocked-known e L m w.keyed s w.key_mapped m.current_active_process nc idle sem xs
            w.found w.sem_mapped w.queue out)
          λ a n v q. relinks (q.1, q.2))

  pub sem_v-sets :
      IsKeyed m.s_key m.table
      → s ≢ null
      → semd_at s m.table ≡ null
      → sem_v e s m ≡ ok null (set_word s 1 m)
  unfolding sem_v
  sem_v-sets w ns unknown =
      let es : (s == null) ≡ false = ground arith in
      simp (head_blocked-unknown e L m w s ns unknown, es)

  -- Where p waits first for the semaphore s, p is neither ready nor current and the queues share no
  -- node, V returns p, unblocked and last on the ready queue, takes it off the semaphore's queue,
  -- gives the descriptor back where p was the last, and counts one soft-blocked process less.
  pub sem_v-wakes :
      (sem p : Addr) (ps fs rs : List Addr)
      → IsWaiting e m s sem (p ∷ ps) fs
      → Ring m.next m.prev e.ready_queue rs
      → p ∉ e.ready_queue ∷ rs
      → p ≢ m.current_active_process
      → IsSeparate e sem rs (p ∷ ps) fs
      → Relinks
          (fewer_soft_blocked (set_table (table_after sem ps m.table) (waits p null m)))
          (λ a n v. (a ≡ p) × Woken e sem p ps fs rs n v)
          (sem_v e s m)
  unfolding sem_v decrement_soft_block_count
  sem_v-wakes sem p ps fs rs w ready out nc apart =
      let ep : (p == null) ≡ false = ground (arith, w.queue.mapped) in
      simp (head_blocked_lem e L m s sem p ps fs w, ep)
        (wake_then e L m s sem p ps fs rs w ready out nc apart _ λ n v q. relinks (refl, q))
