-- ===== src/Interrupt/Clock.antt =====
-- The tick of the pseudo clock.
use pand_os.Prelude.{
  ℕ, zero, suc, ◌<◌, ◌≡◌, ◌≢◌, refl, sym, subst, append-nil, append_assoc, false, List, [], ◌∷◌,
  ◌++◌, arith, ◌==◌, ◌∈◌, ◌∉◌, has-append, length, ap,
}
use pand_os.Mem.{Addr, null, Cpu, Mem, set_cpu, relink}
use pand_os.Fields.{s_procq}
use pand_os.Words.{sub32}
use pand_os.Outcome.{Returns, returns, Returns-bind, Returns-mono}
use pand_os.Links.Rings.{Ring}
use pand_os.Env.{Env, Laws}
use pand_os.Devices.{get_pseudo_clock_sem}
use pand_os.Ash.Find.{IsKeyed, semd_at}
use pand_os.Ash.Block.{head_blocked-unknown}
use pand_os.Ash.Wake.{IsWaiting, free_after, head_blocked_lem}
use pand_os.Ash.Unhash.{IsKeyed-unhash, semd_at-unhash}
use pand_os.Scheduler.{it_interval, reset_interval_timer, decrement_soft_block_count}
use pand_os.Scheduler.Wake.{IsSeparate, awake, wake_any}
use pand_os.Interrupt.{clock_loop, interval_timer_interrupt}
use pand_os.Interrupt.Semaphores.{fewer_soft_blocked}

-- `ps` wait for a semaphore; where nobody does, it has no descriptor.
abbrev pub IsQueued : (e : Env) (m : Mem) (s sem : Addr) (ps fs : List Addr) → Type 0
IsQueued e m s sem [] fs = IsKeyed m.s_key m.table × (semd_at s m.table ≡ null)
IsQueued e m s sem (p ∷ ps) fs = IsWaiting e m s sem (p ∷ ps) fs

-- The counter after so many decrements.
abbrev pub decremented : ℕ → List Addr → ℕ
decremented n [] = n
decremented n (p ∷ ps) = decremented (sub32 n 1) ps

module _ (e : Env) (L : Laws e) (s sem : Addr) (ns : s ≢ null) where
  -- What is left to wait once p is awake.
  IsQueued-awake :
      (m : Mem) (p : Addr) (ps fs : List Addr) (n v : Addr → Addr)
      → IsWaiting e m s sem (p ∷ ps) fs
      → Ring n v (s_procq sem) ps
      → Ring n v e.semd_free_h (free_after sem ps fs)
      → IsQueued e (fewer_soft_blocked (relink (awake sem p ps m) n v)) s sem ps fs
  IsQueued-awake m p [] fs n v w queue free = (
    IsKeyed-unhash m.s_key _ m.table w.keyed,
    semd_at-unhash m.s_key s sem m.table w.keyed w.found w.sem_mapped,
  )
  IsQueued-awake m p (x ∷ ps) fs n v w queue free = record {
    keyed = w.keyed;
    key_mapped = ns;
    sem_mapped = w.sem_mapped;
    found = w.found;
    queue = queue;
    free = free;
    apart = λ a i. ground (arith, w.apart a i);
    in_use = w.in_use;
    waiting = λ a i. ground (arith, w.waiting a, w.queue.apart);
  }

-- The timer does not matter to who waits.
IsQueued-set_cpu :
    (e : Env) (m : Mem) (s sem : Addr) (ps fs : List Addr) (f : Cpu → Cpu)
    → IsQueued e m s sem ps fs
    → IsQueued e (set_cpu f m) s sem ps fs
IsQueued-set_cpu e m s sem [] fs f w = w
IsQueued-set_cpu e m s sem (p ∷ ps) fs f w = record {
  keyed = w.keyed;
  key_mapped = w.key_mapped;
  sem_mapped = w.sem_mapped;
  found = w.found;
  queue = w.queue;
  free = w.free;
  apart = w.apart;
  in_use = w.in_use;
  waiting = w.waiting;
}

module _ (e : Env) (L : Laws e) (sem : Addr) (fs : List Addr)
    (ns : get_pseudo_clock_sem e ≢ null) where
  -- All of `ps` are ready, behind `rs`, and nobody waits any more.
  pub record IsServed (m : Mem) (ps rs : List Addr) (m' : Mem) : Type 0 where
    pub ready : Ring m'.next m'.prev e.ready_queue (rs ++ ps)
    pub keyed : IsKeyed m'.s_key m'.table
    pub unknown : semd_at (get_pseudo_clock_sem e) m'.table ≡ null
    pub count : m'.soft_block_count ≡ decremented m.soft_block_count ps
    pub current : m'.current_active_process ≡ m.current_active_process
    pub objects : m'.objects ≡ m.objects
    pub cpu : m'.cpu ≡ m.cpu

  pub clock_loop-wakes :
      (k : ℕ) (ps rs : List Addr) (m : Mem)
      → length ps < k
      → IsQueued e m (get_pseudo_clock_sem e) sem ps fs
      → Ring m.next m.prev e.ready_queue rs
      → ((a : Addr) → a ∈ ps → a ∉ e.ready_queue ∷ rs)
      → m.current_active_process ∉ ps
      → IsSeparate e sem rs ps fs
      → Returns (λ _. IsServed m ps rs) (clock_loop e k m)
  unfolding clock_loop decrement_soft_block_count
  clock_loop-wakes zero ps rs m fuel w ready out nc apart = absurd (omega arith)
  clock_loop-wakes (suc k) [] rs m fuel w ready out nc apart =
      simp (head_blocked-unknown e L m w.0 (get_pseudo_clock_sem e) ns w.1) (
        returns (record {
          ready = subst (λ zs. Ring m.next m.prev e.ready_queue zs) (sym (append-nil rs)) ready;
          keyed = w.0;
          unknown = w.1;
          count = refl;
          current = refl;
          objects = refl;
          cpu = refl;
        }))
  clock_loop-wakes (suc k) (p ∷ ps) rs m fuel w ready out nc apart =
      let ep : (p == null) ≡ false = ground (arith, w.queue.mapped) in
      simp (head_blocked_lem e L m (get_pseudo_clock_sem e) sem p ps fs w, ep)
        (wake_any e L m (get_pseudo_clock_sem e) sem p ps fs rs w ready (out p (ground arith))
          (ground arith) apart (Returns (λ _. IsServed m (p ∷ ps) rs)) _
          λ n v q.
            Returns-mono
              (clock_loop-wakes k ps (rs ++ p ∷ [])
                (fewer_soft_blocked (relink (awake sem p ps m) n v)) (omega arith)
                (IsQueued-awake e L (get_pseudo_clock_sem e) sem ns m p ps fs n v w q.1 q.2) q.0
                (λ a i. ground (arith, out a, w.queue.apart, has-append a rs (p ∷ [])))
                (ground arith)
                (λ a i. ground (
                  arith,
                  apart a,
                  w.apart a,
                  w.queue.apart,
                  has-append a rs (p ∷ []),
                  has-append a fs (s_procq sem ∷ ps),
                  has-append a fs (s_procq sem ∷ p ∷ ps),
                )))
              λ x m' z. record {
                ready =
                    subst (λ zs. Ring m'.next m'.prev e.ready_queue zs)
                      (append_assoc rs (p ∷ []) ps) z.ready;
                keyed = z.keyed;
                unknown = z.unknown;
                count = z.count;
                current = z.current;
                objects = z.objects;
                cpu = z.cpu;
              })

  -- Where ps (at most 20, none of them ready or current) wait for the pseudo clock, or nobody does,
  -- and the queues share no node, the interval timer's interrupt ends within its bound: all of ps
  -- stand behind the ready processes in their order, the clock's semaphore is 0 and has no
  -- descriptor, each of ps is taken off the soft block count, the current process stays, and the
  -- timer is loaded again.
  pub interval_timer_interrupt-serves :
      (ps rs : List Addr) (m : Mem)
      → length ps < 21
      → IsQueued e m (get_pseudo_clock_sem e) sem ps fs
      → Ring m.next m.prev e.ready_queue rs
      → ((a : Addr) → a ∈ ps → a ∉ e.ready_queue ∷ rs)
      → m.current_active_process ∉ ps
      → IsSeparate e sem rs ps fs
      → Returns
          (λ _ m'.
            Ring m'.next m'.prev e.ready_queue (rs ++ ps)
            × (semd_at (get_pseudo_clock_sem e) m'.table ≡ null)
            × (m'.soft_block_count ≡ decremented m.soft_block_count ps)
            × (m'.current_active_process ≡ m.current_active_process)
            × (m'.word (get_pseudo_clock_sem e) ≡ 0)
            × (m'.interval_timer ≡ it_interval))
          (interval_timer_interrupt e m)
  unfolding interval_timer_interrupt reset_interval_timer
  interval_timer_interrupt-serves ps rs m few w ready out nc apart =
      let es : (get_pseudo_clock_sem e == null) ≡ false = ground arith in
      let f : Cpu → Cpu = λ k. record k { interval_timer = it_interval } in
      Returns-bind
        (clock_loop-wakes 21 ps rs (set_cpu f m) few
          (IsQueued-set_cpu e m (get_pseudo_clock_sem e) sem ps fs f w) ready out nc apart)
        λ x m' z. simp es (
          returns (
            z.ready,
            z.unknown,
            z.count,
            z.current,
            ground arith,
            ap (λ k. k.interval_timer) z.cpu,
          ))
