-- ===== src/Kernel/Devices.antt =====
-- The interrupt of a device in phase2/interrupt.c, on the abstract lists: V of its semaphore, and the
-- answer to the process that waited.
use pand_os.Prelude.{
  ℕ, ◌+◌, ◌*◌, ◌≡◌, ◌≢◌, refl, false, inl, Bool, List, [], ◌∷◌, arith, ◌==◌, ◌∈◌, ◌∙◌, ap,
  has-append,
}
use pand_os.Mem.{Addr, null, Mem, relink}
use pand_os.Outcome.{Returns, returns, Returns-bind, Returns-mono, Relinks-then}
use pand_os.Env.{Env, Laws}
use pand_os.Devices.{get_dev_sem}
use pand_os.Scheduler.{enqueue_ready, decrement_soft_block_count}
use pand_os.Interrupt.{device_loop, get_interrupting_device, sem_v, complete_io, manage_devices}
use pand_os.Interrupt.Completion.{told}
use pand_os.Interrupt.Semaphores.{set_word}
use pand_os.Invariant.{Layout, View, Holds, Runs}
use pand_os.Invariant.Places.{IsLoose-outside, detached-outside}
use pand_os.Invariant.Waking.{
  first-ne-null, first-ne-current, waiting-blocked, head_blocked-first, head_blocked-nobody,
}
use pand_os.Invariant.Ready.{enqueue_ready-refines, enqueued}
use pand_os.Kernel.{Lists, Models, view, wake, enqueue}
use pand_os.Links.Rings.{erase}
use pand_os.Kernel.Waking.{wake-Returns}

-- A process that is ready already goes to the back of the queue, and the one that runs stays.
module _ (e : Env) (L : Laws e) (o : Layout e) (m : Mem) (v : View) (i : Holds e m v) (p : Addr)
    (j : p ∈ v.ready) (runs : Runs e m) where
  enqueue_ready-again :
      p ≢ m.current_active_process
      → Returns
          (λ _ m'. Holds e m' (enqueued p v) × Runs e m' × (m'.sched ≡ m.sched))
          (enqueue_ready e p m)
  enqueue_ready-again other =
      let miss : (p == m.current_active_process) ≡ false = ground arith in
      Relinks-then (rw miss at (enqueue_ready-refines e L o m v i p (inl j))) λ _ n w q. (
        q.0,
        λ nc.
            IsLoose-outside e m (relink m n w) (p ∷ e.ready_queue ∷ v.ready)
              m.current_active_process (runs nc) q.1
              (ground
                (arith, miss, detached-outside m m.current_active_process i.ready (runs nc).2))
              refl,
        refl,
      )

-- The lists, and the process that V wakes: NULL where nobody waited.
abbrev pub released : (s : Addr) → Lists → List Addr → Lists
released s a [] = a
released s a (p ∷ ps) = wake p s a

abbrev pub woken : List Addr → Addr
woken [] = null
woken (p ∷ ps) = p

module _ (e : Env) (L : Laws e) (o : Layout e) (s : Addr) (ns : s ≢ null) (m : Mem) (a : Lists)
    (i : Models e m a) (runs : Runs e m) where
  sem_v-Models :
      (ps : List Addr)
      → a.waiting s ≡ ps
      → Returns
          (λ q m'.
            (q ≡ woken ps)
            × Models e m' (released s a ps)
            × Runs e m'
            × (m'.p_saved_device_status ≡ m.p_saved_device_status)
            × (m'.current_active_process ≡ m.current_active_process))
          (sem_v e s m)
  unfolding sem_v decrement_soft_block_count
  sem_v-Models [] eq =
      let es : (s == null) ≡ false = ground arith in
      simp (head_blocked-nobody e L o m (view a i.semds) i.holds s ns eq, es)
        (returns (refl, record { semds = i.semds; holds = i.holds }, runs, refl, refl))
  sem_v-Models (p ∷ ps) eq =
      let v = view a i.semds in
      let ep : (p == null) ≡ false = ground (arith, first-ne-null e L o m v i.holds s p ps eq) in
      simp (head_blocked-first e L o m v i.holds s p ps eq, ep)
        (wake-Returns e L o m a i s p ps eq runs _ λ m' w. returns (
          refl,
          record { semds = w.0.semds; holds = w.0.holds },
          w.1,
          w.2.4,
          ap (λ z. z.current_active_process) w.2.0,
        ))

-- The lists behind the interrupt of a device whose semaphore is `s`.
abbrev pub served : (s : Addr) → Lists → List Addr → Lists
served s a [] = a
served s a (p ∷ ps) = enqueue p (wake p s a)

-- The device that the bitmap of the line shows, and its semaphore.
abbrev pub interrupting : Env → ℕ → Mem → ℕ
interrupting e line m = device_loop e.n_dev_per_il (m.word (e.cdev_bitmap_addr line)) 0

abbrev pub device_sem : Env → ℕ → Mem → Addr
device_sem e line m = get_dev_sem e (e.ext_il_index line * e.dev_per_int + interrupting e line m)

-- The addresses that manageDevices reads and writes for the device of a line, and the arrays of the
-- processes that wait for it, are not NULL.
pub record IsConnected (e : Env) (line : ℕ) (m : Mem) : Type 0 where
  pub bitmap : e.cdev_bitmap_addr line ≢ null
  pub status : e.dev_reg_addr line (interrupting e line m) + e.dtp_status ≢ null
  pub command : e.dev_reg_addr line (interrupting e line m) + e.dtp_command ≢ null
  pub semaphore : device_sem e line m ≢ null
  pub array :
      (p : Addr)
      → m.p_sem_add p ≡ device_sem e line m
      → m.p_saved_device_status p + 4 * e.status ≢ null

module _ (e : Env) (L : Laws e) (o : Layout e) where
  complete_io-Models :
      (m : Mem) (a : Lists) (i : Models e m a) (p status : ℕ) (success : Bool)
      → Runs e m
      → p ∈ a.ready
      → p ≢ null
      → p ≢ m.current_active_process
      → m.p_saved_device_status p + 4 * e.status ≢ null
      → Returns
          (λ _ m'.
            Models e m' (enqueue p a)
            × Runs e m'
            × (m'.current_active_process ≡ m.current_active_process))
          (complete_io e status success p m)
  unfolding complete_io
  complete_io-Models m a i p status success runs j np other na =
      let ep : (p == null) ≡ false = ground arith in
      let ea : (m.p_saved_device_status p + 4 * e.status == null) ≡ false = ground arith in
      let t = told e p status success m in
      simp (ep, ea)
        (Returns-mono (enqueue_ready-again e L o t (view a i.semds) i.holds p j runs other)
          λ _ m' q.
            (record { semds = i.semds; holds = q.0 }, q.1, ap (λ z. z.current_active_process) q.2))

  completed-Models :
      (s : Addr) (m m' : Mem) (a : Lists) (ps : List Addr) (status : ℕ) (success : Bool)
      → (p : Addr) → p ≡ woken ps
      → Models e m' (released s a ps)
      → Runs e m'
      → ((p : Addr) (rest : List Addr)
          → ps ≡ p ∷ rest
          → (p ≢ null) × (p ≢ m'.current_active_process))
      → ((p : Addr) → p ∈ ps → m'.p_saved_device_status p + 4 * e.status ≢ null)
      → Returns
          (λ _ m''.
            Models e m'' (served s a ps)
            × Runs e m''
            × (m''.current_active_process ≡ m'.current_active_process))
          (complete_io e status success p m')
  unfolding complete_io
  completed-Models s m m' a [] status success p eq i runs ne array =
      simp eq (returns (i, runs, refl))
  completed-Models s m m' a (q ∷ ps) status success p eq i runs ne array =
      let j : q ∈ q ∷ ps = ground arith in
      simp eq (
        complete_io-Models m' (wake q s a) i q status success runs
          (ground (arith, has-append q (erase q a.ready) (q ∷ []))) (ne q ps refl).0
          (ne q ps refl).1 (array q j))

  module _ (line : ℕ) (m : Mem) (a : Lists) (i : Models e m a) (runs : Runs e m)
      (c : IsConnected e line m) where
    served-Models :
        (ps : List Addr)
        → a.waiting (device_sem e line m) ≡ ps
        → Returns
            (λ _ m'.
              Models e m' (served (device_sem e line m) a ps)
              × Runs e m'
              × (m'.current_active_process ≡ m.current_active_process))
            (manage_devices e line m)
    unfolding manage_devices get_interrupting_device
    served-Models ps eq =
        let base = e.dev_reg_addr line (interrupting e line m) in
        let m1 = set_word (base + e.dtp_command) e.ack m in
        let s = device_sem e line m in
        let eb : (e.cdev_bitmap_addr line == null) ≡ false = ground (arith, c.bitmap) in
        let es : (base + e.dtp_status == null) ≡ false = ground (arith, c.status) in
        let ec : (base + e.dtp_command == null) ≡ false = ground (arith, c.command) in
        let status = m.word (base + e.dtp_status) in
        simp (eb, es, ec)
          (Returns-bind
            (sem_v-Models e L o s c.semaphore m1 a (record { semds = i.semds; holds = i.holds })
              runs ps eq)
            λ p m2 w.
              Returns-mono
                (completed-Models s m1 m2 a ps status (status == e.ready) p w.0 w.1 w.2
                  (λ q rest eq'. (
                    first-ne-null e L o m (view a i.semds) i.holds s q rest (eq ∙ eq'),
                    λ same.
                        first-ne-current e L o m (view a i.semds) i.holds s q rest (eq ∙ eq') runs
                          (same ∙ w.4),
                  ))
                  (λ q j.
                    rw w.3
                      (c.array q (waiting-blocked e L o m (view a i.semds) i.holds s q (rw eq j)))))
                λ x m3 z. (z.0, z.1, z.2 ∙ w.4))

    -- In a kernel in order, where the addresses of the device and the arrays of those that wait for
    -- it are not NULL, the interrupt of a device returns: where a process waits for it, the first
    -- one is last on the ready queue and waits no more; the process that runs, if one does, still
    -- runs.
    pub manage_devices-Models :
        Returns
          (λ _ m'.
            Models e m' (served (device_sem e line m) a (a.waiting (device_sem e line m)))
            × Runs e m'
            × (m'.current_active_process ≡ m.current_active_process))
          (manage_devices e line m)
    manage_devices-Models = served-Models (a.waiting (device_sem e line m)) refl
