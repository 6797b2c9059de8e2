-- ===== src/Interrupt/Completion.antt =====
-- The interrupt of a device for which a process waits.
use pand_os.Prelude.{
  ℕ, ◌+◌, ◌*◌, ◌≡◌, ◌≢◌, subst, Bool, false, inl, List, [], ◌∷◌, ◌++◌, arith, ◌==◌, if◌then◌else◌,
  ◌∉◌, has-append, upd,
}
use pand_os.Mem.{Addr, null, Mem, relink, set_objects}
use pand_os.Fields.{p_s, s_procq}
use pand_os.Outcome.{Relinks, Relinks-bind, Relinks-mono, Relinks-rebase}
use pand_os.Links.Rings.{Ring, Ring-frame, SameOutside, erase}
use pand_os.Env.{Env, Laws, set_table}
use pand_os.Devices.{get_dev_sem}
use pand_os.Ash.Block.{waits}
use pand_os.Ash.Wake.{IsWaiting, table_after}
use pand_os.Scheduler.Ready.{enqueue_ready-append}
use pand_os.Scheduler.Wake.{IsSeparate, Woken}
use pand_os.Interrupt.{
  io_op_success, io_op_failed, complete_io, device_loop, get_interrupting_device, manage_devices,
}
use pand_os.Interrupt.Semaphores.{set_word, fewer_soft_blocked, sem_v-wakes}

erase-last : (p : Addr) (rs : List Addr) → p ∉ rs → erase p (rs ++ p ∷ []) ≡ rs
erase-last p [] out = ground arith
erase-last p (r ∷ rs) out = ground (arith, erase-last p rs)

-- The result in the saved reg_v0, and the status in the array that the process gave.
abbrev pub told : (e : Env) (p status : ℕ) → Bool → Mem → Mem
told e p status success m = set_word (m.p_saved_device_status p + 4 * e.status) status (
    set_objects
      (λ b. record b {
        state = upd b.state (p_s p) (record (b.state (p_s p)) {
          gpr =
              upd (b.state (p_s p)).gpr e.reg_v0 (if success then io_op_success else io_op_failed);
        });
      })
      m)

module _ (e : Env) (L : Laws e) where
  -- The value of a word does not matter to who waits.
  IsWaiting-set_word :
      (m : Mem) (s sem a v : Addr) (xs fs : List Addr)
      → IsWaiting e m s sem xs fs
      → IsWaiting e (set_word a v m) s sem xs fs
  IsWaiting-set_word m s sem a v xs fs w = record {
    keyed = w.keyed;
    key_mapped = w.key_mapped;
    sem_mapped = w.sem_mapped;
    found = w.found;
    queue = w.queue;
    free = w.free;
    apart = w.apart;
    in_use = w.in_use;
    waiting = w.waiting;
  }

  complete_io-told :
      (m : Mem) (p status : ℕ) (success : Bool) (rs : List Addr)
      → Ring m.next m.prev e.ready_queue (rs ++ p ∷ [])
      → p ∉ rs
      → p ≢ null
      → p ≢ e.ready_queue
      → p ≢ m.current_active_process
      → m.p_saved_device_status p + 4 * e.status ≢ null
      → Relinks
          (told e p status success m)
          (λ _ n v.
            Ring n v e.ready_queue (rs ++ p ∷ [])
            × SameOutside (p ∷ e.ready_queue ∷ rs ++ p ∷ []) m n v)
          (complete_io e status success p m)
  unfolding complete_io
  complete_io-told m p status success rs r out np nq nc ns =
      let ep : (p == null) ≡ false = ground arith in
      let es : (m.p_saved_device_status p + 4 * e.status == null) ≡ false = ground arith in
      let miss : (p == m.current_active_process) ≡ false = ground arith in
      let t = told e p status success m in
      simp (ep, es)
        (Relinks-mono
          (rw miss at (
            enqueue_ready-append e L t p (rs ++ p ∷ []) r np nq
              (inl (ground (arith, has-append p rs (p ∷ []))))))
          λ a n v q.
            (subst (λ zs. Ring n v e.ready_queue (zs ++ p ∷ [])) (erase-last p rs out) q.0, q.1))

  module _ (m : Mem) (line dev s : Addr) (base sem p : Addr) (ps fs rs : List Addr) where
    -- A device interrupts whose semaphore p waits for first.
    pub record IsAwaited : Type 0 where
      pub bitmap_mapped : e.cdev_bitmap_addr line ≢ null
      pub device : device_loop e.n_dev_per_il (m.word (e.cdev_bitmap_addr line)) 0 ≡ dev
      pub register : e.dev_reg_addr line dev ≡ base
      pub semaphore : get_dev_sem e (e.ext_il_index line * e.dev_per_int + dev) ≡ s
      pub status_mapped : base + e.dtp_status ≢ null
      pub command_mapped : base + e.dtp_command ≢ null
      pub array_mapped : m.p_saved_device_status p + 4 * e.status ≢ null
      pub waiting : IsWaiting e m s sem (p ∷ ps) fs
      pub ready : Ring m.next m.prev e.ready_queue rs
      pub unready : p ∉ e.ready_queue ∷ rs
      pub other : p ≢ m.current_active_process
      pub separate : IsSeparate e sem rs (p ∷ ps) fs

    -- Where the interrupting device of the line is the one whose semaphore p waits for first, p is
    -- neither ready nor current and the queues share no node, manageDevices acknowledges the
    -- interrupt and wakes p: p is last on the ready queue, finds 0 (device ready) or -1 in its
    -- saved reg_v0 and the status in its array, and one soft-blocked process less is counted; a
    -- descriptor without waiters is free again.
    pub manage_devices-completes :
        IsAwaited
        → Relinks
            (told e p (m.word (base + e.dtp_status)) (m.word (base + e.dtp_status) == e.ready) (
              fewer_soft_blocked (
                set_table
                  (table_after sem ps m.table)
                  (waits p null (set_word (base + e.dtp_command) e.ack m)))))
            (λ _ n v. Woken e sem p ps fs rs n v)
            (manage_devices e line m)
    unfolding manage_devices get_interrupting_device complete_io
    manage_devices-completes w =
        let eb : (e.cdev_bitmap_addr line == null) ≡ false = ground (arith, w.bitmap_mapped) in
        let es : (base + e.dtp_status == null) ≡ false = ground (arith, w.status_mapped) in
        let ec : (base + e.dtp_command == null) ≡ false = ground (arith, w.command_mapped) in
        let m1 = set_word (base + e.dtp_command) e.ack m in
        simp (eb, w.device, w.register, es, ec, w.semaphore)
          (Relinks-bind _
            (sem_v-wakes e L m1 s sem p ps fs rs
              (IsWaiting-set_word m s sem _ _ (p ∷ ps) fs w.waiting) w.ready w.unready w.other
              w.separate)
            λ a n v q.
              let m2 =
                relink
                  (fewer_soft_blocked (set_table (table_after sem ps m.table) (waits p null m1))) n
                  v in
              simp q.0 (
                Relinks-rebase n v
                  (complete_io-told m2 p (m.word (base + e.dtp_status))
                    (m.word (base + e.dtp_status) == e.ready) rs q.1.0 (ground (arith, w.unready))
                    (ground (arith, w.waiting.queue.mapped)) (ground (arith, w.unready)) w.other
                    w.array_mapped)
                  λ b n2 v2 q2. (
                    q2.0,
                    Ring-frame n2 v2 q.1.1 (λ x i. ground (
                      arith,
                      q2.1 x,
                      w.separate x,
                      w.waiting.queue.apart,
                      has-append x rs (p ∷ []),
                      has-append x fs (s_procq sem ∷ p ∷ ps),
                    )),
                    Ring-frame n2 v2 q.1.2 (λ x i. ground (
                      arith,
                      q2.1 x,
                      w.separate x,
                      w.separate p,
                      w.waiting.apart x,
                      has-append x rs (p ∷ []),
                      has-append x fs (s_procq sem ∷ p ∷ ps),
                    )),
                  )))
