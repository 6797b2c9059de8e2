-- ===== src/Syscall/DoIo.antt =====
-- SYS5 on a device that is not there.
use pand_os.Prelude.{
  ◌+◌, ◌*◌, ◌<◌, ◌≡◌, ◌≢◌, ap, ◌∙◌, false, List, ◌∷◌, arith, ◌==◌, ◌∉◌, upd, length,
}
use pand_os.Mem.{Addr, null, State, Mem, set_objects, ok}
use pand_os.Fields.{p_s}
use pand_os.Words.{minus_one}
use pand_os.Outcome.{Exits, Exits-mono}
use pand_os.Links.Rings.{Ring}
use pand_os.Env.{Env, Laws}
use pand_os.Pcb.Unlink.{IsDetached}
use pand_os.Scheduler.Ready.{schedule-ready}
use pand_os.DeviceIo.{do_io, io_line, io_installed}
use pand_os.Syscall.{dispatch}

-- The memory after the refusal: a cleared status in the caller's array, -1 in its saved reg_v0.
abbrev pub refused : (e : Env) (c cmd_values : Addr) → Mem → Mem
refused e c cmd_values m = record m {
  pcbs = record m.pcbs { p_saved_device_status = upd m.p_saved_device_status c cmd_values };
  objects = record m.objects {
    word = upd m.word (cmd_values + 4 * e.status) 0;
    state =
        upd m.state (p_s c)
          (record (m.state (p_s c)) { gpr = upd (m.state (p_s c)).gpr e.reg_v0 minus_one });
  };
}

module _ (e : Env) (L : Laws e) (m : Mem) (a v : Addr) where
  -- The bit of the device in the bitmap of its line is clear.
  abbrev pub IsMissing : Type 0
  IsMissing = io_installed e (m.word (e.idev_bitmap_addr (io_line e a))) (io_line e a) a ≡ false

  module _ (nc : m.current_active_process ≢ null) (nb : e.idev_bitmap_addr (io_line e a) ≢ null)
      (nv : v + 4 * e.status ≢ null) (missing : IsMissing) where
    pub do_io-missing : do_io e a v m ≡ ok tt (refused e m.current_active_process v m)
    unfolding do_io
    do_io-missing =
        let ec : (m.current_active_process == null) ≡ false = ground arith in
        let eb : (e.idev_bitmap_addr (io_line e a) == null) ≡ false = ground arith in
        let ev : (v + 4 * e.status == null) ≡ false = ground arith in simp (ec, eb, missing, ev)

    -- Where a process asks by SYS5 for a device that is not installed, with a process p ready and
    -- the caller in no list and not blocked, the call goes on with p: the caller is in no list and
    -- not blocked, its saved state is the one it called with, and the process count still counts
    -- it.
    pub dispatch-missing :
        (exc : Addr) (s : State) (p : Addr) (ps : List Addr)
        → Ring m.next m.prev e.ready_queue (p ∷ ps)
        → length ps < 20
        → s.gpr e.reg_a1 ≡ a
        → s.gpr e.reg_a2 ≡ v
        → exc ≢ null
        → exc ≢ p_s m.current_active_process
        → m.current_active_process ∉ e.ready_queue ∷ p ∷ ps
        → IsDetached m m.current_active_process
        → m.p_sem_add m.current_active_process ≡ null
        → Exits
            (λ x m'.
              (m'.current_active_process ≡ p)
              × Ring m'.next m'.prev e.ready_queue ps
              × IsDetached m' m.current_active_process
              × (m'.p_sem_add m.current_active_process ≡ null)
              × (m'.state (p_s m.current_active_process) ≡ m.state exc)
              × (m'.process_count ≡ m.process_count))
            (dispatch e exc s 5 m)
    unfolding dispatch
    dispatch-missing exc s p ps r few a1 a2 ne apart out d idle =
        let c = m.current_active_process in
        let ec : (c == null) ≡ false = ground arith in
        let ex : (exc == null) ≡ false = ground arith in
        let far : (exc == p_s c) ≡ false = ground arith in
        let m2 = refused e c v m in
        let m3 = set_objects (λ b. record b { state = upd b.state (p_s c) (m2.state exc) }) m2 in
        simp (a1, a2, do_io-missing, ec, ex)
          (Exits-mono (schedule-ready e L m3 p ps r few) λ x m' w. (
            w.1,
            w.2,
            ground (arith, w.9 c, out, d),
            ap (λ o. o.p_sem_add c) w.6 ∙ idle,
            ap (λ o. o.state (p_s c)) w.7 ∙ ground arith,
            w.8,
          ))
