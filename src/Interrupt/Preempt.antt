-- ===== src/Interrupt/Preempt.antt =====
-- The interrupt of the processor's local timer.
use pand_os.Prelude.{
  ◌/◌, ◌^◌, ◌<◌, ◌≡◌, ◌≢◌, ap, ◌∙◌, subst, true, false, inr, List, [], ◌∷◌, ◌++◌, arith, ◌==◌, ◌∉◌,
  length, length-append, upd, bit_and,
}
use pand_os.Mem.{Addr, null, Mem, set_objects, set_cpu, relink, load_state}
use pand_os.Fields.{p_s}
use pand_os.Outcome.{Exits, Exits-bind, Exits-mono, Relinks-exit}
use pand_os.Links.Rings.{Ring, erase-not_mem}
use pand_os.Env.{Env, Laws}
use pand_os.Pcb.Unlink.{IsDetached}
use pand_os.Scheduler.Ready.{running, enqueue_ready-append, schedule-ready}
use pand_os.Interrupt.{never, pending, local_timer_interrupt, interrupt_handler}

-- Of the interrupt lines only the local timer's is pending, and the timer is on.
pub record IsTick (e : Env) (m : Mem) : Type 0 where
  pub plt : pending m.cause_reg (e.cause_ip 1) ≡ true
  pub clock : pending m.cause_reg (e.cause_ip 2) ≡ false
  pub disk : pending m.cause_reg (e.cause_ip e.disk_int) ≡ false
  pub flash : pending m.cause_reg (e.cause_ip e.flash_int) ≡ false
  pub net : pending m.cause_reg (e.cause_ip e.netw_int) ≡ false
  pub print : pending m.cause_reg (e.cause_ip e.prnt_int) ≡ false
  pub term : pending m.cause_reg (e.cause_ip e.term_int) ≡ false
  pub enabled : (bit_and m.status_reg e.status_te / 2 ^ e.status_te_bit == 0) ≡ false

module _ (e : Env) (L : Laws e) (m : Mem) (exc c p : Addr) (ps : List Addr) where
  -- Where only the local timer's interrupt is pending and the timer is on, process c runs and is in
  -- no list, and the ready queue holds p and then ps (fewer than 19), interruptHandler ends by
  -- loading the state of p, which is current: c keeps the state that the exception saved, and
  -- stands last in the ready queue.
  pub interrupt_handler-preempts :
      IsTick e m
      → Ring m.next m.prev e.ready_queue (p ∷ ps)
      → m.current_active_process ≡ c
      → exc ≢ null
      → c ≢ null
      → c ≢ e.ready_queue
      → c ∉ p ∷ ps
      → IsDetached m c
      → length ps < 19
      → Exits
          (λ x m'.
            (x ≡ load_state (m.state (p_s p)))
            × (m'.current_active_process ≡ p)
            × (m'.state (p_s c) ≡ m.state exc)
            × Ring m'.next m'.prev e.ready_queue (ps ++ c ∷ []))
          (interrupt_handler e exc m)
  unfolding interrupt_handler local_timer_interrupt
  interrupt_handler-preempts t r cur ne nc nq out d few =
      let ec : (c == null) ≡ false = ground arith in
      let ex : (exc == null) ≡ false = ground arith in
      let m1 =
        set_objects (λ b. record b { state = upd b.state (p_s c) (m.state exc) })
          (set_cpu (λ k. record k { local_timer = never }) m) in
      simp (t.plt, t.enabled, cur, ec, ex)
        (Relinks-exit _ (enqueue_ready-append e L m1 c (p ∷ ps) r nc nq (inr (out, d))) λ _ n v q.
          let hit : (c == m.current_active_process) ≡ true = ground arith in
          let r' : Ring n v e.ready_queue (p ∷ ps ++ c ∷ []) =
            subst (λ zs. Ring n v e.ready_queue (zs ++ c ∷ [])) (erase-not_mem c (p ∷ ps) out)
              q.0 in
          simp (hit, t.clock, t.disk, t.flash, t.net, t.print, t.term)
            (Exits-bind _ (
              Exits-mono
                (schedule-ready e L (relink (running null m1) n v) p (ps ++ c ∷ []) r'
                  (omega (arith, length-append ps (c ∷ []))))
                λ x m' w.
                  (w.0 ∙ ground arith, w.1, ap (λ o. o.state (p_s c)) w.7 ∙ ground arith, w.2))))
