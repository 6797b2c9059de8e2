-- ===== src/Pcb/Reset.antt =====
-- What resetPcb of pandos/phase1/pcb.c clears in a process control block, and what it leaves.
use pand_os.Prelude.{
  ℕ, zero, suc, ◌+◌, ◌<◌, ◌≡◌, ◌≢◌, refl, ◌∙◌, false, List, [], ◌∷◌, arith, ◌==◌, upd, ltb, leb,
  ◌&&◌, if◌then◌else◌,
}
use pand_os.Mem.{Addr, null, State, Mem, set_objects, ok}
use pand_os.Fields.{p_list, p_child, p_sib, p_s}
use pand_os.Outcome.{Returns, returns}
use pand_os.Links.Rings.{Ring, SameOutside}
use pand_os.Env.{Env, Laws}
use pand_os.Pcb.{clear_gpr, reset_pcb}
use pand_os.Pcb.Unlink.{IsDetached}

abbrev pub set_state : (Addr → State) → Mem → Mem
set_state st = set_objects (λ b. record b { state = st })

-- `g` is `f` with the registers from `i` to `i + k - 1` cleared.
abbrev Cleared : ℕ → ℕ → (ℕ → ℕ) → (ℕ → ℕ) → Type 0
Cleared k i f g = (j : ℕ) → g j ≡ (if leb i j && ltb j (i + k) then 0 else f j)

clear_gpr-Cleared :
    (k i : ℕ) (s : Addr) (m : Mem)
    → s ≢ null
    → (st : Addr → State) × (clear_gpr k i s m ≡ ok tt (set_state st m))
      × ((a : Addr) → a ≢ s → st a ≡ m.state a)
      × (st s ≡ record (m.state s) { gpr = (st s).gpr })
      × Cleared k i (m.state s).gpr (st s).gpr
unfolding clear_gpr
clear_gpr-Cleared zero i s m ne = (m.state, refl, λ a d. refl, refl, λ j. ground arith)
clear_gpr-Cleared (suc k) i s m ne =
    let es : (s == null) ≡ false = ground arith in
    let one : Addr → State = upd m.state s (record (m.state s) { gpr = upd (m.state s).gpr i 0 }) in
    let rest = clear_gpr-Cleared k (i + 1) s (set_state one m) ne in
    (
      rest.0,
      simp es rest.1,
      λ a d. ground (arith, rest.2 a d),
      rest.3 ∙ ground arith,
      λ j. ground (arith, rest.4 j),
    )

-- A block as allocPcb hands it out.
pub record IsFresh (len : ℕ) (m : Mem) (p : Addr) : Type 0 where
  pub detached : IsDetached m (p_list p)
  pub childless : Ring m.next m.prev (p_child p) []
  pub no_sibling : IsDetached m (p_sib p)
  pub no_parent : m.p_parent p ≡ null
  pub no_support : m.p_support_struct p ≡ null
  pub no_saved : m.p_saved_device_status p ≡ null
  pub not_blocked : m.p_sem_add p ≡ null
  pub time : m.p_time p ≡ 0
  pub state : m.state (p_s p) ≡ record {
    entry_hi = 0;
    cause = 0;
    status = 0;
    pc_epc = 0;
    gpr = (m.state (p_s p)).gpr;
    hi = 0;
    lo = 0;
  }
  pub registers : (j : ℕ) → j < len → (m.state (p_s p)).gpr j ≡ 0

-- What a reset leaves as it was: every other process and object, and the namespaces and the number
-- of the process itself. Links change only at the addresses of `fp`.
pub record OnlyReset (fp : List Addr) (p : Addr) (m m' : Mem) : Type 0 where
  pub links : SameOutside fp m m'.next m'.prev
  pub table : m'.table ≡ m.table
  pub sched : m'.sched ≡ m.sched
  pub cpu : m'.cpu ≡ m.cpu
  pub word : m'.word ≡ m.word
  pub s_key : m'.s_key ≡ m.s_key
  pub n_type : m'.n_type ≡ m.n_type
  pub namespaces : m'.namespaces ≡ m.namespaces
  pub p_pid : m'.p_pid ≡ m.p_pid
  pub p_sem_add : (q : Addr) → q ≢ p → m'.p_sem_add q ≡ m.p_sem_add q
  pub p_parent : (q : Addr) → q ≢ p → m'.p_parent q ≡ m.p_parent q
  pub p_time : (q : Addr) → q ≢ p → m'.p_time q ≡ m.p_time q
  pub p_support_struct : (q : Addr) → q ≢ p → m'.p_support_struct q ≡ m.p_support_struct q
  pub p_saved_device_status :
      (q : Addr) → q ≢ p → m'.p_saved_device_status q ≡ m.p_saved_device_status q
  pub state : (a : Addr) → a ≢ p_s p → m'.state a ≡ m.state a

-- The memory before the registers are cleared.
abbrev reset_mid : Addr → Mem → Mem
reset_mid p m = record m {
  links = record {
    next = upd (upd (upd m.next (p_list p) null) (p_child p) (p_child p)) (p_sib p) null;
    prev = upd (upd (upd m.prev (p_list p) null) (p_child p) (p_child p)) (p_sib p) null;
  };
  pcbs = record m.pcbs {
    p_parent = upd m.p_parent p null;
    p_support_struct = upd m.p_support_struct p null;
    p_saved_device_status = upd m.p_saved_device_status p null;
  };
  objects = record m.objects {
    state = upd m.state (p_s p) (record (m.state (p_s p)) {
      entry_hi = 0;
      cause = 0;
      status = 0;
      pc_epc = 0;
      hi = 0;
      lo = 0;
    });
  };
}

module _ (e : Env) (L : Laws e) where
  open e use {state_gpr_len, pcb_free_h}

  pub reset_pcb-IsFresh :
      (p : Addr) (m : Mem)
      → p ≢ null
      → Returns
          (λ q m'.
            (q ≡ p)
            × IsFresh state_gpr_len m' p
            × OnlyReset (p_list p ∷ p_child p ∷ p_sib p ∷ []) p m m')
          (reset_pcb e p m)
  unfolding reset_pcb
  reset_pcb-IsFresh p m ne =
      let ep : (p == null) ≡ false = ground arith in
      let ec : (p_child p == null) ≡ false = ground arith in
      let es : (p_sib p == null) ≡ false = ground arith in
      let et : (p_s p == null) ≡ false = ground arith in
      let mid = reset_mid p m in
      let c = clear_gpr-Cleared state_gpr_len 0 (p_s p) mid (ground arith) in
      simp (ep, es, et, λ (m' : Mem). L.init_lem (p_child p) m' (ground arith))
        (simp (c.1, ep)
          (returns (
            refl,
            record {
              detached = ground arith;
              childless = record {
                links = ground arith;
                apart = (refl, tt);
                mapped = ground arith;
              };
              no_sibling = ground arith;
              no_parent = ground arith;
              no_support = ground arith;
              no_saved = ground arith;
              not_blocked = ground arith;
              time = ground arith;
              state = c.3 ∙ ground arith;
              registers = λ j lt. ground (arith, c.4 j);
            },
            record {
              links = λ a o. ground arith;
              table = refl;
              sched = refl;
              cpu = refl;
              word = refl;
              s_key = refl;
              n_type = refl;
              namespaces = refl;
              p_pid = refl;
              p_sem_add = λ q d. ground arith;
              p_parent = λ q d. ground arith;
              p_time = λ q d. ground arith;
              p_support_struct = λ q d. ground arith;
              p_saved_device_status = λ q d. ground arith;
              state = λ a d. ground (arith, c.2 a d);
            },
          )))
