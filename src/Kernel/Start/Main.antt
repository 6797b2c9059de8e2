-- ===== src/Kernel/Start/Main.antt =====
-- main of phase2/main.c: from a memory of zeroes to the first process.
use pand_os.Prelude.{
  ℕ, ◌+◌, ◌*◌, ◌≡◌, ◌≢◌, ◌⊎◌, inl, inr, refl, false, Bool-cases, List, [], ◌∷◌, arith, ◌==◌, ◌∈◌,
  upd,
}
use pand_os.Mem.{Addr, null, Mem, relink}
use pand_os.Outcome.{Returns, Exits, Exits-mono, Returns-exit, Relinks-return}
use pand_os.Links.Rings.{Ring, Ring-frame}
use pand_os.Env.{Env, Laws, set_table}
use pand_os.Pcb.Start.{blocks, init_pcbs-Ring}
use pand_os.Devices.{get_pseudo_clock_sem}
use pand_os.Scheduler.{reset_interval_timer}
use pand_os.Invariant.Known.{tail}
use pand_os.Kernel.Steps.{InOrder, Reach, Reach-InOrder}
use pand_os.Boot.{init_kernel, main}
use pand_os.Invariant.{place, View}
use pand_os.Invariant.Places.{semds-place, pool-place, ready-place}
use pand_os.Kernel.{view}
use pand_os.Kernel.Start.{IsSpread, block-IsPcb}
use pand_os.Kernel.Start.Arrays.{init_ash-Ring, NamespacesApart, init_namespaces-spares}
use pand_os.Kernel.Start.Memory.{
  set_words, init_dev_sems-words, init_pass_up_vector-words, IsBlank, start_lists, start_semds,
  init_scheduler-ready, block-mem, descriptor-mem, start-Holds,
}
use pand_os.Kernel.Start.First.{Ready, Launched, create_first-Ready, schedule-Launched}

-- What the linker guarantees of the variables that main uses by address.
pub record IsLinked (e : Env) (L : Laws e) (s : IsSpread e) : Type 0 where
  pub namespaces : NamespacesApart e L s
  pub ready_mapped : e.ready_queue ≢ null
  pub pool_mapped : e.pcb_free_h ≢ null
  pub semds_mapped : e.semd_free_h ≢ null
  pub sems_mapped : e.dev_sems ≢ null
  pub clock_mapped : get_pseudo_clock_sem e ≢ null

module _ (e : Env) (L : Laws e) (s : IsSpread e) (k : IsLinked e L s) (m : Mem)
    (b : IsBlank e m) where
  open e use {ready_queue, pcb_free_h, semd_free_h, pcb_free_table, semd_free_table}

  pool-place_cases :
      (a : Addr)
      → a ∈ pcb_free_h ∷ blocks pcb_free_table 0 20 []
      → (place e a ≡ 2) ⊎ (place e a ≡ 4)
  pool-place_cases a j = elim (Bool-cases (a == pcb_free_h)) [
    | inl hit ↦ let same : a ≡ pcb_free_h = ground arith in inl (rw same (pool-place e s.heads))
    | inr miss ↦ inr (block-mem e L s a (ground arith)).0
  ]

  semds-place_cases :
      (a : Addr) → a ∈ semd_free_h ∷ start_semds e → (place e a ≡ 3) ⊎ (place e a ≡ 220)
  semds-place_cases a j = elim (Bool-cases (a == semd_free_h)) [
    | inl hit ↦ let same : a ≡ semd_free_h = ground arith in inl (rw same (semds-place e s.heads))
    | inr miss ↦ let d = descriptor-mem e L s a (ground arith) in inr (rw d.1 at d.0.3)
  ]

  -- What initNamespaces and the ready queue leave of a list.
  kept :
      {n v : Addr → Addr} (n3 v3 : Addr → Addr) {h : Addr} {xs : List Addr}
      → Ring n v h xs
      → ((a : Addr) → (place e a == 0) ≡ false → (n3 a ≡ n a) × (v3 a ≡ v a))
      → ((a : Addr) → a ∈ h ∷ xs → ((place e a == 0) ≡ false) × ((a == ready_queue) ≡ false))
      → Ring (upd n3 ready_queue ready_queue) (upd v3 ready_queue ready_queue) h xs
  kept n3 v3 r same away = Ring-frame _ _ r λ x j. let w = away x j in ground (arith, same x w.0)

  pool-away :
      (a : Addr)
      → a ∈ pcb_free_h ∷ blocks pcb_free_table 0 20 []
      → ((place e a == 0) ≡ false)
        × ((a == ready_queue) ≡ false)
        × (a ≢ semd_free_h)
        × ((place e a == 220) ≡ false)
  pool-away a j = elim (pool-place_cases a j) [
    | inl p ↦ place-away a 2 p refl refl refl refl
    | inr p ↦ place-away a 4 p refl refl refl refl
  ]
    where
      place-away :
          (a k : ℕ)
          → place e a ≡ k
          → (k == 0) ≡ false
          → (k == 1) ≡ false
          → (k == 3) ≡ false
          → (k == 220) ≡ false
          → ((place e a == 0) ≡ false)
            × ((a == ready_queue) ≡ false)
            × (a ≢ semd_free_h)
            × ((place e a == 220) ≡ false)
      place-away a k p z r h d = (
        ground arith,
        ground (arith, ready-place e),
        ground (arith, semds-place e s.heads),
        ground arith,
      )

  semds-away :
      (a : Addr)
      → a ∈ semd_free_h ∷ start_semds e
      → ((place e a == 0) ≡ false) × ((a == ready_queue) ≡ false)
  semds-away a j = elim (semds-place_cases a j) [
    | inl p ↦ (ground arith, ground (arith, ready-place e))
    | inr p ↦ (ground arith, ground (arith, ready-place e))
  ]

  -- The lists without the first process, which is the last block of the array.
  abbrev rest_view : View
  rest_view =
      view (record (start_lists e) { pool = tail (blocks pcb_free_table 0 20 []) }) (start_semds e)

  abbrev first_block : Addr
  first_block = pcb_free_table + 192 * 19

  init_kernel-Ready :
      (pc : Addr) → Returns (λ _. Ready e rest_view first_block pc) (init_kernel e pc m)
  unfolding init_kernel reset_interval_timer
  init_kernel-Ready pc =
      Relinks-return _
        (init_pcbs-Ring e L m k.pool_mapped s.pcbs_mapped
          λ j lt same. ground (arith, block-IsPcb e s j lt, pool-place e s.heads))
        λ _ n v r.
          Relinks-return _ (init_ash-Ring e L s (relink m n v) k.semds_mapped) λ _ n2 v2 r2.
            Relinks-return _
              (init_namespaces-spares e L s (relink (set_table [] (relink m n v)) n2 v2)
                k.namespaces)
              λ _ n3 v3 r3.
                let m3 = relink (set_table [] (relink m n v)) n3 v3 in
                let ds = init_dev_sems-words e m3 k.sems_mapped k.clock_mapped in
                let pv = init_pass_up_vector-words e (set_words ds.0 m3) in
                let m4 = set_words pv.0 m3 in
                let fresh : n3 ready_queue ≡ null = ground (
                  arith,
                  r3 ready_queue,
                  r2.1 ready_queue,
                  r.1 ready_queue,
                  pool-place_cases ready_queue,
                  ready-place e,
                  s.heads.semds-ready,
                  b.no_queue,
                ) in
                let n4 = upd n3 ready_queue ready_queue in
                let v4 = upd v3 ready_queue ready_queue in
                let ready : Ring n4 v4 ready_queue [] = record {
                  links = ground arith;
                  apart = (refl, tt);
                  mapped = ground (arith, k.ready_mapped);
                } in
                let pool2 = Ring-frame n2 v2 r.0 λ x j. let w = pool-away x j in r2.1 x w.2 w.3 in
                let pool = kept n3 v3 pool2 r3 λ a j. ((pool-away a j).0, (pool-away a j).1) in
                let semds = kept n3 v3 r2.0 r3 semds-away in
                let holds = start-Holds e L s (relink m4 n4 v4) refl b.no_waits ready pool semds in
                simp (ds.1, pv.1, init_scheduler-ready e L s m4 k.ready_mapped fresh)
                  (create_first-Ready e L s.heads _ (view (start_lists e) (start_semds e))
                    first_block pc (tail (blocks pcb_free_table 0 20 [])) holds refl refl)

  -- Where the linker puts the kernel's variables apart, main on a memory of zeroes loads the saved
  -- state of the process that is current then, which starts at `test` with the interrupts on; the
  -- kernel is in order, and nothing faults or runs out of its bound on the way.
  pub main-Launched : Exits (Launched e e.test) (main e m)
  unfolding main
  main-Launched =
      Returns-exit (init_kernel-Ready e.test)
        λ x m' r. schedule-Launched e L s.heads m' rest_view first_block e.test refl r

  -- Where the linker puts the kernel's variables apart, once main has left the kernel on a memory
  -- of zeroes, every state that the steps of the processes, of SYS3, SYS4 and SYS7, of the two
  -- timers and of the devices (with addresses that are not NULL) lead to is in order: each list is
  -- a ring in memory, no process is on two lists, and the one that runs is on none.
  pub main-Reach :
      (exc_state : Addr)
      → exc_state ≢ null
      → Exits (λ _ m'. (m'' : Mem) → Reach e exc_state m' m'' → InOrder e m'') (main e m)
  main-Reach exc_state ne =
      Exits-mono main-Launched
        λ x m' w m'' r. Reach-InOrder e L s.heads exc_state ne k.clock_mapped m' m'' w.in_order r
