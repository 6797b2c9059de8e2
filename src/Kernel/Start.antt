-- ===== src/Kernel/Start.antt =====
-- The start of the kernel, phase2/main.c: where the linker puts its variables, and the places of the
-- blocks of the two arrays.
pub mod Arrays
pub mod Memory
pub mod First
pub mod Main
use pand_os.Prelude.{
  ℕ, zero, suc, ◌+◌, ◌-◌, ◌*◌, ◌%◌, ◌<◌, ◌≤◌, ◌≡◌, ◌≢◌, ◌⊎◌, inl, inr, refl, ap, ◌∙◌, false, true,
  Bool-cases, List, [], ◌∷◌, arith, ◌==◌, ◌∈◌, ◌∉◌, ltb, leb, ◌||◌, ◌&&◌, if◌then◌else◌,
}
use pand_os.Mem.{Addr, null}
use pand_os.Fields.{
  p_child, p_sib, s_procq, s_link, s_freelink, n_link, sizeof_pcb, sizeof_semd, sizeof_nsd,
}
use pand_os.Env.{Env}
use pand_os.Pcb.{max_proc}
use pand_os.Invariant.{place, Layout, IsPcb, IsSemd}

-- The address is outside of `size` bytes at `start`.
abbrev pub IsOutside : (a start size : ℕ) → Type 0
IsOutside a start size = (a < start) ⊎ (start + size ≤ a)

-- The arrays of processes and of descriptors share no byte with each other and with the three heads.
pub record IsSpread (e : Env) : Type 0 where
  pub heads : Layout e
  pub pcbs_mapped : e.pcb_free_table ≢ null
  pub semds_mapped : e.semd_free_table ≢ null
  pub arrays :
      (e.pcb_free_table + max_proc * sizeof_pcb ≤ e.semd_free_table)
      ⊎ (e.semd_free_table + max_proc * sizeof_semd ≤ e.pcb_free_table)
  pub ready_pcbs : IsOutside e.ready_queue e.pcb_free_table (max_proc * sizeof_pcb)
  pub pool_pcbs : IsOutside e.pcb_free_h e.pcb_free_table (max_proc * sizeof_pcb)
  pub semds_pcbs : IsOutside e.semd_free_h e.pcb_free_table (max_proc * sizeof_pcb)
  pub ready_semds : IsOutside e.ready_queue e.semd_free_table (max_proc * sizeof_semd)
  pub pool_semds : IsOutside e.pcb_free_h e.semd_free_table (max_proc * sizeof_semd)
  pub semds_semds : IsOutside e.semd_free_h e.semd_free_table (max_proc * sizeof_semd)

module _ (e : Env) (s : IsSpread e) where
  pcb-place :
      (i d : ℕ) → i < max_proc → d < sizeof_pcb → place e (e.pcb_free_table + 192 * i + d) ≡ 4 + d
  unfolding place
  pcb-place i d lt ld = ground (arith, s.ready_pcbs, s.pool_pcbs, s.semds_pcbs)

  semd-place :
      (i d : ℕ)
      → i < max_proc
      → d < sizeof_semd
      → place e (e.semd_free_table + 28 * i + d) ≡ 200 + d
  unfolding place
  semd-place i d lt ld = ground (arith, s.ready_semds, s.pool_semds, s.semds_semds, s.arrays)

  pub block-IsPcb : (i : ℕ) → i < max_proc → IsPcb e (e.pcb_free_table + 192 * i)
  block-IsPcb i lt =
      let base : e.pcb_free_table + 192 * i ≡ e.pcb_free_table + 192 * i + 0 = omega arith in
      (
        ap (place e) base ∙ pcb-place i 0 lt (omega arith),
        pcb-place i 12 lt (omega arith),
        pcb-place i 20 lt (omega arith),
      )

  pub block-IsSemd : (i : ℕ) → i < max_proc → IsSemd e (e.semd_free_table + 28 * i)
  block-IsSemd i lt = (
    ground (arith, s.semds_mapped),
    semd-place i 4 lt (omega arith),
    semd-place i 12 lt (omega arith),
    semd-place i 20 lt (omega arith),
  )
