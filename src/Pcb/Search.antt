-- ===== src/Pcb/Search.antt =====
-- searchPcbByPid of phase1/pcb.c on a well-formed list.
use pand_os.Prelude.{
  ℕ, zero, suc, ◌<◌, ◌≡◌, ◌≢◌, refl, false, ◌⊎◌, inl, inr, List, [], ◌∷◌, arith, ap, sym, subst,
  ◌∙◌, ◌==◌, if◌then◌else◌, length, ◌∈◌, Bool-cases,
}
use pand_os.Mem.{Addr, null, Mem, ok}
use pand_os.Links.Rings.{Ring, Trail, Ring-Trail}
use pand_os.Pcb.{search_loop, search_pcb_by_pid, list_steps}

-- The first process of the list that has the identifier, or NULL.
abbrev pub first_with : (pid : ℕ) → (Addr → ℕ) → List Addr → Addr
first_with pid pids [] = null
first_with pid pids (p ∷ ps) = if pids p == pid then p else first_with pid pids ps

search_loop-first_with :
    (k pid head tmp : ℕ) (ps : List Addr) (m : Mem)
    → Trail m.next tmp ps head
    → length ps < k
    → search_loop k pid head tmp m ≡ ok (first_with pid m.p_pid ps) m
unfolding search_loop
search_loop-first_with zero pid head tmp ps m t fuel = absurd (omega arith)
search_loop-first_with (suc k) pid head tmp [] m t fuel = ground arith
search_loop-first_with (suc k) pid head tmp (p ∷ ps) m t fuel =
    rw (t.0, t.1, t.2)
      (elim (Bool-cases (m.p_pid p == pid)) [
        | inl hit ↦ simp hit
        | inr miss ↦
            simp (miss, t.2) (search_loop-first_with k pid head (m.next p) ps m t.3 (omega arith))
      ])

-- On a list of at most 20 processes, searchPcbByPid ends within its bound and answers the first one
-- with the identifier, or NULL.
pub search_pcb_by_pid-first_with :
    (pid head : ℕ) (ps : List Addr) (m : Mem)
    → Ring m.next m.prev head ps
    → length ps < list_steps
    → search_pcb_by_pid pid head m ≡ ok (first_with pid m.p_pid ps) m
unfolding search_pcb_by_pid
search_pcb_by_pid-first_with pid head ps m r few =
    let eh : (head == null) ≡ false = ground (arith, r.mapped) in
    let found = search_loop-first_with list_steps pid head (m.next head) ps m (Ring-Trail r) few in
    simp (eh, found)

-- What it answers: a process of the list with the identifier; else no process has it.
pub first_with-cases :
    (pid : ℕ) (pids : Addr → ℕ) (ps : List Addr)
    → ((pids (first_with pid pids ps) ≡ pid) × (first_with pid pids ps ∈ ps))
      ⊎ ((first_with pid pids ps ≡ null) × ((p : Addr) → p ∈ ps → pids p ≢ pid))
first_with-cases pid pids [] = inr (refl, λ p i. absurd (ground (arith, i)))
first_with-cases pid pids (p ∷ ps) = elim (Bool-cases (pids p == pid)) [
  | inl hit ↦
      let eq : first_with pid pids (p ∷ ps) ≡ p = simp hit in
      inl (rw eq (ground arith), rw eq (ground arith))
  | inr miss ↦
      let eq : first_with pid pids (p ∷ ps) ≡ first_with pid pids ps = simp miss in
      elim (first_with-cases pid pids ps) [
        | inl (same, i) ↦
            inl (ap pids eq ∙ same, subst (λ x. x ∈ p ∷ ps) (sym eq) (ground (arith, i)))
        | inr (none, others) ↦ inr (
          eq ∙ none,
          λ q i. elim (Bool-cases (q == p)) [
            | inl here ↦ ground arith
            | inr ne ↦ others q (ground arith)
          ],
        )
      ]
]
