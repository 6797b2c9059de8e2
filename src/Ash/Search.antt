-- ===== src/Ash/Search.antt =====
-- The loop of findPcb in phase1/ash.c over the queues of the table.
use pand_os.Prelude.{
  ℕ, ◌≡◌, ◌≢◌, refl, ◌⊎◌, inl, inr, List, [], ◌∷◌, arith, ◌==◌, if◌then◌else◌, ◌∈◌, Bool-cases, ap,
  sym, subst, ◌∙◌, ◌∉◌,
}
use pand_os.Mem.{Addr, null, Mem, ok, Run}
use pand_os.Fields.{s_procq, semd_of_link}
use pand_os.Env.{Env, Laws, VisitsAll, Yields, yields}
use pand_os.Pcb.{search_pcb_by_pid}
use pand_os.Pcb.Search.{first_with, first_with-cases}
use pand_os.Ash.{scan_queues, find_pcb}

-- The first process with the identifier in the queues of the nodes, in their order, or NULL.
abbrev pub first_in : (pid : ℕ) → (Addr → ℕ) → (queue : Addr → List Addr) → List Addr → Addr
first_in pid pids queue [] = null
first_in pid pids queue (n ∷ ns) =
    if first_with pid pids (queue n) == null
    then first_in pid pids queue ns
    else first_with pid pids (queue n)

-- Each node's queue is searched as a list.
abbrev pub Searches : (pid : ℕ) → Mem → (queue : Addr → List Addr) → Addr → Type 0
Searches pid m queue n =
    search_pcb_by_pid pid (s_procq (semd_of_link n)) m ≡ ok (first_with pid m.p_pid (queue n)) m

scan_queues-first_in :
    (pid : ℕ) (m : Mem) (queue : Addr → List Addr) (ns : List Addr)
    → ((n : Addr) → n ∈ ns → Searches pid m queue n)
    → scan_queues pid ns m ≡ ok (first_in pid m.p_pid queue ns) m
unfolding scan_queues
scan_queues-first_in pid m queue [] each = refl
scan_queues-first_in pid m queue (n ∷ ns) each =
    let rest = scan_queues-first_in pid m queue ns (λ x i. each x (ground arith)) in
    rw (each n (ground arith)) (elim (Bool-cases (first_with pid m.p_pid (queue n) == null)) [
      | inl none ↦ simp (none, rest)
      | inr some ↦ simp some
    ])

-- The first answer but NULL.
abbrev pub pick : Addr → Addr → Addr
pick first second = if first == null then second else first

-- What the search answers: a process of one of the queues with the identifier; else none has it.
pub first_in-cases :
    (pid : ℕ) (pids : Addr → ℕ) (queue : Addr → List Addr) (ns : List Addr)
    → ((n : Addr) → n ∈ ns → null ∉ queue n)
    → ((pids (first_in pid pids queue ns) ≡ pid)
        × ((n : Addr) × (n ∈ ns) × (first_in pid pids queue ns ∈ queue n)))
      ⊎ ((first_in pid pids queue ns ≡ null) × ((n p : Addr) → n ∈ ns → p ∈ queue n → pids p ≢ pid))
first_in-cases pid pids queue [] mapped = inr (refl, λ n p i. absurd (ground (arith, i)))
first_in-cases pid pids queue (n ∷ ns) mapped =
    elim (Bool-cases (first_with pid pids (queue n) == null)) [
      | inl none ↦
          let eq : first_in pid pids queue (n ∷ ns) ≡ first_in pid pids queue ns = simp none in
          let nothing : (p : Addr) → p ∈ queue n → pids p ≢ pid =
            elim (first_with-cases pid pids (queue n)) [
              | inl (same, i) ↦ absurd (ground (arith, none, i, mapped n))
              | inr (null_, others) ↦ others
            ] in
          elim (first_in-cases pid pids queue ns (λ x i. mapped x (ground arith))) [
            | inl (same, (x, i, j)) ↦
                inl (ap pids eq ∙ same, (x, ground (arith, i), subst (λ z. z ∈ queue x) (sym eq) j))
            | inr (null_, others) ↦ inr (
              eq ∙ null_,
              λ x p i j. elim (Bool-cases (x == n)) [
                | inl here ↦
                    let same : x ≡ n = ground arith in nothing p (subst (λ z. p ∈ queue z) same j)
                | inr there ↦ others x p (ground arith) j
              ],
            )
          ]
      | inr some ↦
          let eq : first_in pid pids queue (n ∷ ns) ≡ first_with pid pids (queue n) = simp some in
          elim (first_with-cases pid pids (queue n)) [
            | inl (same, i) ↦
                inl (ap pids eq ∙ same, (n, ground arith, subst (λ z. z ∈ queue n) (sym eq) i))
            | inr (null_, others) ↦ absurd (ground (arith, null_))
          ]
    ]

module _ (e : Env) (L : Laws e) (pid : ℕ) (m : Mem) (list first : Addr)
    (queue : Addr → List Addr) where
  abbrev Answers : List Addr → Type 0
  Answers ns =
      VisitsAll m.table ns
      × (find_pcb e pid list m ≡ ok (pick first (first_in pid m.p_pid queue ns)) m)

  module _ (found : search_pcb_by_pid pid list m ≡ ok first m)
      (each : (ns : List Addr)
        → VisitsAll m.table ns
        → (n : Addr) → n ∈ ns
        → Searches pid m queue n) where
    find_pcb-visited :
        (ns : List Addr)
        → VisitsAll m.table ns
        → e.hash_each m ≡ ok ns m
        → find_pcb e pid list m ≡ ok (pick first (first_in pid m.p_pid queue ns)) m
    unfolding find_pcb
    find_pcb-visited ns v at = rw found (elim (Bool-cases (first == null)) [
      | inl none ↦ simp (none, at, scan_queues-first_in pid m queue ns (each ns v))
      | inr some ↦ simp some
    ])

    -- findPcb answers from the list, or else from the queues of all the table.
    pub find_pcb-first_in : (ns : List Addr) × Answers ns
    find_pcb-first_in =
        let (ns, v, at) = visited (L.hash_each_lem m) in (ns, (v, find_pcb-visited ns v at))
      where
        visited :
            {r : Run (List Addr)}
            → Yields m (VisitsAll m.table) r
            → (ns : List Addr) × VisitsAll m.table ns × (r ≡ ok ns m)
        visited (yields {ns} v) = (ns, v, refl)
