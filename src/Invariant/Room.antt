-- ===== src/Invariant/Room.antt =====
-- A descriptor is free whenever a process runs: each one in use has a process that waits, and there
-- are as many descriptors as processes.
use pand_os.Prelude.{
  ◌≤◌, ◌≡◌, ◌≢◌, refl, List, [], ◌∷◌, arith, length, ◌==◌, ◌∈◌, ◌∉◌, Distinct, Bool-cases, inl, inr,
  ap,
}
use pand_os.Mem.{Addr, null, Mem}
use pand_os.Env.{Env, lookup}
use pand_os.Ash.Find.{IsKeyed, semd_at}
use pand_os.Ash.Keys.{lookup-null}
use pand_os.Pcb.{max_proc}
use pand_os.Invariant.{place, View, Holds, IsLoose}
use pand_os.Invariant.Places.{not_mem-of}
use pand_os.Invariant.Bounds.{Distinct-length}

-- The first of the processes that wait for each key of the table.
abbrev head : List Addr → Addr
head [] = null
head (x ∷ xs) = x

abbrev firsts : (Addr → List Addr) → List (Addr × Addr) → List Addr
firsts waiting [] = []
firsts waiting ((a, k) ∷ t) = head (waiting k) ∷ firsts waiting t

length-firsts :
    (waiting : Addr → List Addr) (t : List (Addr × Addr)) → length (firsts waiting t) ≡ length t
length-firsts waiting [] = refl
length-firsts waiting ((a, k) ∷ t) = ground (arith, length-firsts waiting t)

-- Every key of the table has a first process that waits for it and is one of the array.
abbrev Represented : Env → (Addr → Addr) → (Addr → List Addr) → List (Addr × Addr) → Type 0
Represented e sem_add waiting t =
    (k : Addr)
    → lookup k t ≢ null
    → (place e (head (waiting k)) ≡ 4) × (sem_add (head (waiting k)) ≡ k)

module _ (e : Env) (sem_add sk : Addr → Addr) (waiting : Addr → List Addr) where
  Represented-tail :
      (a k : Addr) (t : List (Addr × Addr))
      → IsKeyed sk ((a, k) ∷ t)
      → Represented e sem_add waiting ((a, k) ∷ t)
      → Represented e sem_add waiting t
  Represented-tail a k t w reps k' ne = reps k' λ none. ground (arith, none, w.3)

  firsts-mem :
      (a : Addr) (t : List (Addr × Addr))
      → IsKeyed sk t
      → Represented e sem_add waiting t
      → a ∈ firsts waiting t
      → (place e a ≡ 4) × (lookup (sem_add a) t ≢ null)
  firsts-mem a [] w reps i = absurd (ground (arith, i))
  firsts-mem a ((b, k) ∷ t) w reps i = elim (Bool-cases (a == head (waiting k))) [
    | inl hit ↦
        let same : a ≡ head (waiting k) = ground arith in
        let r = reps k (λ none. ground (arith, none, w.3)) in
        rw same (r.0, λ none. ground (arith, none, w.3, r.1))
    | inr miss ↦
        let r = firsts-mem a t w.4 (Represented-tail b k t w reps) (ground arith) in
        (r.0, λ none. ground (arith, none, w.3, r.1))
  ]

  firsts-Distinct :
      (t : List (Addr × Addr))
      → IsKeyed sk t
      → Represented e sem_add waiting t
      → Distinct (firsts waiting t)
  firsts-Distinct [] w reps = tt
  firsts-Distinct ((b, k) ∷ t) w reps =
      let rest = Represented-tail b k t w reps in
      let r = reps k (λ none. ground (arith, none, w.3)) in
      (
        not_mem-of (head (waiting k)) (firsts waiting t)
            λ i. absurd ((firsts-mem (head (waiting k)) t w.4 rest i).1 (rw r.1 w.2)),
        firsts-Distinct t w.4 rest,
      )

head-mem : (xs : List Addr) → xs ≢ [] → head xs ∈ xs
head-mem [] ne = absurd (ne refl)
head-mem (x ∷ xs) ne = ground arith

module _ (e : Env) (m : Mem) (v : View) (i : Holds e m v) where
  known-lookup : (k : Addr) → lookup k m.table ≢ null → semd_at k m.table ≢ null
  known-lookup k ne none = ne (lookup-null m.s_key k m.table i.keyed none)

  represented : Represented e m.p_sem_add v.waiting m.table
  represented k ne =
      let q = i.known k (known-lookup k ne) in
      let j = head-mem (v.waiting k) q.busy in ((q.is_pcb _ j).0, q.blocked _ j)

  -- In a kernel in order, with a process on no list, a descriptor is free.
  pub semds-free : (c : Addr) → IsLoose e m c → v.semds ≢ []
  semds-free c l none =
      let fs = firsts v.waiting m.table in
      let mem : (a : Addr) → a ∈ fs → (place e a ≡ 4) × (lookup (m.p_sem_add a) m.table ≢ null) =
        λ a j. firsts-mem e m.p_sem_add m.s_key v.waiting a m.table i.keyed represented j in
      let out : c ∉ fs = not_mem-of c fs λ j.
        absurd ((i.known null (known-lookup null (rw l.3 at ((mem c j).1)))).key_mapped refl) in
      let distinct = firsts-Distinct e m.p_sem_add m.s_key v.waiting m.table i.keyed represented in
      let few =
        Distinct-length e (c ∷ fs) (out, distinct)
          λ a j. elim (Bool-cases (a == c)) [
            | inl hit ↦ let same : a ≡ c = ground arith in rw same l.1.0
            | inr miss ↦ (mem a (ground arith)).0
          ] in
      omega (arith, few, length-firsts v.waiting m.table, i.count, ap length none)

  -- At most 20 processes wait for a semaphore.
  pub length-waiting : (k : Addr) → length (v.waiting k) ≤ max_proc
  length-waiting k = elim (Bool-cases (semd_at k m.table == null)) [
    | inl none ↦ let nobody = i.unknown k (ground arith) in rw nobody (omega arith)
    | inr some ↦
        let q = i.known k (ground arith) in
        Distinct-length e (v.waiting k) q.ring.apart.1 λ a j. (q.is_pcb a j).0
  ]
