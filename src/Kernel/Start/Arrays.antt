-- ===== src/Kernel/Start/Arrays.antt =====
-- The lists that initPcbs, initASH and initNamespaces build.
use pand_os.Prelude.{
  ℕ, zero, suc, ◌+◌, ◌*◌, ◌<◌, ◌≤◌, ◌≡◌, ◌≢◌, ◌⊎◌, inl, inr, refl, false, Bool-cases, List, [], ◌∷◌,
  arith, ◌==◌, ◌∈◌, ◌∉◌, upd, ◌++◌, has-append,
}
use pand_os.Mem.{Addr, null, Mem, relink}
use pand_os.Fields.{s_freelink, n_link}
use pand_os.Outcome.{Relinks, relinks, Relinks-bind, Relinks-rebase}
use pand_os.Links.Rings.{Ring, Ring-frame}
use pand_os.Env.{Env, Laws, set_table}
use pand_os.Pcb.{max_proc}
use pand_os.Pcb.Start.{blocks}
use pand_os.Ash.{init_semd_loop, init_ash}
use pand_os.Ns.{init_ns_loop, init_namespaces}
use pand_os.Invariant.{place}
use pand_os.Invariant.Places.{semds-place, mem-snoc, not_mem-place}
use pand_os.Kernel.Start.{IsSpread, block-IsSemd}

-- The links of the descriptors `i + k - 1` to `i`, the highest first, and then `xs`.
abbrev pub descriptors : (table i k : ℕ) → List Addr → List Addr
descriptors table i zero xs = xs
descriptors table i (suc k) xs = descriptors table (i + 1) k (s_freelink (table + 28 * i) ∷ xs)

pub mem-blocks :
    (table i k : ℕ) (xs : List Addr) (a : Addr)
    → a ∈ blocks table i k xs
    → ((j : ℕ) × (j < i + k) × (a ≡ table + 192 * j)) ⊎ (a ∈ xs)
mem-blocks table i zero xs a m = inr m
mem-blocks table i (suc k) xs a m = elim (mem-blocks table (i + 1) k _ a m) [
  | inl (j, lt, eq) ↦ inl (j, omega arith, eq)
  | inr old ↦ elim (Bool-cases (a == table + 192 * i)) [
    | inl hit ↦ inl (i, omega arith, ground arith)
    | inr miss ↦ inr (ground arith)
  ]
]

pub mem-descriptors :
    (table i k : ℕ) (xs : List Addr) (a : Addr)
    → a ∈ descriptors table i k xs
    → ((j : ℕ) × (j < i + k) × (a ≡ s_freelink (table + 28 * j))) ⊎ (a ∈ xs)
mem-descriptors table i zero xs a m = inr m
mem-descriptors table i (suc k) xs a m = elim (mem-descriptors table (i + 1) k _ a m) [
  | inl (j, lt, eq) ↦ inl (j, omega arith, eq)
  | inr old ↦ elim (Bool-cases (a == s_freelink (table + 28 * i))) [
    | inl hit ↦ inl (i, omega arith, ground arith)
    | inr miss ↦ inr (ground arith)
  ]
]

-- Links change only at addresses of the given place.
abbrev pub OnlyPlaces : (e : Env) → (Addr → Type 0) → Mem → (Addr → Addr) → (Addr → Addr) → Type 0
OnlyPlaces e P m n v = (a : Addr) → (P a → a ≢ a) → (n a ≡ m.next a) × (v a ≡ m.prev a)

module _ (e : Env) (L : Laws e) (s : IsSpread e) where
  open e use {semd_free_h, semd_free_table, pid_nsd, pid_ns_free_h, pid_ns_list_h}

  init_semd_loop-descriptors :
      (k i : ℕ) (xs : List Addr) (m : Mem)
      → i + k ≤ max_proc
      → Ring m.next m.prev semd_free_h xs
      → ((j : ℕ) → i ≤ j → j < i + k → s_freelink (semd_free_table + 28 * j) ∉ semd_free_h ∷ xs)
      → Relinks m
          (λ _ n v.
            Ring n v semd_free_h (descriptors semd_free_table i k xs)
            × ((a : Addr)
                → a ∉ semd_free_h ∷ xs
                → (place e a == 220) ≡ false
                → (n a ≡ m.next a) × (v a ≡ m.prev a)))
          (init_semd_loop e k i m)
  unfolding init_semd_loop
  init_semd_loop-descriptors zero i xs m fits r new = relinks (r, λ a o p. (refl, refl))
  init_semd_loop-descriptors (suc k) i xs m fits r new =
      let x = s_freelink (semd_free_table + 28 * i) in
      Relinks-bind _
        (L.add_lem x semd_free_h xs m r (new i (omega arith) (omega arith)) (omega arith))
        λ _ n v q.
          Relinks-rebase n v
            (init_semd_loop-descriptors k (i + 1) (x ∷ xs) (relink m n v) (omega arith) q.0
              (λ j lo hi. ground (arith, new j (omega arith) (omega arith))))
            λ _ n2 v2 q2.
              (q2.0, λ a o p. ground (arith, q.1 a, q2.1 a, block-IsSemd e s i (omega arith)))

  -- initASH empties the hash table and makes a free list of the 20 descriptors.
  pub init_ash-Ring :
      (m : Mem)
      → semd_free_h ≢ null
      → Relinks
          (set_table [] m)
          (λ _ n v.
            Ring n v semd_free_h (descriptors semd_free_table 0 20 [])
            × ((a : Addr)
                → a ≢ semd_free_h
                → (place e a == 220) ≡ false
                → (n a ≡ m.next a) × (v a ≡ m.prev a)))
          (init_ash e m)
  unfolding init_ash
  init_ash-Ring m nh =
      let n = upd m.next semd_free_h semd_free_h in
      let v = upd m.prev semd_free_h semd_free_h in
      let empty : Ring n v semd_free_h [] = record {
        links = ground arith;
        apart = (refl, tt);
        mapped = ground arith;
      } in
      simp (L.init_lem semd_free_h m nh, L.hash_init_lem (relink m n v))
        (Relinks-rebase n v
          (init_semd_loop-descriptors 20 0 [] (set_table [] (relink m n v)) (omega arith) empty
            (λ j lo hi. ground (arith, block-IsSemd e s j hi, semds-place e s.heads)))
          λ _ n2 v2 q. (q.0, λ a o p. ground (arith, q.1 a)))

  -- The namespaces lie elsewhere: none of their links is one of a process or a descriptor.
  pub record NamespacesApart : Type 0 where
    pub free_place : place e pid_ns_free_h ≡ 0
    pub list_place : place e pid_ns_list_h ≡ 0
    pub node_place : (j : ℕ) → j < max_proc → place e (n_link (pid_nsd + 12 * j)) ≡ 0
    pub free_mapped : pid_ns_free_h ≢ null
    pub list_mapped : pid_ns_list_h ≢ null
    pub heads : pid_ns_list_h ≢ pid_ns_free_h
    pub nodes : (j : ℕ) → j < max_proc → n_link (pid_nsd + 12 * j) ≢ pid_ns_free_h

  init_ns_loop-spares :
      (k i : ℕ) (xs : List Addr) (m : Mem)
      → NamespacesApart
      → i + k ≤ max_proc
      → Ring m.next m.prev pid_ns_free_h xs
      → ((j : ℕ) → i ≤ j → j < i + k → n_link (pid_nsd + 12 * j) ∉ pid_ns_free_h ∷ xs)
      → ((a : Addr) → a ∈ xs → place e a ≡ 0)
      → Relinks m
          (λ _ n v. (a : Addr) → (place e a == 0) ≡ false → (n a ≡ m.next a) × (v a ≡ m.prev a))
          (init_ns_loop e k i m)
  unfolding init_ns_loop
  init_ns_loop-spares zero i xs m p fits r new low = relinks (λ a o. (refl, refl))
  init_ns_loop-spares (suc k) i xs m p fits r new low =
      let x = n_link (pid_nsd + 12 * i) in
      let out = new i (omega arith) (omega arith) in
      let n = upd m.next x x in
      let v = upd m.prev x x in
      let r' : Ring n v pid_ns_free_h xs = Ring-frame n v r (λ a j. ground arith) in
      simp (L.init_lem x m (omega arith)) (
        Relinks-rebase n v
          (Relinks-bind _ (L.add_tail_lem x pid_ns_free_h xs (relink m n v) r' out (omega arith))
            λ _ n1 v1 q.
              Relinks-rebase n1 v1
                (init_ns_loop-spares k (i + 1) (xs ++ x ∷ []) (relink m n1 v1) p (omega arith) q.0
                  (λ j lo hi. ground (
                    arith,
                    new j (omega arith) (omega arith),
                    has-append (n_link (pid_nsd + 12 * j)) xs (x ∷ []),
                  ))
                  (λ a j. elim (mem-snoc a x xs j) [
                    | inl same ↦ rw same (p.node_place i (omega arith))
                    | inr old ↦ low a old
                  ]))
                λ _ n2 v2 q2. λ a o. ground (
                  arith,
                  q2 a o,
                  q.1 a,
                  not_mem-place e a 0 xs low o,
                  p.node_place i (omega arith),
                ))
          λ _ n3 v3 q3. q3)

  -- initNamespaces returns, and changes no link of a process, a descriptor or their list heads.
  pub init_namespaces-spares :
      (m : Mem)
      → NamespacesApart
      → Relinks m
          (λ _ n v. (a : Addr) → (place e a == 0) ≡ false → (n a ≡ m.next a) × (v a ≡ m.prev a))
          (init_namespaces e m)
  unfolding init_namespaces
  init_namespaces-spares m p =
      let n = upd m.next pid_ns_free_h pid_ns_free_h in
      let v = upd m.prev pid_ns_free_h pid_ns_free_h in
      let n1 = upd n pid_ns_list_h pid_ns_list_h in
      let v1 = upd v pid_ns_list_h pid_ns_list_h in
      let empty : Ring n1 v1 pid_ns_free_h [] = record {
        links = ground (arith, p.heads);
        apart = (refl, tt);
        mapped = ground (arith, p.free_mapped);
      } in
      simp
        (
          L.init_lem pid_ns_free_h m p.free_mapped,
          L.init_lem pid_ns_list_h (relink m n v) p.list_mapped,
        )
        (Relinks-rebase n1 v1
          (init_ns_loop-spares 20 0 [] (relink m n1 v1) p (omega arith) empty
            (λ j lo hi. ground (arith, p.nodes j hi)) (λ a j. absurd (ground (arith, j))))
          λ _ n2 v2 q. λ a o. ground (arith, q a o, p.free_place, p.list_place))
