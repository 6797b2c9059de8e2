-- ===== src/Ash/Find.antt =====
-- The search for the descriptor of a semaphore.
use pand_os.Prelude.{
  ◌≡◌, ◌≢◌, refl, inl, inr, false, not, ◌&&◌, List, [], ◌∷◌, arith, ◌∙◌, ◌==◌, if◌then◌else◌, has,
  ◌∈◌, ◌∉◌, Bool-cases,
}
use pand_os.Mem.{Addr, null, Mem, ok, Run, and_then}
use pand_os.Fields.{semd_of_link}
use pand_os.Env.{Env, Laws, Visits, Yields, yields, lookup, nodes}
use pand_os.Ash.{scan_semds, find_semd}

-- The table is sound: no node twice, no key twice, and each descriptor holds the key of its node.
abbrev pub IsKeyed : (Addr → Addr) → List (Addr × Addr) → Type 0
IsKeyed sk [] = Unit
IsKeyed sk ((a, k) ∷ t) =
    (a ∉ nodes t)
    × (sk (semd_of_link a) ≡ k)
    × (lookup k t ≡ null)
    × ((semd_of_link a == null) ≡ false)
    × IsKeyed sk t

-- The descriptor of a key, or NULL.
abbrev pub semd_at : Addr → List (Addr × Addr) → Addr
semd_at key t = if lookup key t == null then null else semd_of_link (lookup key t)

pub node-mapped :
    (sk : Addr → Addr) (a : Addr) (t : List (Addr × Addr))
    → IsKeyed sk t
    → a ∈ nodes t
    → (semd_of_link a == null) ≡ false
node-mapped sk a [] w i = cc
node-mapped sk a ((b, k) ∷ t) w i = ground (arith, node-mapped sk a t w.4)

pub lookup-node :
    (sk : Addr → Addr) (a : Addr) (t : List (Addr × Addr))
    → IsKeyed sk t
    → a ∈ nodes t
    → lookup (sk (semd_of_link a)) t ≡ a
lookup-node sk a [] w i = cc
lookup-node sk a ((b, k) ∷ t) w i = ground (arith, lookup-node sk a t w.4, node-mapped sk a t w.4)

pub lookup-mem :
    (key : Addr) (t : List (Addr × Addr)) → lookup key t ≢ null → lookup key t ∈ nodes t
lookup-mem key [] ne = absurd (ne refl)
lookup-mem key ((b, k) ∷ t) ne = ground (arith, lookup-mem key t)

pub lookup-key :
    (sk : Addr → Addr) (key : Addr) (t : List (Addr × Addr))
    → IsKeyed sk t
    → lookup key t ≢ null
    → sk (semd_of_link (lookup key t)) ≡ key
lookup-key sk key [] w ne = absurd (ne refl)
lookup-key sk key ((b, k) ∷ t) w ne = ground (arith, lookup-key sk key t w.4)

lookup-other :
    (sk : Addr → Addr) (key a : Addr) (t : List (Addr × Addr))
    → IsKeyed sk t
    → (sk (semd_of_link a) == key) ≡ false
    → lookup key t ≢ null
    → (lookup key t == a) ≡ false
lookup-other sk key a t w miss ne = elim (Bool-cases (lookup key t == a)) [
  | inl hit ↦
      let e : lookup key t ≡ a = ground arith in
      let k : sk (semd_of_link a) ≡ key = rw e at (lookup-key sk key t w ne) in ground arith
  | inr other ↦ other
]

scan_semds-lookup :
    (key : Addr) (t : List (Addr × Addr)) (m : Mem) (ns : List Addr)
    → IsKeyed m.s_key t
    → ((a : Addr) → a ∈ ns → a ∈ nodes t)
    → scan_semds key ns m
      ≡ ok
          (if has (lookup key t) ns && not (lookup key t == null)
            then semd_of_link (lookup key t)
            else null)
          m
unfolding scan_semds
scan_semds-lookup key t m [] w sound = refl
scan_semds-lookup key t m (a ∷ ns) w sound =
    let i : a ∈ nodes t = sound a (ground arith) in
    let ea = node-mapped m.s_key a t w i in
    simp ea (elim (Bool-cases (m.s_key (semd_of_link a) == key)) [
      | inl hit ↦
          let es : m.s_key (semd_of_link a) ≡ key = ground arith in
          let el : lookup key t ≡ a = rw es at (lookup-node m.s_key a t w i) in
          simp hit (rw el (ground arith))
      | inr miss ↦
          simp (miss, scan_semds-lookup key t m ns w (λ b j. sound b (ground arith)))
            let other : (lookup key t == null) ≡ false → (lookup key t == a) ≡ false =
                λ ne. lookup-other m.s_key key a t w miss (ground arith) in
              ground arith
    ])

module _ (e : Env) (L : Laws e) where
  -- Where the hash table is sound, the search through the bucket of a key finds the descriptor that
  -- the table has for the key, or NULL, and changes nothing.
  pub find_semd-semd_at :
      (key : Addr) (m : Mem)
      → IsKeyed m.s_key m.table
      → find_semd e key m ≡ ok (semd_at key m.table) m
  unfolding find_semd
  find_semd-semd_at key m w = go (e.hash_possible key m) (L.hash_possible_lem key m)
    where
      go :
          (r : Run (List Addr))
          → Yields m (Visits key m.table) r
          → and_then r (scan_semds key) ≡ ok (semd_at key m.table) m
      go r (yields {ns} v) =
          scan_semds-lookup key m.table m ns w v.sound ∙ ground (arith, v.complete)
