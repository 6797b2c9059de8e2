-- ===== src/Ash/Keys.antt =====
-- The hash table with one descriptor more, or without one, key by key.
use pand_os.Prelude.{
  suc, length, ap, ◌≡◌, ◌≢◌, refl, false, List, [], ◌∷◌, arith, ◌==◌, ◌∈◌, ◌∉◌, upd, Bool-cases,
  inl, inr,
}
use pand_os.Mem.{Addr, null}
use pand_os.Fields.{s_link, semd_of_link}
use pand_os.Env.{lookup, nodes, unhash}
use pand_os.Ash.Unhash.{unhash-not_mem}
use pand_os.Ash.Find.{IsKeyed, semd_at, lookup-mem, lookup-node, lookup-key, node-mapped}

-- No descriptor, no node.
pub lookup-null :
    (sk : Addr → Addr) (key : Addr) (t : List (Addr × Addr))
    → IsKeyed sk t
    → semd_at key t ≡ null
    → lookup key t ≡ null
lookup-null sk key t w none = elim (Bool-cases (lookup key t == null)) [
  | inl hit ↦ ground arith
  | inr miss ↦
      let i = lookup-mem key t (ground arith) in ground (arith, node-mapped sk (lookup key t) t w i)
]

-- The node of a descriptor that is in the table is found under its key.
pub semd_at-node :
    (sk : Addr → Addr) (sem : Addr) (t : List (Addr × Addr))
    → IsKeyed sk t
    → s_link sem ∈ nodes t
    → semd_at (sk sem) t ≡ sem
semd_at-node sk sem t w i =
    let back : semd_of_link (s_link sem) ≡ sem = omega arith in
    let found : lookup (sk sem) t ≡ s_link sem = rw back at (lookup-node sk (s_link sem) t w i) in
    ground arith

IsKeyed-upd :
    (sk : Addr → Addr) (sem key : Addr) (t : List (Addr × Addr))
    → sem ≢ null
    → s_link sem ∉ nodes t
    → IsKeyed sk t
    → IsKeyed (upd sk sem key) t
IsKeyed-upd sk sem key [] ns out w = tt
IsKeyed-upd sk sem key ((b, k) ∷ t) ns out w =
    (w.0, ground (arith, w.1, w.3), w.2, w.3, IsKeyed-upd sk sem key t ns (ground arith) w.4)

-- A free descriptor takes a key that has none.
pub IsKeyed-add :
    (sk : Addr → Addr) (sem key : Addr) (t : List (Addr × Addr))
    → sem ≢ null
    → s_link sem ∉ nodes t
    → lookup key t ≡ null
    → IsKeyed sk t
    → IsKeyed (upd sk sem key) ((s_link sem, key) ∷ t)
IsKeyed-add sk sem key t ns out none w =
    let back : semd_of_link (s_link sem) ≡ sem = omega arith in
    (out, rw back (ground arith), none, ground arith, IsKeyed-upd sk sem key t ns out w)

pub semd_at-add :
    (sem key : Addr) (t : List (Addr × Addr)) → semd_at key ((s_link sem, key) ∷ t) ≡ sem
semd_at-add sem key t = ground arith

pub semd_at-add_other :
    (sem key other : Addr) (t : List (Addr × Addr))
    → other ≢ key
    → semd_at other ((s_link sem, key) ∷ t) ≡ semd_at other t
semd_at-add_other sem key other t ne = ground arith

lookup-unhash_other :
    (n other : Addr) (t : List (Addr × Addr))
    → (lookup other t == n) ≡ false
    → lookup other (unhash n t) ≡ lookup other t
lookup-unhash_other n other [] miss = refl
lookup-unhash_other n other ((b, k) ∷ t) miss = ground (arith, lookup-unhash_other n other t)

-- A key of another descriptor keeps it.
pub semd_at-unhash_other :
    (sk : Addr → Addr) (sem key other : Addr) (t : List (Addr × Addr))
    → IsKeyed sk t
    → sem ≢ null
    → semd_at key t ≡ sem
    → other ≢ key
    → semd_at other (unhash (s_link sem) t) ≡ semd_at other t
semd_at-unhash_other sk sem key other t w ns at ne =
    let back : semd_of_link (s_link sem) ≡ sem = omega arith in
    let miss : (lookup other t == s_link sem) ≡ false =
      elim (Bool-cases (lookup other t == s_link sem)) [
        | inl hit ↦
            let e : lookup other t ≡ s_link sem = ground arith in
            let e' : lookup key t ≡ s_link sem = ground arith in
            let k : sk (semd_of_link (s_link sem)) ≡ other =
              rw e at (lookup-key sk other t w (ground arith)) in
            let k' : sk (semd_of_link (s_link sem)) ≡ key =
              rw e' at (lookup-key sk key t w (ground arith)) in
            absurd (ne cc)
        | inr miss ↦ miss
      ] in
    simp (lookup-unhash_other (s_link sem) other t miss)

-- A descriptor holds its key, so that two keys have two descriptors.
pub semd_at-key :
    (sk : Addr → Addr) (key : Addr) (t : List (Addr × Addr))
    → IsKeyed sk t
    → semd_at key t ≢ null
    → sk (semd_at key t) ≡ key
semd_at-key sk key t w ne = elim (Bool-cases (lookup key t == null)) [
  | inl hit ↦ absurd (ne (ground arith))
  | inr miss ↦ simp miss (lookup-key sk key t w (ground arith))
]

pub semd_at-apart :
    (sk : Addr → Addr) (key other : Addr) (t : List (Addr × Addr))
    → IsKeyed sk t
    → semd_at key t ≢ null
    → semd_at other t ≢ null
    → other ≢ key
    → semd_at other t ≢ semd_at key t
semd_at-apart sk key other t w ne ne' d same =
    d (cc (semd_at-key sk key t w ne, semd_at-key sk other t w ne'))

-- The node of a descriptor leaves the table once.
pub length-unhash :
    (sk : Addr → Addr) (n : Addr) (t : List (Addr × Addr))
    → IsKeyed sk t
    → n ∈ nodes t
    → suc (length (unhash n t)) ≡ length t
length-unhash sk n [] w i = absurd (ground (arith, i))
length-unhash sk n ((b, k) ∷ t) w i = elim (Bool-cases (b == n)) [
  | inl hit ↦
      let same : b ≡ n = ground arith in
      let gone = unhash-not_mem n t (rw same at w.0) in rw hit (ap (λ z. suc (length z)) gone)
  | inr miss ↦ rw miss (omega (arith, length-unhash sk n t w.4 (ground arith)))
]

pub semd_at-mem :
    (key : Addr) (t : List (Addr × Addr)) → semd_at key t ≢ null → s_link (semd_at key t) ∈ nodes t
semd_at-mem key t ne =
    let same : s_link (semd_at key t) ≡ lookup key t = ground arith in
    rw same (lookup-mem key t (ground arith))
