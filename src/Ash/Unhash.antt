-- ===== src/Ash/Unhash.antt =====
-- The hash table without one descriptor.
use pand_os.Prelude.{
  ◌≡◌, ◌≢◌, refl, true, false, List, [], ◌∷◌, arith, ◌==◌, ◌∈◌, ◌∉◌, Bool-cases, inl, inr,
}
use pand_os.Mem.{Addr, null}
use pand_os.Fields.{s_link}
use pand_os.Env.{lookup, nodes, unhash}
use pand_os.Ash.Find.{IsKeyed, semd_at, lookup-mem}

not_mem-unhash : (a n : Addr) (t : List (Addr × Addr)) → a ∉ nodes t → a ∉ nodes (unhash n t)
not_mem-unhash a n [] out = refl
not_mem-unhash a n ((b, k) ∷ t) out = ground (arith, not_mem-unhash a n t)

pub unhash-not_mem : (n : Addr) (t : List (Addr × Addr)) → n ∉ nodes t → unhash n t ≡ t
unhash-not_mem n [] out = refl
unhash-not_mem n ((b, k) ∷ t) out = ground (arith, unhash-not_mem n t)

lookup-unhash-null :
    (sk : Addr → Addr) (key n : Addr) (t : List (Addr × Addr))
    → IsKeyed sk t
    → lookup key t ≡ null
    → lookup key (unhash n t) ≡ null
lookup-unhash-null sk key n [] w none = refl
lookup-unhash-null sk key n ((b, k) ∷ t) w none = ground (arith, lookup-unhash-null sk key n t w.4)

pub IsKeyed-unhash :
    (sk : Addr → Addr) (n : Addr) (t : List (Addr × Addr)) → IsKeyed sk t → IsKeyed sk (unhash n t)
IsKeyed-unhash sk n [] w = tt
IsKeyed-unhash sk n ((b, k) ∷ t) w = elim (Bool-cases (b == n)) [
  | inl hit ↦ rw hit (IsKeyed-unhash sk n t w.4)
  | inr miss ↦ rw miss (
    not_mem-unhash b n t w.0,
    w.1,
    lookup-unhash-null sk k n t w.4 w.2,
    w.3,
    IsKeyed-unhash sk n t w.4,
  )
]

lookup-unhash :
    (sk : Addr → Addr) (key n : Addr) (t : List (Addr × Addr))
    → IsKeyed sk t
    → lookup key t ≡ n
    → n ≢ null
    → lookup key (unhash n t) ≡ null
lookup-unhash sk key n [] w at ne = refl
lookup-unhash sk key n ((b, k) ∷ t) w at ne = elim (Bool-cases (k == key)) [
  | inl hit ↦
      let e : (b == n) ≡ true = ground arith in
      let none : lookup key t ≡ null = ground arith in
      simp e (lookup-unhash-null sk key n t w.4 none)
  | inr miss ↦
      let there : lookup key t ≡ n = ground arith in
      let i : lookup key t ∈ nodes t = lookup-mem key t (ground arith) in
      let e : (b == n) ≡ false = ground arith in
      simp (e, miss) (lookup-unhash sk key n t w.4 there ne)
]

-- A semaphore whose descriptor leaves the table is unknown.
pub semd_at-unhash :
    (sk : Addr → Addr) (key sem : Addr) (t : List (Addr × Addr))
    → IsKeyed sk t
    → semd_at key t ≡ sem
    → sem ≢ null
    → semd_at key (unhash (s_link sem) t) ≡ null
semd_at-unhash sk key sem t w at ns =
    let e : s_link sem ≡ lookup key t = ground arith in
    let none = lookup-unhash sk key (s_link sem) t w (ground arith) (omega arith) in ground arith
