-- ===== src/Invariant/Bounds.antt =====
-- No list of processes is longer than the array of pcb.c.
use pand_os.Prelude.{
  ℕ, zero, suc, ◌+◌, ◌-◌, ◌*◌, ◌/◌, ◌<◌, ◌≤◌, ◌≡◌, List, [], ◌∷◌, arith, length, ◌∈◌, Distinct,
}
use pand_os.Mem.{Addr}
use pand_os.Links.Rings.{erase, mem_of-erase, not_mem-erase_self, Distinct-erase}
use pand_os.Env.{Env}
use pand_os.Pcb.{max_proc}
use pand_os.Invariant.{place}

-- One of the first `n` processes of the array.
abbrev Among : Env → ℕ → Addr → Type 0
Among e n a = (i : ℕ) × (i < n) × (a ≡ e.pcb_free_table + i * 192)

place-Among : (e : Env) (a : Addr) → place e a ≡ 4 → Among e max_proc a
unfolding place
place-Among e a h = ((a - e.pcb_free_table) / 192, ground arith, ground arith)

length-erase : (x : Addr) (xs : List Addr) → length xs ≤ suc (length (erase x xs))
length-erase x [] = omega arith
length-erase x (y ∷ ys) = ground (arith, length-erase x ys)

-- Distinct processes of the first `n` are at most `n`.
length-Among :
    (e : Env) (n : ℕ) (xs : List Addr)
    → Distinct xs
    → ((a : Addr) → a ∈ xs → Among e n a)
    → length xs ≤ n
length-Among e zero [] d among = omega arith
length-Among e zero (x ∷ xs) d among =
    let (i, lt, at) = among x (ground arith) in absurd (omega arith)
length-Among e (suc n) xs d among =
    let last = e.pcb_free_table + n * 192 in
    let rest = length-Among e n (erase last xs) (Distinct-erase last xs d) λ a j.
      let (i, lt, at) = among a (mem_of-erase a last xs j) in
      (i, ground (arith, not_mem-erase_self last xs d), at) in
    omega (arith, rest, length-erase last xs)

-- Distinct processes of the array are at most 20.
pub Distinct-length :
    (e : Env) (xs : List Addr)
    → Distinct xs
    → ((a : Addr) → a ∈ xs → place e a ≡ 4)
    → length xs ≤ max_proc
Distinct-length e xs d places = length-Among e max_proc xs d λ a j. place-Among e a (places a j)
