-- ===== src/Strings/Reverse.antt =====
-- What reverse does to a buffer.
use pand_os.Prelude.{
  ℕ, zero, suc, ◌+◌, ◌-◌, ◌≤◌, ◌≡◌, false, some, arith, ltb, leb, ◌&&◌, if◌then◌else◌, Bool-cases,
  inl, inr,
}
use pand_os.Strings.{Bytes, swap, reverse_loop, reverse}

-- `c` is `b` with the bytes from `i` to `j` in reverse.
abbrev pub Reversed : (buffer i j : ℕ) → Bytes → Bytes → Type 0
Reversed buffer i j b c =
    (x : ℕ)
    → c (buffer + x) ≡ (if leb i x && leb x j then b (buffer + (i + j - x)) else b (buffer + x))

reverse_loop-Reversed :
    (k buffer i j : ℕ) (b : Bytes)
    → j ≤ k + i
    → (c : Bytes) × (reverse_loop (suc k) buffer i j b ≡ some c) × Reversed buffer i j b c
unfolding reverse_loop swap
reverse_loop-Reversed zero buffer i j b fuel =
    let stop : ltb i j ≡ false = ground arith in (b, simp stop, λ x. ground arith)
reverse_loop-Reversed (suc k) buffer i j b fuel = elim (Bool-cases (ltb i j)) [
  | inl more ↦
      let r =
        reverse_loop-Reversed k buffer (i + 1) (j - 1) (swap (buffer + i) (buffer + j) b)
          (ground arith) in
      (r.0, simp more r.1, λ x. ground (arith, r.2 x))
  | inr stop ↦ (b, simp stop, λ x. ground arith)
]

-- reverse ends within its bound, puts the bytes i to j of the buffer in the opposite order and
-- changes no other byte.
pub reverse-Reversed :
    (buffer i j : ℕ) (b : Bytes)
    → (c : Bytes) × (reverse buffer i j b ≡ some c) × Reversed buffer i j b c
unfolding reverse
reverse-Reversed buffer i j b = reverse_loop-Reversed j buffer i j b (omega arith)
