-- ===== src/Words.antt =====
-- 32-bit machine words as natural numbers below 2 ^ 32.
use pand_os.Prelude.{ℕ, ◌+◌, ◌-◌, ◌/◌, ◌%◌, ◌^◌, ◌≡◌, ◌<◌, Bool, ltb, if◌then◌else◌, arith}

abbrev pub modulus : ℕ
modulus = 2 ^ 32

abbrev pub add32 : ℕ → ℕ → ℕ
add32 a b = (a + b) % 2 ^ 32

abbrev pub sub32 : ℕ → ℕ → ℕ
sub32 a b = (a + 2 ^ 32 - b) % 2 ^ 32

-- (int)-1
abbrev pub minus_one : ℕ
minus_one = 2 ^ 32 - 1

-- `a < b` on words that are read as `int`
abbrev pub lt_int : ℕ → ℕ → Bool
lt_int a b = ltb (add32 a (2 ^ 31)) (add32 b (2 ^ 31))

-- `a / d` with `a` read as `int` and `d` a positive number: C rounds towards zero
abbrev pub div_int : ℕ → ℕ → ℕ
div_int a d = if ltb a (2 ^ 31) then a / d else sub32 0 ((2 ^ 32 - a) / d)

pub add32-sub32 : (a b : ℕ) → a < 2 ^ 32 → b < 2 ^ 32 → add32 (sub32 a b) b ≡ a
add32-sub32 a b ha hb = omega arith
