-- ===== src/Strings/Digits.antt =====
-- What itoa writes.
use pand_os.Prelude.{
  ℕ, zero, suc, ◌+◌, ◌-◌, ◌*◌, ◌/◌, ◌%◌, ◌^◌, ◌≤◌, ◌<◌, ◌≡◌, refl, ap, ◌∙◌, false, true, some,
  arith, ltb, if◌then◌else◌, upd, ◌==◌, Bool-cases, inl, inr,
}
use native.Mathlib.Nat.{div-add-mod, mul-le-mul_right, pow-suc}
use mathlib.Core.Option.{bind}
use pand_os.Strings.{reverse, Bytes, digit_char, digits_loop, finish, abs, itoa}
use pand_os.Strings.Reverse.{reverse-Reversed}

-- The digit that a character stands for.
abbrev pub digit_of : ℕ → ℕ
digit_of c = if ltb c 58 then c - 48 else c - 55

-- What the `len` characters from `p` on read as in a base: the usual order, and the lowest first.
abbrev pub reading : (base : ℕ) → Bytes → (p len : ℕ) → ℕ
reading base b p zero = 0
reading base b p (suc len) = reading base b p len * base + digit_of (b (p + len))

abbrev reading_back : (base : ℕ) → Bytes → (p len : ℕ) → ℕ
reading_back base b p zero = 0
reading_back base b p (suc len) = digit_of (b p) + base * reading_back base b (p + 1) len

digit_of-digit_char : (r : ℕ) → digit_of (digit_char r) ≡ r
unfolding digit_char
digit_of-digit_char r = ground arith

div-lt_half : (k n base : ℕ) → 2 ≤ base → n < 2 ^ (suc k) → n / base < 2 ^ k
div-lt_half k n base two small =
    omega (arith, div-add-mod n base, pow-suc 2 k, mul-le-mul_right (n / base) two)

-- Reading in the usual order what was written with the lowest first.
reading-Reversed :
    (base p q len : ℕ) (b c : Bytes)
    → ((x : ℕ) → x < len → c (p + x) ≡ b (q + (len - 1 - x)))
    → reading base c p len ≡ reading_back base b q len
reading-Reversed base p q zero b c turn = refl
reading-Reversed base p q (suc len) b c turn =
    let rest =
      reading-Reversed base p (q + 1) len b c (λ x lt. turn x (omega arith) ∙ ap b (omega arith)) in
    let last : c (p + len) ≡ b q = turn len (omega arith) ∙ ap b (omega arith) in
    simp (rest, last) (omega arith)

digits_loop_lem :
    (k n base buffer i : ℕ) (b : Bytes)
    → 2 ≤ base
    → n < 2 ^ k
    → (len : ℕ) × (c : Bytes) × (digits_loop (suc k) n base buffer i b ≡ some (i + len, c))
      × (reading_back base c (buffer + i) len ≡ n)
      × (len ≤ k)
      × ((len == 0) ≡ (n == 0))
      × ((x : ℕ) → x < i → c (buffer + x) ≡ b (buffer + x))
unfolding digits_loop
digits_loop_lem zero n base buffer i b two small =
    let none_left : (n == 0) ≡ true = ground arith in
    (
      0,
      b,
      simp none_left (ap (λ x. some (x, b)) (omega arith)),
      omega arith,
      omega arith,
      ground arith,
      λ x lt. refl,
    )
digits_loop_lem (suc k) n base buffer i b two small = elim (Bool-cases (n == 0)) [
  | inl none_left ↦ (
    0,
    b,
    simp none_left (ap (λ x. some (x, b)) (omega arith)),
    ground arith,
    omega arith,
    ground arith,
    λ x lt. refl,
  )
  | inr more ↦
      let b1 = upd b (buffer + i) (digit_char (n % base)) in
      let r =
        digits_loop_lem k (n / base) base buffer (i + 1) b1 two (div-lt_half k n base two small) in
      let first : digit_of (r.1 (buffer + i)) ≡ n % base =
        ap digit_of (r.6 i (omega arith) ∙ ground arith) ∙ digit_of-digit_char (n % base) in
      let others : reading_back base r.1 (buffer + i + 1) r.0 ≡ n / base =
        ap (λ q. reading_back base r.1 q r.0) (omega arith) ∙ r.3 in
      (
        suc r.0,
        r.1,
        simp more (r.2 ∙ ap (λ x. some (x, r.1)) (omega arith)),
        simp (first, others) (omega (arith, div-add-mod n base)),
        omega (arith, r.4),
        ground arith,
        λ x lt. ground (arith, r.6 x),
      )
]

turn_lem :
    (base buffer i : ℕ) (b : Bytes)
    → 0 < i
    → (c : Bytes) × (reverse buffer 0 (i - 1) (upd b (buffer + i) 0) ≡ some c)
      × (c (buffer + i) ≡ 0)
      × (reading base c buffer i ≡ reading_back base b buffer i)
turn_lem base buffer i b pos =
    let r = reverse-Reversed buffer 0 (i - 1) (upd b (buffer + i) 0) in
    (
      r.0,
      r.1,
      ground (arith, r.2 i),
      reading-Reversed base buffer buffer i b r.0 (λ x lt. r.2 x ∙ ground arith),
    )

-- For an int that is not negative and a base from 2 to 32, itoa ends within its 33 rounds and
-- writes between 1 and 32 characters and a 0 behind them, and the digits, read from left to right
-- in the base, give the number back.
pub itoa-reading :
    (value buffer base : ℕ) (b : Bytes)
    → value < 2 ^ 31
    → 2 ≤ base
    → base ≤ 32
    → (len : ℕ) × (c : Bytes) × (itoa value buffer base b ≡ some c)
      × (0 < len)
      × (len ≤ 32)
      × (c (buffer + len) ≡ 0)
      × (reading base c buffer len ≡ value)
unfolding itoa finish abs bind
itoa-reading value buffer base b small two most =
    let lo : ltb base 2 ≡ false = ground arith in
    let hi : ltb 32 base ≡ false = ground arith in
    let plus : ltb value (2 ^ 31) ≡ true = ground arith in
    let d = digits_loop_lem 32 value base buffer 0 b two (omega arith) in
    elim (Bool-cases (value == 0)) [
      | inl none_left ↦
          let t = turn_lem base buffer 1 (upd d.1 buffer 48) (omega arith) in
          let e : digits_loop 33 value base buffer 0 b ≡ some (0, d.1) =
            d.2 ∙ ap (λ x. some (x, d.1)) (ground (arith, d.5)) in
          (1, t.0, simp (lo, hi, plus, e) t.1, omega arith, omega arith, t.2, t.3 ∙ ground arith)
      | inr more ↦
          let pos : 0 < d.0 = ground (arith, d.5) in
          let some_left : (d.0 == 0) ≡ false = ground arith in
          let t = turn_lem base buffer d.0 d.1 pos in
          let e : digits_loop 33 value base buffer 0 b ≡ some (d.0, d.1) =
            d.2 ∙ ap (λ x. some (x, d.1)) (omega arith) in
          (
            d.0,
            t.0,
            simp (lo, hi, plus, e, some_left) t.1,
            pos,
            d.4,
            t.2,
            t.3 ∙ ap (λ q. reading_back base d.1 q d.0) (omega arith) ∙ d.3,
          )
    ]
