-- ===== src/Strings/Copy.antt =====
-- Copies of bytes: memcpy, memset, strlen and strcpy.
use pand_os.Prelude.{
  ℕ, zero, suc, ◌+◌, ◌-◌, ◌%◌, ◌^◌, ◌≤◌, ◌<◌, ◌≡◌, ◌≢◌, ◌⊎◌, inl, inr, ap, Bool-cases, false, true,
  some, arith, ltb, leb, ◌&&◌, if◌then◌else◌, upd, ◌==◌,
}
use pand_os.Mem.{Addr}
use pand_os.Strings.{Bytes, memcpy_loop, memcpy, memset, strlen_loop, strlen, strcpy_loop, strcpy}

-- A copy from low to high addresses reads each byte before it is overwritten.
abbrev pub IsForward : (d s n : ℕ) → Type 0
IsForward d s n = (d ≤ s) ⊎ (s + n ≤ d)

-- `c` is `b` with the bytes `i` to `i + n - 1` from `s` at `d`.
abbrev pub Copied : (i d s n : ℕ) → Bytes → Bytes → Type 0
Copied i d s n b c =
    (a : Addr) → c a ≡ (if leb (d + i) a && ltb a (d + i + n) then b (s + (a - d)) else b a)

memcpy_loop-Copied :
    (k i d s : ℕ) (b : Bytes) → IsForward d s (i + k) → Copied i d s k b (memcpy_loop k i d s b)
unfolding memcpy_loop
memcpy_loop-Copied zero i d s b fwd a = ground arith
memcpy_loop-Copied (suc k) i d s b fwd a =
    ground (arith, memcpy_loop-Copied k (i + 1) d s (upd b (d + i) (b (s + i))) (ground arith) a)

-- Where the destination is not above the source or lies behind its end, memcpy puts the bytes of
-- the source, as they were, at the destination, and changes no other byte.
pub memcpy-Copied : (d s n : ℕ) (b : Bytes) → IsForward d s n → Copied 0 d s n b (memcpy d s n b)
unfolding memcpy
memcpy-Copied d s n b fwd = memcpy_loop-Copied n 0 d s b (ground arith)

pub memset_lem :
    (s c n : ℕ) (b : Bytes) (a : Addr)
    → memset s c n b a ≡ (if leb s a && ltb a (s + n) then c % 2 ^ 8 else b a)
unfolding memset
memset_lem s c zero b a = ground arith
memset_lem s c (suc n) b a = ground (arith, memset_lem (s + 1) c n (upd b s (c % 2 ^ 8)) a)

-- From `s + i` on, the bytes before `s + n` are not 0, and that one is.
abbrev pub IsString : Bytes → (s i n : ℕ) → Type 0
IsString b s i n = ((j : ℕ) → i ≤ j → j < n → b (s + j) ≢ 0) × (b (s + n) ≡ 0)

strlen_loop_lem :
    (k i s n : ℕ) (b : Bytes) → IsString b s i n → i ≤ n → n < k + i → strlen_loop k s i b ≡ some n
unfolding strlen_loop
strlen_loop_lem zero i s n b str le fuel = absurd (omega arith)
strlen_loop_lem (suc k) i s n b str le fuel = elim (Bool-cases (i == n)) [
  | inl last ↦
      let e : i ≡ n = ground arith in
      let stop : (b (s + i) == 0) ≡ true = ground arith in simp stop (ap some e)
  | inr more ↦
      let go : (b (s + i) == 0) ≡ false = ground (arith, str.0 i (omega arith) (ground arith)) in
      simp go (
        strlen_loop_lem k (i + 1) s n b (λ j lo hi. str.0 j (omega arith) hi, str.1) (ground arith)
          (omega arith))
]

strcpy_loop-Copied :
    (k i d s n : ℕ) (b : Bytes)
    → IsString b s i n
    → IsForward d s (n + 1)
    → i ≤ n
    → n < k + i
    → (c : Bytes) × (strcpy_loop k d s i b ≡ some c) × Copied i d s (n + 1 - i) b c
unfolding strcpy_loop
strcpy_loop-Copied zero i d s n b str fwd le fuel = absurd (omega arith)
strcpy_loop-Copied (suc k) i d s n b str fwd le fuel = elim (Bool-cases (i == n)) [
  | inl last ↦
      let e : i ≡ n = ground arith in
      let stop : (b (s + i) == 0) ≡ true = ground arith in
      (upd b (d + i) 0, simp stop, λ a. ground arith)
  | inr more ↦
      let go : (b (s + i) == 0) ≡ false = ground (arith, str.0 i (omega arith) (ground arith)) in
      let b1 = upd b (d + i) (b (s + i)) in
      let text : IsString b1 s (i + 1) n =
        (λ j lo hi. ground (arith, str.0 j (omega arith) hi), ground (arith, str.1)) in
      let r = strcpy_loop-Copied k (i + 1) d s n b1 text fwd (ground arith) (omega arith) in
      (r.0, simp go r.1, λ a. ground (arith, r.2 a))
]

-- For a string of n characters, more rounds than n, and a destination that is not above the source
-- or lies behind its end, strlen is n, and strcpy ends and puts the n + 1 bytes at the destination,
-- changes nothing else, and leaves a string of length n there.
pub strcpy-Copied :
    (fuel d s n : ℕ) (b : Bytes)
    → IsString b s 0 n
    → IsForward d s (n + 1)
    → n < fuel
    → (strlen fuel s b ≡ some n)
      × (c : Bytes) × (strcpy fuel d s b ≡ some c)
      × Copied 0 d s (n + 1) b c
      × (strlen fuel d c ≡ some n)
unfolding strlen strcpy
strcpy-Copied fuel d s n b str fwd enough =
    let r = strcpy_loop-Copied fuel 0 d s n b str fwd (omega arith) (omega arith) in
    let text : IsString r.0 d 0 n =
      (λ j lo hi. ground (arith, r.2 (d + j), str.0 j lo hi), ground (arith, r.2 (d + n), str.1)) in
    (
      strlen_loop_lem fuel 0 s n b str (omega arith) (omega arith),
      r.0,
      r.1,
      λ a. ground (arith, r.2 a),
      strlen_loop_lem fuel 0 d n r.0 text (omega arith) (omega arith),
    )
