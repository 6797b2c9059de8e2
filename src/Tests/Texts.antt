-- ===== src/Tests/Texts.antt =====
-- Bytes and strings at concrete memories.
use pand_os.Prelude.{
  false, ◌%◌, ◌==◌, if◌then◌else◌, true, Bool-cases, inl, [], ◌∷◌, ◌+◌, ℕ, ◌+◌, ◌≤◌, ◌<◌, ◌≡◌, refl,
  inr, some, arith, upd,
}
use pand_os.Print.{Terminals, Console, termprint}
use pand_os.Print.Sending.{Sends, commands, termprint-commands}
use pand_os.Strings.{Bytes, strlen, strcpy, itoa}
use pand_os.Strings.Copy.{Copied, IsString, strcpy-Copied}
use pand_os.Strings.Digits.{reading, itoa-reading}

-- "AB" at 10, and 7 elsewhere.
abbrev letters : Bytes
letters = upd (upd (upd (λ a. 7) 10 65) 11 66) 12 0

letters-IsString : IsString letters 10 0 2
letters-IsString = (λ j lo hi. ground arith, refl)

strcpy-Copied_example :
    (strlen 3 10 letters ≡ some 2)
    × (c : Bytes) × (strcpy 3 20 10 letters ≡ some c)
    × Copied 0 20 10 3 letters c
    × (strlen 3 20 c ≡ some 2)
strcpy-Copied_example =
    strcpy-Copied 3 20 10 2 letters letters-IsString (inr (omega arith)) (omega arith)

itoa-reading_example :
    (len : ℕ) × (c : Bytes) × (itoa 42 20 10 letters ≡ some c)
    × (0 < len)
    × (len ≤ 32)
    × (c (20 + len) ≡ 0)
    × (reading 10 c 20 len ≡ 42)
itoa-reading_example = itoa-reading 42 20 10 letters (omega arith) (omega arith) (omega arith)

abbrev terminals : Terminals
terminals = record {
  devreg_size = 16;
  devreg_len = 4;
  transtatus = 2;
  trancommand = 3;
  dev_per_int = 8;
  ready = 1;
  busy = 3;
}

-- It is ready at first, and then busy at every other read.
abbrev ready_then : ℕ → ℕ
ready_then n = if n == 0 then 1 else if n % 2 == 0 then 5 else 3

ready_then-Sends : (n : ℕ) → 0 < n → Sends 3 ready_then 9 n
ready_then-Sends n later =
    let started : (n == 0) ≡ false = ground arith in
    elim (Bool-cases (n % 2 == 0)) [
      | inl even ↦ inl (simp (started, even) refl)
      | inr odd ↦
          let next : ((n + 1) % 2 == 0) ≡ true = ground arith in
          let more : (n + 1 == 0) ≡ false = ground arith in
          inr (simp (started, odd) refl, inl (simp (more, next) refl))
    ]

abbrev console : Console
console = record { bytes = letters; mp = 100; reads = 0; sent = [] }

termprint-commands_example :
    (r : ℕ) × (termprint terminals ready_then 9 10 1 console
      ≡ some (
        true,
        record console {
          reads = r;
          sent = (0x10000270, 1) ∷ commands 0x10000270 (65 ∷ 66 ∷ []) [];
        },
      ))
termprint-commands_example =
    termprint-commands terminals ready_then 9 (omega arith) 10 1 (65 ∷ 66 ∷ []) console
      ready_then-Sends (refl, omega arith, (refl, omega arith, refl)) (omega arith) (omega arith)
      (inl refl)
