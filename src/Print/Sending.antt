-- ===== src/Print/Sending.antt =====
-- The print cycle of termprint in pandos/stdlib/print.c, on a terminal that takes every character.
use mathlib.Core.Option.{bind}
use pand_os.Prelude.{
  ℕ, zero, suc, ◌+◌, ◌*◌, ◌%◌, ◌^◌, ◌<◌, ◌≡◌, ◌≢◌, ◌⊎◌, inl, inr, refl, false, true, some, ◌||◌,
  arith, ltb, ◌==◌, bit_and, bit_or, List, [], ◌∷◌, length,
}
use pand_os.Mem.{Addr}
use pand_os.Strings.{Bytes}
use pand_os.Print.{
  Terminals, Console, transmitted, ack_command, print_chr, char_offset, status_mask, term0_addr,
  char_value, store, termstat, wait_loop, print_loop, termprint,
}

-- From `s` on, the characters of the string are `cs`.
abbrev pub IsText : Bytes → Addr → List ℕ → Type 0
IsText b s [] = b s ≡ 0
IsText b s (c ∷ cs) = (b s ≡ c) × (c ≢ 0) × IsText b (s + 1) cs

-- What is stored at the command register for the characters, the latest first: for each one its
-- command and the acknowledgement.
abbrev pub commands : Addr → List ℕ → List (Addr × ℕ) → List (Addr × ℕ)
commands p [] s = s
commands p (c ∷ cs) s =
    commands p cs
      ((p, ack_command) ∷ (p, bit_or ((char_value c * 2 ^ char_offset) % 2 ^ 32) print_chr) ∷ s)

-- The terminal is busy at the reads from the `n`th on, fewer than `rounds` times, and then it has
-- transmitted.
abbrev pub Sends : (busy : ℕ) → (poll : ℕ → ℕ) → (rounds n : ℕ) → Type 0
Sends busy poll zero n = true ≡ false
Sends busy poll (suc k) n =
    (bit_and (poll n) status_mask ≡ transmitted)
    ⊎ ((bit_and (poll n) status_mask ≡ busy) × Sends busy poll k (n + 1))

module _ (t : Terminals) (poll : ℕ → ℕ) (fuel : ℕ) (other : t.busy ≢ 5) where
  wait_loop-Sends :
      (k : ℕ) (c : Console)
      → Sends t.busy poll k c.reads
      → (r : ℕ) × (c.reads < r)
        × (wait_loop t poll fuel k
              (bit_and (poll c.reads) status_mask)
              (record c { reads = c.reads + 1 })
            ≡ some (5, record c { reads = r }))
  unfolding wait_loop termstat
  wait_loop-Sends zero c e = absurd (ground (arith, e))
  wait_loop-Sends (suc k) c (inl sent) =
      let free : (5 == t.busy) ≡ false = ground (arith, other) in
      (c.reads + 1, omega arith, simp (sent, free) refl)
  wait_loop-Sends (suc k) c (inr (busy, later)) =
      let rest = wait_loop-Sends k (record c { reads = c.reads + 1 }) later in
      let same : (t.busy == t.busy) ≡ true = ground arith in
      (rest.0, omega (arith, rest.1), simp (busy, same) rest.2)

  module _ (first : ℕ) (takes : (n : ℕ) → first < n → Sends t.busy poll fuel n) where
    print_loop-commands :
        (k p s : ℕ) (cs : List ℕ) (c : Console)
        → first < c.reads
        → IsText c.bytes s cs
        → length cs < k
        → (r : ℕ) × (print_loop t poll fuel k p s false c
            ≡ some (false, record c { reads = r; sent = commands p cs c.sent }))
    unfolding print_loop termstat bind
    print_loop-commands zero p s cs c on text lt = absurd (omega arith)
    print_loop-commands (suc k) p s [] c on text lt =
        let stop : (c.bytes s == 0) ≡ true = ground arith in (c.reads, simp stop refl)
    print_loop-commands (suc k) p s (x ∷ cs) c on (at, nz, text) lt =
        let go : (x == 0) ≡ false = ground (arith, nz) in
        let asked : Console =
          store p (bit_or ((char_value x * 2 ^ char_offset) % 2 ^ 32) print_chr) c in
        let waited = wait_loop-Sends fuel asked (takes c.reads on) in
        let after : Console = store p ack_command (record asked { reads = waited.0 }) in
        let rest =
          print_loop-commands k p (s + 1) cs after (omega (arith, on, waited.1)) text
            (omega arith) in
        (rest.0, simp (go, at, waited.2) rest.1)

  available :
      (c : Console)
      → (bit_and (poll c.reads) status_mask ≡ t.ready)
        ⊎ (bit_and (poll c.reads) status_mask ≡ transmitted)
      → (bit_and (poll c.reads) status_mask == t.ready
          || bit_and (poll c.reads) status_mask == transmitted)
        ≡ true
  available c free = ground (arith, free)

  -- On a terminal that exists, is ready or has transmitted at the first read and, read from any
  -- later point on, is busy a number of times within the rounds given and then has transmitted,
  -- termprint of a string of fewer characters than the rounds succeeds: it stores each character's
  -- command and an acknowledgement, in order, and a last acknowledgement, and changes no bytes.
  pub termprint-commands :
      (s term : ℕ) (cs : List ℕ) (c : Console)
      → ((n : ℕ) → c.reads < n → Sends t.busy poll fuel n)
      → IsText c.bytes s cs
      → length cs < fuel
      → term < t.dev_per_int
      → (bit_and (poll c.reads) status_mask ≡ t.ready)
        ⊎ (bit_and (poll c.reads) status_mask ≡ transmitted)
      → (r : ℕ) × (termprint t poll fuel s term c
          ≡ some (
            true,
            record c {
              reads = r;
              sent =
                  let p = term0_addr + term * t.devreg_size + t.trancommand * t.devreg_len in
                  (p, ack_command) ∷ commands p cs c.sent;
            },
          ))
  unfolding termprint termstat bind
  termprint-commands s term cs c takes text lt known free =
      let in_range : ltb term t.dev_per_int ≡ true = ground arith in
      let p = term0_addr + term * t.devreg_size + t.trancommand * t.devreg_len in
      let loop =
        print_loop-commands c.reads takes fuel p s cs (record c { reads = c.reads + 1 })
          (omega arith) text lt in
      (loop.0, simp (in_range, available c free, loop.1) refl)
