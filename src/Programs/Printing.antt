-- ===== src/Programs/Printing.antt =====
-- print of pandos/phase2/p2test_04.c on a kernel whose terminal works.
use pand_os.Prelude.{ℕ, ◌+◌, ◌*◌, ◌%◌, ◌^◌, ◌≡◌, bit_and, bit_or, List, [], ◌∷◌, ◌++◌, some}
use pand_os.Print.{char_value, char_offset, print_chr, term0_addr}
use pand_os.Syscall.{passeren_sys, verhogen_sys, do_io_sys}
use pand_os.Programs.{Variables, recvd, termstat_mask}
use pand_os.Programs.Runs.{Machine}

-- The commands that transmit the characters.
abbrev pub commands : List ℕ → List ℕ
commands [] = []
commands (c ∷ s) = bit_or print_chr ((char_value c * 2 ^ char_offset) % 2 ^ 32) ∷ commands s

-- A kernel on which SYS3 and SYS4 on the mutex return, with whatever is in the register then, and SYS5 sends the second word of the array to
-- the terminal and answers in the first that the character was received.
pub record Works {S : Type 0} (x : Variables) (k : Machine S) (sent : S → List ℕ) : Type 0 where
  pub locked : S → S
  pub unlocked : S → S
  pub lock_reply : S → ℕ
  pub unlock_reply : S → ℕ
  pub sends : S → S
  pub lock_lem :
      (s : S) → k.answer passeren_sys x.sem_term_mut 0 0 s ≡ some (lock_reply s, locked s)
  pub unlock_lem :
      (s : S) → k.answer verhogen_sys x.sem_term_mut 0 0 s ≡ some (unlock_reply s, unlocked s)
  pub send_lem : (s : S) → k.answer do_io_sys (term0_addr + 8) x.value 0 s ≡ some (0, sends s)
  pub sent-locked : (s : S) → sent (locked s) ≡ sent s
  pub sent-unlocked : (s : S) → sent (unlocked s) ≡ sent s
  pub sent-put : (a v : ℕ) (s : S) → sent (k.put a v s) ≡ sent s
  pub sent-sends : (s : S) → sent (sends s) ≡ sent s ++ k.word s (x.value + 4) ∷ []
  pub received : (s : S) → bit_and (k.word (sends s) x.value) termstat_mask ≡ recvd
  pub word-put : (a v : ℕ) (s : S) → k.word (k.put a v s) a ≡ v
