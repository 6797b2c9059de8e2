-- ===== src/Print.antt =====
-- Output on a terminal: pandos/stdlib/print.c. The bytes are those of Strings; `sent` holds the
-- commands that were stored in the transmitter's register, the latest first, and a read of its status
-- register yields the next value of `poll`. Loops that wait for a device or walk a string have fuel.
pub mod Sending
use mathlib.Core.Option.{bind}
use pand_os.Prelude.{
  ℕ, zero, suc, ◌+◌, ◌*◌, ◌%◌, ◌^◌, Bool, true, false, not, ◌||◌, ltb, ◌==◌, if◌then◌else◌, upd,
  bit_and, bit_or, List, [], ◌∷◌, Option, none, some,
}
use pand_os.Mem.{Addr}
use pand_os.Words.{sub32}
use pand_os.Strings.{Bytes, itoa, strlen, strcpy}

-- TRANSMITTED, ACK, PRINTCHR and TERM0ADDR of print.c
abbrev pub transmitted : ℕ
transmitted = 5

abbrev pub ack_command : ℕ
ack_command = 1

abbrev pub print_chr : ℕ
print_chr = 2

abbrev pub char_offset : ℕ
char_offset = 8

-- STATUSMASK
abbrev pub status_mask : ℕ
status_mask = 0xFF

abbrev pub term0_addr : Addr
term0_addr = 0x10000254

-- DEVREGSIZE, DEVREGLEN, TRANSTATUS, TRANCOMMAND, DEVPERINT, READY and BUSY of the uMPS3 headers
pub record Terminals : Type 0 where
  pub devreg_size : ℕ
  pub devreg_len : ℕ
  pub transtatus : ℕ
  pub trancommand : ℕ
  pub dev_per_int : ℕ
  pub ready : ℕ
  pub busy : ℕ

pub record Console : Type 0 where
  pub bytes : Bytes
  -- the place in okbuf
  pub mp : Addr
  pub reads : ℕ
  pub sent : List (Addr × ℕ)

abbrev pub store : (a v : ℕ) → Console → Console
store a v c = record c { sent = (a, v) ∷ c.sent }

-- a `char` of the MIPS compiler is signed
abbrev pub char_value : ℕ → ℕ
char_value c = if ltb c 128 then c else sub32 c 256

module _ (t : Terminals) (poll : ℕ → ℕ) (fuel : ℕ) where
  pub termstat : Console → ℕ × Console
  termstat c = (bit_and (poll c.reads) status_mask, record c { reads = c.reads + 1 })

  -- `while (stat == BUSY) stat = termstat(statusp);`
  pub wait_loop : (rounds stat : ℕ) → Console → Option (ℕ × Console)
  wait_loop zero stat c = none
  wait_loop (suc k) stat c =
      let next = termstat c in
      let rest = wait_loop k next.0 next.1 in if stat == t.busy then rest else some (stat, c)

  -- The print cycle; the result is `error`. `str++` is outside of the `else`.
  pub print_loop : (rounds commandp str : ℕ) → Bool → Console → Option (Bool × Console)
  print_loop zero commandp str error c = none
  print_loop (suc k) commandp str error c =
      if c.bytes str == 0 || error
      then some (error, c)
      else bind
          (let next = termstat (
              store commandp
                (bit_or ((char_value (c.bytes str) * 2 ^ char_offset) % 2 ^ 32) print_chr) c) in
            wait_loop fuel next.0 next.1)
          λ (stat, c').
            let failed = not (stat == transmitted) in
            print_loop k commandp (str + 1) failed
              (if failed then c' else store commandp ack_command c')

  pub termprint : (str term : ℕ) → Console → Option (Bool × Console)
  unfolding print_loop
  termprint str term c =
      if ltb term t.dev_per_int
      then (let commandp = term0_addr + term * t.devreg_size + t.trancommand * t.devreg_len in
          let first = termstat c in
          bind
            (if first.0 == t.ready || first.0 == transmitted
              then print_loop fuel commandp str false first.1
              else some (true, first.1))
            λ (error, c'). some (not error, store commandp ack_command c'))
      else some (false, c)

  -- `while ((*mp++ = *strp++) != '\0') ; mp--;`
  pub okbuf_loop : (rounds strp : ℕ) → Console → Option Console
  okbuf_loop zero strp c = none
  okbuf_loop (suc k) strp c =
      let copied = record c { bytes = upd c.bytes c.mp (c.bytes strp) } in
      if c.bytes strp == 0
      then some copied
      else okbuf_loop k (strp + 1) (record copied { mp = c.mp + 1 })

  pub addokbuf : Addr → Console → Option Console
  unfolding okbuf_loop termprint
  addokbuf strp c = bind (okbuf_loop fuel strp c) λ c'. bind (termprint strp 1 c') λ r. some r.1

  -- `strcpy(&buff[j], text); j += strlen(text);`
  pub put_text : (buff text j : ℕ) → Bytes → Option (ℕ × Bytes)
  put_text buff text j b =
      bind (strcpy fuel (buff + j) text b) λ b'. bind (strlen fuel text b') λ n. some (j + n, b')

  -- `for (int i = 0; i < 16-strlen(tmp); i++) strcpy(&buff[j++], "0");`
  pub pad_loop : (rounds buff j : ℕ) → Bytes → ℕ × Bytes
  pad_loop zero buff j b = (j, b)
  pad_loop (suc k) buff j b = pad_loop k buff (j + 1) (upd (upd b (buff + j) 48) (buff + j + 1) 0)

  -- `itoa(va_arg(vl, int), tmp, base);` and the text of `tmp`
  pub put_int : (value base buff tmp j : ℕ) → Bytes → Option (ℕ × Bytes)
  unfolding put_text
  put_int value base buff tmp j b = bind (itoa value tmp base b) λ b'. put_text buff tmp j b'

  pub put_binary : (value buff tmp j : ℕ) → Bytes → Option (ℕ × Bytes)
  unfolding put_text pad_loop
  put_binary value buff tmp j b = bind (itoa value tmp 2 b) λ b'.
      bind (strlen fuel tmp b')
        λ n. let padded = pad_loop (sub32 16 n) buff j b' in put_text buff tmp padded.0 padded.1

  -- The switch over the character behind the `%`, where it takes an argument.
  pub convert : (ch value buff tmp j : ℕ) → Bytes → Option (ℕ × Bytes)
  unfolding put_int put_binary
  convert ch value buff tmp j b =
      if ch == 99
      then some (j + 1, upd b (buff + j) (value % 2 ^ 8))
      else if ch == 100
      then put_int value 10 buff tmp j b
      else if ch == 120
      then put_int value 16 buff tmp j b
      else if ch == 98
      then put_binary value buff tmp j b
      else if ch == 115
      then put_text buff value j b
      else put_int value 16 buff tmp (j + 2)
          (upd (upd (upd b (buff + j) 48) (buff + j + 1) 120) (buff + j + 2) 0)

  -- the characters c d x b s p
  abbrev pub takes_argument : ℕ → Bool
  takes_argument ch = ch == 99 || ch == 100 || ch == 120 || ch == 98 || ch == 115 || ch == 112

  -- `va_arg`, which is undefined where no argument is left
  abbrev pub next_argument : List ℕ → Option (ℕ × List ℕ)
  next_argument [] = none
  next_argument (a ∷ rest) = some (a, rest)

  -- One round of the loop: the next `i` and `j`, the arguments left and the bytes.
  pub format_step : (str i buff tmp j : ℕ) → List ℕ → Bytes → Option (ℕ × ℕ × List ℕ × Bytes)
  unfolding convert
  format_step str i buff tmp j args b =
      if not (b (str + i) == 37)
      then some (i + 1, j + 1, args, upd b (buff + j) (b (str + i)))
      else if not (takes_argument (b (str + i + 1)))
      then some (i + 2, j, args, b)
      else bind (next_argument args) λ (a, rest).
        bind (convert (b (str + i + 1)) a buff tmp j b) λ (j', b'). some (i + 2, j', rest, b')

  -- `while (str && str[i])`
  pub format_loop : (rounds str i buff tmp j : ℕ) → List ℕ → Bytes → Option (ℕ × Bytes)
  unfolding format_step
  format_loop zero str i buff tmp j args b = none
  format_loop (suc k) str i buff tmp j args b =
      if str == 0 || b (str + i) == 0
      then some (j, b)
      else bind (format_step str i buff tmp j args b)
          λ (i', j', rest, b'). format_loop k str i' buff tmp j' rest b'

  -- `buff` and `tmp` are the addresses of the local arrays.
  pub printf : (str buff tmp : ℕ) → List ℕ → Console → Option (ℕ × Console)
  unfolding format_loop addokbuf
  printf str buff tmp args c =
      bind (format_loop fuel str 0 buff tmp 0 args c.bytes)
        λ (j, b). bind (addokbuf buff (record c { bytes = upd b (buff + j) 0 })) λ c'. some (j, c')
