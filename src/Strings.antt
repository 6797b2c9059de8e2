-- ===== src/Strings.antt =====
-- Bytes and strings: pandos/stdlib/memory.c and string.c, over a memory of bytes in which every
-- address may be read and written. A `while` over a string has fuel, since nothing else bounds it.
pub mod Copy
pub mod Reverse
pub mod Digits
use pand_os.Prelude.{
  ℕ, zero, suc, ◌+◌, ◌-◌, ◌*◌, ◌/◌, ◌%◌, ◌^◌, Bool, ltb, leb, not, ◌&&◌, ◌||◌, ◌==◌, if◌then◌else◌,
  upd, Option, none, some,
}
use mathlib.Core.Option.{bind}
use pand_os.Mem.{Addr}
use pand_os.Words.{sub32}

abbrev pub Bytes : Type 0
Bytes = Addr → ℕ

-- memory.c
pub memcpy_loop : (rounds i dest src : ℕ) → Bytes → Bytes
memcpy_loop zero i dest src b = b
memcpy_loop (suc k) i dest src b = memcpy_loop k (i + 1) dest src (upd b (dest + i) (b (src + i)))

pub memcpy : (dest src size : ℕ) → Bytes → Bytes
unfolding memcpy_loop
memcpy dest src size b = memcpy_loop size 0 dest src b

pub memset : (s c len : ℕ) → Bytes → Bytes
memset s c zero b = b
memset s c (suc len) b = memset (s + 1) c len (upd b s (c % 2 ^ 8))

-- string.c: `abs` of the least int overflows, which C leaves undefined
pub abs : ℕ → Option ℕ
abs n = if ltb n (2 ^ 31) then some n else if n == 2 ^ 31 then none else some (sub32 0 n)

pub swap : (x y : Addr) → Bytes → Bytes
swap x y b = upd (upd b x (b y)) y (b x)

-- `while (i < j) swap(&buffer[i++], &buffer[j--])`
pub reverse_loop : (rounds buffer i j : ℕ) → Bytes → Option Bytes
reverse_loop zero buffer i j b = none
reverse_loop (suc k) buffer i j b =
    if ltb i j
    then reverse_loop k buffer (i + 1) (j - 1) (swap (buffer + i) (buffer + j) b)
    else some b

-- Each round brings the ends nearer by two.
pub reverse : (buffer i j : ℕ) → Bytes → Option Bytes
unfolding reverse_loop
reverse buffer i j b = reverse_loop (suc j) buffer i j b

pub digit_char : ℕ → ℕ
digit_char r = if leb 10 r then 65 + (r - 10) else 48 + r

-- `while (n)`: the digits of `n`, the lowest first; the result is `i` and the bytes
pub digits_loop : (rounds n base buffer i : ℕ) → Bytes → Option (ℕ × Bytes)
digits_loop zero n base buffer i b = none
digits_loop (suc k) n base buffer i b =
    if n == 0
    then some (i, b)
    else digits_loop k (n / base) base buffer (i + 1) (upd b (buffer + i) (digit_char (n % base)))

-- What itoa does behind the loop: a digit for zero, the sign, the end of the string, and the turn.
pub finish : (value base buffer i : ℕ) → Bytes → Option Bytes
finish value base buffer i b =
    let b0 = if i == 0 then upd b buffer 48 else b in
    let i0 = if i == 0 then 1 else i in
    let negative = not (ltb value (2 ^ 31)) && base == 10 in
    let b1 = if negative then upd b0 (buffer + i0) 45 else b0 in
    let i1 = if negative then i0 + 1 else i0 in reverse buffer 0 (i1 - 1) (upd b1 (buffer + i1) 0)

-- A quotient by two or more has a binary digit less, so 33 rounds are enough for 32 bits.
pub itoa : (value buffer base : ℕ) → Bytes → Option Bytes
itoa value buffer base b =
    if ltb base 2 || ltb 32 base
    then some b
    else bind (abs value)
        λ n. bind (digits_loop 33 n base buffer 0 b) λ (i, b'). finish value base buffer i b'

pub strlen_loop : (rounds str len : ℕ) → Bytes → Option ℕ
strlen_loop zero str len b = none
strlen_loop (suc k) str len b =
    if b (str + len) == 0 then some len else strlen_loop k str (len + 1) b

-- A string in a memory of 2 ^ 32 bytes is shorter than `fuel`, which the caller chooses.
pub strlen : (fuel str : ℕ) → Bytes → Option ℕ
unfolding strlen_loop
strlen fuel str b = strlen_loop fuel str 0 b

pub strcpy_loop : (rounds dest src i : ℕ) → Bytes → Option Bytes
strcpy_loop zero dest src i b = none
strcpy_loop (suc k) dest src i b =
    if b (src + i) == 0
    then some (upd b (dest + i) 0)
    else strcpy_loop k dest src (i + 1) (upd b (dest + i) (b (src + i)))

pub strcpy : (fuel dest src : ℕ) → Bytes → Option Bytes
unfolding strcpy_loop
strcpy fuel dest src b = strcpy_loop fuel dest src 0 b
