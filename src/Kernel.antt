-- ===== src/Kernel.antt =====
-- What the kernel promises, without its memory: lists of processes and the values of the variables.
-- Which descriptors the blocked processes use is forgotten. The operations are those of
-- phase2/scheduler.c, phase2/interrupt.c (P, V) and phase2/syscall.c (passeren, verhogen).
pub mod Waking
pub mod Semaphores
pub mod Scheduling
pub mod Calls
pub mod Timers
pub mod Devices
pub mod Steps
pub mod Start
pub mod Entry
pub mod Family
pub mod Search
use pand_os.Prelude.{ℕ, ◌≡◌, ◌≢◌, List, [], ◌∷◌, ◌++◌, ◌==◌, if◌then◌else◌, upd}
use pand_os.Mem.{Addr, null, Mem}
use pand_os.Words.{add32, sub32}
use pand_os.Links.Rings.{erase}
use pand_os.Env.{Env}
use pand_os.Invariant.{View, Holds, Runs}
use pand_os.Invariant.Ready.{to_back}

-- The ready processes, the free ones, and those that wait for each semaphore.
pub record Lists : Type 0 where
  pub ready : List Addr
  pub pool : List Addr
  pub waiting : Addr → List Addr

abbrev pub view : Lists → List Addr → View
view a semds = record { ready = a.ready; pool = a.pool; semds = semds; waiting = a.waiting }

-- The memory holds these lists.
pub record Models (e : Env) (m : Mem) (a : Lists) : Type 0 where
  pub semds : List Addr
  pub holds : Holds e m (view a semds)

-- A process goes to the back of the ready queue.
abbrev pub enqueue : Addr → Lists → Lists
enqueue p a = record a { ready = to_back p a.ready }

-- A process waits for a semaphore, behind those that wait already.
abbrev pub join : (p s : Addr) → Lists → Lists
join p s a = record a { waiting = upd a.waiting s (a.waiting s ++ p ∷ []) }

-- A process waits no more.
abbrev pub part : (p s : Addr) → Lists → Lists
part p s a = record a { waiting = upd a.waiting s (erase p (a.waiting s)) }

abbrev pub wake : (p s : Addr) → Lists → Lists
wake p s a = enqueue p (part p s a)

-- What an operation on a semaphore answers and leaves: 1 where it blocks, the variables, the lists.
pub record Effect : Type 0 where
  pub blocked : ℕ
  pub word : Addr → ℕ
  pub lists : Lists

-- The first process that waits is awake; where none does, the semaphore has the value.
abbrev pub release : (s : Addr) (value : ℕ) (word : Addr → ℕ) → Lists → List Addr → Effect
release s value word a [] = record { blocked = 0; word = upd word s value; lists = a }
release s value word a (p ∷ ps) = record { blocked = 0; word = word; lists = wake p s a }

abbrev pub block : (c s : Addr) (word : Addr → ℕ) → Lists → Effect
block c s word a = record { blocked = 1; word = word; lists = join c s a }

-- SYS3 and SYS4 of the process `c`.
pub passeren_spec : (c s : Addr) (word : Addr → ℕ) → Lists → Effect
passeren_spec c s word a =
    if word s == 0 then block c s word a else release s (sub32 (word s) 1) word a (a.waiting s)

pub verhogen_spec : (c s : Addr) (word : Addr → ℕ) → Lists → Effect
verhogen_spec c s word a =
    if word s == 1 then block c s word a else release s (add32 (word s) 1) word a (a.waiting s)

-- The memory is as the effect tells; where the process was not blocked, it still runs.
pub record Shows (e : Env) (m : Mem) (x : Effect) (blocked : ℕ) (m' : Mem) : Type 0 where
  pub answer : blocked ≡ x.blocked
  pub word : m'.word ≡ x.word
  pub models : Models e m' x.lists
  pub runs : x.blocked ≡ 0 → Runs e m'
  pub sched : m'.sched ≡ m.sched
  pub cpu : m'.cpu ≡ m.cpu
  pub state : m'.state ≡ m.state
  pub time : m'.p_time ≡ m.p_time
