-- ===== src/Invariant.antt =====
-- The state that phase1/pcb.c, phase1/ash.c and phase2/scheduler.c share, seen as lists: which
-- processes are ready, free or blocked, and where the arrays of pcb.c and ash.c lie.
pub mod Places
pub mod Ready
pub mod Bounds
pub mod Known
pub mod Fresh
pub mod Blocking
pub mod Parting
pub mod Waking
pub mod Room
pub mod Pool
pub mod Tree
use pand_os.Prelude.{
  ℕ, ◌+◌, ◌-◌, ◌*◌, ◌%◌, ◌≡◌, ◌≢◌, false, ◌&&◌, ltb, leb, ◌==◌, if◌then◌else◌, List, [], length,
  ◌∈◌, ◌∉◌, ◌⊎◌,
}
use pand_os.Mem.{Addr, null, Links, Mem}
use pand_os.Fields.{
  p_child, p_sib, s_procq, s_link, s_freelink, semd_of_freelink, sizeof_pcb, sizeof_semd,
}
use pand_os.Links.Rings.{Ring}
use pand_os.Env.{Env}
use pand_os.Pcb.{max_proc}
use pand_os.Pcb.Unlink.{IsDetached}
use pand_os.Ash.Find.{IsKeyed, semd_at}

-- What an address is: 1, 2 and 3 are the heads of the ready queue and of the free lists, 4 and more
-- an offset in a process of the array, 200 and more an offset in a descriptor of the array.
unfoldable pub place : Env → Addr → ℕ
place e a =
    if a == e.ready_queue
    then 1
    else if a == e.pcb_free_h
    then 2
    else if a == e.semd_free_h
    then 3
    else if leb e.pcb_free_table a && ltb a (e.pcb_free_table + max_proc * sizeof_pcb)
    then 4 + (a - e.pcb_free_table) % sizeof_pcb
    else if leb e.semd_free_table a && ltb a (e.semd_free_table + max_proc * sizeof_semd)
    then 200 + (a - e.semd_free_table) % sizeof_semd
    else 0

-- The three heads are different variables.
pub record Layout (e : Env) : Type 0 where
  pub pool-ready : e.pcb_free_h ≢ e.ready_queue
  pub semds-ready : e.semd_free_h ≢ e.ready_queue
  pub semds-pool : e.semd_free_h ≢ e.pcb_free_h

-- A process of the array, by the places of its three links.
abbrev pub IsPcb : Env → Addr → Type 0
IsPcb e p = (place e p ≡ 4) × (place e (p_child p) ≡ 16) × (place e (p_sib p) ≡ 24)

-- A descriptor of the array, likewise.
abbrev pub IsSemd : Env → Addr → Type 0
IsSemd e s =
    (s ≢ null)
    × (place e (s_procq s) ≡ 204)
    × (place e (s_link s) ≡ 212)
    × (place e (s_freelink s) ≡ 220)

-- The lists of the kernel: the ready processes, the free processes, the free descriptors and the
-- processes that wait for each semaphore.
pub record View : Type 0 where
  pub ready : List Addr
  pub pool : List Addr
  pub semds : List Addr
  pub waiting : Addr → List Addr

-- A semaphore in the table: its descriptor and its processes, of which there is at least one.
pub record IsQueue (e : Env) (l : Links) (sem_add : Addr → Addr) (semds : List Addr)
    (key sem : Addr) (xs : List Addr) : Type 0 where
  pub key_mapped : key ≢ null
  pub ring : Ring l.next l.prev (s_procq sem) xs
  pub in_use : s_freelink sem ∉ semds
  pub is_semd : IsSemd e sem
  pub is_pcb : (a : Addr) → a ∈ xs → IsPcb e a
  pub blocked : (a : Addr) → a ∈ xs → sem_add a ≡ key
  pub busy : xs ≢ []

-- The invariant: each list of the view is the ring in memory, a process stands in one of them only,
-- and a semaphore is in the table exactly where a process waits for it.
pub record IsKernel (e : Env) (l : Links) (table : List (Addr × Addr)) (sem_add s_key : Addr → Addr)
    (v : View) : Type 0 where
  pub keyed : IsKeyed s_key table
  pub ready : Ring l.next l.prev e.ready_queue v.ready
  pub pool : Ring l.next l.prev e.pcb_free_h v.pool
  pub semds : Ring l.next l.prev e.semd_free_h v.semds
  pub known :
      (key : Addr)
      → semd_at key table ≢ null
      → IsQueue e l sem_add v.semds key (semd_at key table) (v.waiting key)
  pub unknown : (key : Addr) → semd_at key table ≡ null → v.waiting key ≡ []
  pub ready_pcb : (a : Addr) → a ∈ v.ready → IsPcb e a
  pub ready_idle : (a : Addr) → a ∈ v.ready → sem_add a ≡ null
  pub pool_pcb : (a : Addr) → a ∈ v.pool → IsPcb e a
  pub pool_idle : (a : Addr) → a ∈ v.pool → sem_add a ≡ null
  pub apart : (a : Addr) → a ∈ v.ready → a ∉ v.pool
  pub free_semd : (a : Addr) → a ∈ v.semds → IsSemd e (semd_of_freelink a)
  pub count : length v.semds + length table ≡ max_proc
  pub free_link : (a : Addr) → a ∈ v.semds → s_freelink (semd_of_freelink a) ≡ a

abbrev pub Holds : Env → Mem → View → Type 0
Holds e m v = IsKernel e m.links m.table m.p_sem_add m.s_key v

-- A process that is on no list and waits for nothing, like the one that runs.
abbrev pub IsLoose : Env → Mem → Addr → Type 0
IsLoose e m p = (p ≢ null) × IsPcb e p × IsDetached m p × (m.p_sem_add p ≡ null)

-- The counters, the processor, the variables, the saved states, the arrays that the processes that wait
-- for a device gave and the times of the processes are as before.
abbrev pub SameRest : Mem → Mem → Type 0
SameRest m m' =
    (m'.sched ≡ m.sched)
    × (m'.cpu ≡ m.cpu)
    × (m'.word ≡ m.word)
    × (m'.state ≡ m.state)
    × (m'.p_saved_device_status ≡ m.p_saved_device_status)
    × (m'.p_time ≡ m.p_time)

-- Every other loose process stays loose.
abbrev pub StayLoose : Env → Addr → Mem → Mem → Type 0
StayLoose e p m m' = (c : Addr) → c ≢ p → IsLoose e m c → IsLoose e m' c

-- Every other loose process stays loose, every other process waits for what it waited for, and the
-- process tree is as before: its links are `p_child` and `p_sib` of the processes.
pub record Others (e : Env) (p : Addr) (m m' : Mem) : Type 0 where
  pub loose : StayLoose e p m m'
  pub waits : (c : Addr) → c ≢ p → m'.p_sem_add c ≡ m.p_sem_add c
  pub tree :
      (x : Addr)
      → (place e x ≡ 16) ⊎ (place e x ≡ 24)
      → (m'.next x ≡ m.next x) × (m'.prev x ≡ m.prev x)
  pub parent : m'.p_parent ≡ m.p_parent

-- The process that runs is loose.
abbrev pub Runs : Env → Mem → Type 0
Runs e m = m.current_active_process ≢ null → IsLoose e m m.current_active_process
