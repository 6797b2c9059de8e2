-- ===== src/Ash/Wake.antt =====
-- removeBlocked and outBlocked: a process leaves the queue of its semaphore, and the last one to leave
-- gives the descriptor back.
use pand_os.Prelude.{
  ◌≡◌, ◌≢◌, refl, true, false, List, [], ◌∷◌, ◌++◌, arith, ◌==◌, ◌∈◌, ◌∉◌, has-append,
  if◌then◌else◌, Bool,
}
use pand_os.Mem.{Addr, null, Mem, ok}
use pand_os.Fields.{s_procq, s_link, s_freelink}
use pand_os.Outcome.{Relinks, Relinks-mono}
use pand_os.Links.Rings.{Ring, Ring-frame, SameOutside, first-ne-head, next-head, erase, erase-head}
use pand_os.Env.{Env, Laws, set_table, unhash}
use pand_os.Ash.{head_blocked, remove_blocked, out_blocked}
use pand_os.Ash.Find.{IsKeyed, semd_at, find_semd-semd_at}
use pand_os.Ash.Block.{waits, head_blocked-cons}
use pand_os.Ash.Leave.{out_blocked-busy, out_blocked-last}

-- A semaphore with a descriptor: `xs` wait for it, and `fs` are the free descriptors.
pub record IsWaiting (e : Env) (m : Mem) (key sem : Addr) (xs fs : List Addr) : Type 0 where
  pub keyed : IsKeyed m.s_key m.table
  pub key_mapped : key ≢ null
  pub sem_mapped : sem ≢ null
  pub found : semd_at key m.table ≡ sem
  pub queue : Ring m.next m.prev (s_procq sem) xs
  pub free : Ring m.next m.prev e.semd_free_h fs
  pub apart : (a : Addr) → a ∈ s_freelink sem ∷ e.semd_free_h ∷ fs → a ∉ s_procq sem ∷ xs
  pub in_use : s_freelink sem ∉ e.semd_free_h ∷ fs
  pub waiting : (a : Addr) → a ∈ xs → m.p_sem_add a ≡ key

abbrev pub is_nil : List Addr → Bool
is_nil [] = true
is_nil (x ∷ xs) = false

-- The table and the free list once `xs` wait: the last process to leave gives the descriptor back.
abbrev pub table_after : Addr → List Addr → List (Addr × Addr) → List (Addr × Addr)
table_after sem xs t = if is_nil xs then unhash (s_link sem) t else t

abbrev pub free_after : Addr → List Addr → List Addr → List Addr
free_after sem xs fs = if is_nil xs then s_freelink sem ∷ fs else fs

module _ (e : Env) (L : Laws e) (m : Mem) (key sem : Addr) where
  -- A process is gone from its semaphore, for which `rest` wait, and the free list is as told.
  abbrev pub Left :
      (p : Addr) (rest xs fs : List Addr) → Addr → (Addr → Addr) → (Addr → Addr) → Type 0
  Left p rest xs fs a n v =
      (a ≡ p)
      × Ring n v (s_procq sem) rest
      × Ring n v e.semd_free_h (free_after sem rest fs)
      × (n p ≡ null)
      × (v p ≡ null)
      × SameOutside (s_freelink sem ∷ e.semd_free_h ∷ fs ++ s_procq sem ∷ xs) m n v

  module _ (p : Addr) (xs fs : List Addr) (w : IsWaiting e m key sem xs fs) (i : p ∈ xs) where
    out_blocked-rest :
        (rest : List Addr)
        → erase p xs ≡ rest
        → Relinks
            (set_table (table_after sem rest m.table) (waits p null m))
            (Left p rest xs fs)
            (out_blocked e p m)
    out_blocked-rest [] last =
        out_blocked-last e L sem w.sem_mapped m w.keyed p xs w.queue i key w.key_mapped
          (w.waiting p i) w.found fs last w.free
          (ground (arith, w.in_use, w.apart (s_freelink sem)))
          (ground (arith, w.queue.apart, w.apart (s_procq sem))) (ground (arith, w.apart p))
    out_blocked-rest (x ∷ ys) more =
        Relinks-mono
          (out_blocked-busy e L sem w.sem_mapped m w.keyed p xs w.queue i key w.key_mapped
            (w.waiting p i) w.found x (rw more (ground arith)))
          λ a n v q. (
            q.0,
            rw more at q.1,
            Ring-frame n v w.free (λ y j. q.4 y (w.apart y (ground arith))),
            q.2,
            q.3,
            λ y o. q.4 y (ground (arith, has-append y fs (s_procq sem ∷ xs))),
          )

    -- A process that waits for a semaphore, wherever in its queue, leaves it by outBlocked: it is
    -- returned, unblocked and detached, the others keep their order, and the descriptor goes from
    -- the hash table to the free list exactly where nobody is left.
    pub out_blocked-Left :
        Relinks
          (set_table (table_after sem (erase p xs) m.table) (waits p null m))
          (Left p (erase p xs) xs fs)
          (out_blocked e p m)
    out_blocked-Left = out_blocked-rest (erase p xs) refl

  -- Where p waits first for a semaphore, removeBlocked of the semaphore is outBlocked of p.
  pub remove_blocked-out :
      (p : Addr) (ps fs : List Addr)
      → IsWaiting e m key sem (p ∷ ps) fs
      → remove_blocked e key m ≡ out_blocked e p m
  unfolding remove_blocked out_blocked
  remove_blocked-out p ps fs w =
      let r = w.queue in
      let ek : (key == null) ≡ false = ground (arith, w.key_mapped) in
      let ep : (p == null) ≡ false = ground (arith, r.mapped) in
      let es : (sem == null) ≡ false = ground (arith, w.sem_mapped) in
      let eq : (s_procq sem == null) ≡ false = ground arith in
      let wp : m.p_sem_add p ≡ key = w.waiting p (ground arith) in
      simp (
        ep,
        wp,
        ek,
        find_semd-semd_at e L key m w.keyed,
        w.found,
        es,
        L.empty_lem (s_procq sem) m,
        eq,
        next-head r,
        first-ne-head r,
      )

  -- Where p waits first for a semaphore, removeBlocked returns p, unblocked and detached; the
  -- others still wait, and the descriptor goes from the hash table to the free list exactly where
  -- nobody is left.
  pub remove_blocked-Left :
      (p : Addr) (ps fs : List Addr)
      → IsWaiting e m key sem (p ∷ ps) fs
      → Relinks
          (set_table (table_after sem ps m.table) (waits p null m))
          (Left p ps (p ∷ ps) fs)
          (remove_blocked e key m)
  remove_blocked-Left p ps fs w =
      rw (remove_blocked-out p ps fs w)
        (out_blocked-rest p (p ∷ ps) fs w (ground arith) ps (erase-head p ps))

  pub head_blocked_lem :
      (p : Addr) (ps fs : List Addr)
      → IsWaiting e m key sem (p ∷ ps) fs
      → head_blocked e key m ≡ ok p m
  head_blocked_lem p ps fs w =
      head_blocked-cons e L m w.keyed key w.key_mapped sem p ps w.found w.sem_mapped w.queue
