-- ===== src/Scheduler/Wake.antt =====
-- What P, V, passeren and verhogen share: the first process that waits for a semaphore goes to the
-- back of the ready queue.
use pand_os.Prelude.{
  ◌≡◌, ◌≢◌, subst, false, inr, List, [], ◌∷◌, ◌++◌, arith, ◌==◌, ◌∈◌, ◌∉◌, has-append,
}
use pand_os.Mem.{Addr, null, Mem, relink, Run, Cmd, and_then}
use pand_os.Fields.{s_procq, s_freelink}
use pand_os.Outcome.{Relinks, Relinks-any}
use pand_os.Links.Rings.{Ring, Ring-frame, erase-not_mem}
use pand_os.Env.{Env, Laws, set_table}
use pand_os.Ash.{remove_blocked}
use pand_os.Ash.Block.{waits}
use pand_os.Ash.Wake.{IsWaiting, table_after, free_after, remove_blocked-Left}
use pand_os.Scheduler.{enqueue_ready}
use pand_os.Scheduler.Ready.{enqueue_ready-append}

-- No link of the ready queue is one of the semaphore's queue or of the free descriptors.
abbrev pub IsSeparate : (e : Env) (sem : Addr) (rs xs fs : List Addr) → Type 0
IsSeparate e sem rs xs fs =
    (a : Addr)
    → a ∈ e.ready_queue ∷ rs
    → a ∉ s_freelink sem ∷ e.semd_free_h ∷ fs ++ s_procq sem ∷ xs

abbrev pub Woken :
    (e : Env) (sem p : Addr) (ps fs rs : List Addr) → (Addr → Addr) → (Addr → Addr) → Type 0
Woken e sem p ps fs rs n v =
    Ring n v e.ready_queue (rs ++ p ∷ [])
    × Ring n v (s_procq sem) ps
    × Ring n v e.semd_free_h (free_after sem ps fs)

-- The memory once the process is awake.
abbrev pub awake : (sem p : Addr) → List Addr → Mem → Mem
awake sem p ps m = set_table (table_after sem ps m.table) (waits p null m)

module _ (e : Env) (L : Laws e) (m : Mem) (s sem p : Addr) (ps fs rs : List Addr)
    (w : IsWaiting e m s sem (p ∷ ps) fs) (ready : Ring m.next m.prev e.ready_queue rs)
    (out : p ∉ e.ready_queue ∷ rs) (nc : p ≢ m.current_active_process)
    (apart : IsSeparate e sem rs (p ∷ ps) fs) where
  pub wake_any :
      {B : Type 0} (P : Run B → Type 0) (k : Addr → Cmd B)
      → ((n v : Addr → Addr) → Woken e sem p ps fs rs n v → P (k p (relink (awake sem p ps m) n v)))
      → P (and_then (remove_blocked e s m) (λ a m1. and_then (enqueue_ready e a m1) (λ _. k a)))
  wake_any P k next = Relinks-any P _ (remove_blocked-Left e L m s sem p ps fs w) λ a n v q.
      let m1 = relink (awake sem p ps m) n v in
      let ready' : Ring n v e.ready_queue rs = Ring-frame n v ready (λ x i. q.5 x (apart x i)) in
      let miss : (p == m.current_active_process) ≡ false = ground arith in
      simp q.0 (
        Relinks-any P _
          (enqueue_ready-append e L m1 p rs ready' (ground (arith, w.queue.mapped)) (ground arith)
            (inr (ground arith, (q.3, q.4))))
          λ b n2 v2 q2. simp miss (
            next n2 v2 (
              subst (λ zs. Ring n2 v2 e.ready_queue (zs ++ p ∷ []))
                  (erase-not_mem p rs (ground arith)) q2.0,
              Ring-frame n2 v2 q.1
                  (λ x i. ground (arith, q2.1 x, apart x, has-append x fs (s_procq sem ∷ p ∷ ps))),
              Ring-frame n2 v2 q.2 (λ x i. ground (
                arith,
                q2.1 x,
                apart x,
                apart p,
                w.apart x,
                has-append x fs (s_procq sem ∷ p ∷ ps),
              )),
            )))

  pub wake_then :
      {B : Type 0} {m' : Mem} {Q : B → (Addr → Addr) → (Addr → Addr) → Type 0} (k : Addr → Cmd B)
      → ((n v : Addr → Addr)
          → Woken e sem p ps fs rs n v
          → Relinks m' Q (k p (relink (awake sem p ps m) n v)))
      → Relinks m' Q
          (and_then (remove_blocked e s m) (λ a m1. and_then (enqueue_ready e a m1) (λ _. k a)))
  wake_then {m' = m'} {Q = Q} k next = wake_any (Relinks m' Q) k next
