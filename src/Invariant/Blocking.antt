-- ===== src/Invariant/Blocking.antt =====
-- insertBlocked of phase1/ash.c keeps the kernel's lists in order.
use pand_os.Prelude.{
  ℕ, ◌≡◌, ◌≢◌, refl, false, ◌⊎◌, inl, inr, List, [], ◌∷◌, arith, ◌==◌, ◌∈◌, ◌∉◌, Bool-cases,
}
use pand_os.Mem.{Addr, null, Mem, relink, ok}
use pand_os.Fields.{s_procq, s_link, s_freelink, semd_of_freelink}
use pand_os.Outcome.{Returns, Relinks-then}
use pand_os.Env.{Env, Laws, set_table}
use pand_os.Ash.{insert_blocked}
use pand_os.Ash.Find.{semd_at}
use pand_os.Ash.Block.{waits, keyed, insert_blocked-known, insert_blocked-new, insert_blocked-full}
use pand_os.Ash.Wake.{is_nil}
use pand_os.Invariant.{place, Layout, View, Holds, IsLoose, Others, SameRest}
use pand_os.Invariant.Places.{
  detached-outside, not_mem-place, Others-outside, free_semd-place, semds-place,
}
use pand_os.Invariant.Known.{known-Holds, joined}
use pand_os.Invariant.Fresh.{free-Ring, head-IsSemd, head-unused, new-Holds}

pub is_nil-ne : (xs : List Addr) → xs ≢ [] → is_nil xs ≡ false
is_nil-ne [] ne = absurd (ne refl)
is_nil-ne (x ∷ xs) ne = refl

-- What insertBlocked leaves where it returns 0.
abbrev pub Joined : Env → (key p : Addr) → Mem → View → ℕ → Mem → Type 0
Joined e key p m v a m' = (a ≡ 0) × Holds e m' (joined p key v) × Others e p m m' × SameRest m m'

module _ (e : Env) (L : Laws e) (o : Layout e) (m : Mem) (v : View) (i : Holds e m v) (key : Addr)
    (nk : key ≢ null) (p : Addr) (l : IsLoose e m p) where
  not_known : v.waiting key ≡ [] → semd_at key m.table ≡ null
  not_known idle = elim (Bool-cases (semd_at key m.table == null)) [
    | inl none ↦ ground arith
    | inr some ↦ absurd ((i.known key (ground arith)).busy idle)
  ]

  new-refines :
      (ss : List Addr)
      → v.semds ≡ ss
      → ss ≢ []
      → semd_at key m.table ≡ null
      → Returns (Joined e key p m v) (insert_blocked e key p m)
  new-refines [] eq ne none = absurd (ne refl)
  new-refines (node ∷ fs) eq ne none =
      let sem = semd_of_freelink node in
      let back : s_freelink sem ≡ node = i.free_link node (rw eq (ground arith)) in
      let eq' : v.semds ≡ s_freelink sem ∷ fs = rw back eq in
      let nobody = i.unknown key none in
      let semd = head-IsSemd e L o m v i key nk p l none sem fs eq' in
      let apart : p ∉ e.semd_free_h ∷ s_freelink sem ∷ fs =
        rw eq' at (detached-outside m p i.semds l.2) in
      let apart' : s_procq sem ∉ s_freelink sem ∷ fs = rw eq' at (
        not_mem-place e (s_procq sem) 220 v.semds (free_semd-place e o m v i)
          (ground (arith, semd))) in
      Relinks-then
        (insert_blocked-new e L m i.keyed key nk p l.0 l.3 sem fs none
          (free-Ring e L o m v i key nk p l none sem fs eq') semd.0
          (head-unused e L o m v i key nk p l none sem fs eq') (ground (arith, semd, l.1, apart))
          (ground (arith, semd, semds-place e o, apart')))
        λ a n w r. (
          r.0,
          rw (nobody, eq) (new-Holds e L o m v i key nk p l none sem fs eq' n w r.1 r.2 r.3),
          Others-outside e p m
              (relink (set_table ((s_link sem, key) ∷ m.table) (waits p key (keyed sem key m))) n w)
              (p ∷ s_procq sem ∷ e.semd_free_h ∷ s_freelink sem ∷ fs) r.3
              (λ a j.
                let known : a ∈ s_freelink sem ∷ fs → place e a ≡ 220 =
                  rw eq' at (free_semd-place e o m v i a) in
                ground (arith, known, l.1, semd, semds-place e o))
              (λ c d lc.
                let out : c ∉ e.semd_free_h ∷ s_freelink sem ∷ fs =
                  rw eq' at (detached-outside m c i.semds lc.2) in
                ground (arith, out, lc.1, semd))
              (λ c d. ground arith) refl,
          (refl, refl, refl, refl, refl, refl),
        )

  -- In a kernel in order, where a process waits for the semaphore or a descriptor is free, a loose
  -- process joins the queue of the semaphore by insertBlocked, which returns 0; every other list,
  -- the counters, the variables and the saved states are as they were.
  pub insert_blocked-refines :
      (v.waiting key ≢ []) ⊎ (v.semds ≢ [])
      → Returns (Joined e key p m v) (insert_blocked e key p m)
  insert_blocked-refines room = elim (Bool-cases (semd_at key m.table == null)) [
    | inl none ↦
        let unknown : semd_at key m.table ≡ null = ground arith in
        let free : v.semds ≢ [] = elim room [
          | inl waited ↦ absurd (waited (i.unknown key unknown))
          | inr free ↦ free
        ] in
        new-refines v.semds refl free unknown
    | inr some ↦
        let ne : semd_at key m.table ≢ null = ground arith in
        let busy = is_nil-ne (v.waiting key) (i.known key ne).busy in
        let sem = semd_at key m.table in
        let q = i.known key ne in
        Relinks-then
          (insert_blocked-known e L m i.keyed key nk p l.0 l.3 sem (v.waiting key) refl ne q.ring
            (detached-outside m p q.ring l.2))
          λ a n w r. (
            r.0,
            simp busy (known-Holds e L o m v i key nk p l ne n w r.1 r.2),
            Others-outside e p m (relink (waits p key m) n w) (p ∷ s_procq sem ∷ v.waiting key) r.2
                (λ a j. ground (arith, l.1, q.is_semd, q.is_pcb a))
                (λ c d lc. ground (arith, detached-outside m c q.ring lc.2)) (λ c d. ground arith)
                refl,
            (refl, refl, refl, refl, refl, refl),
          )
  ]

  -- In a kernel in order, where nobody waits for the semaphore and no descriptor is free,
  -- insertBlocked returns 3 and changes nothing.
  pub insert_blocked-exhausted :
      v.waiting key ≡ [] → v.semds ≡ [] → insert_blocked e key p m ≡ ok 3 m
  insert_blocked-exhausted idle used =
      insert_blocked-full e L m i.keyed key nk p l.0 l.3 (not_known idle) (rw used at i.semds)
