-- ===== src/Invariant/Places.antt =====
-- The lists of the kernel share no address.
use pand_os.Prelude.{
  ℕ, ◌≡◌, ◌≢◌, refl, false, Bool-cases, ◌⊎◌, inl, inr, List, [], ◌∷◌, ◌++◌, arith, ◌==◌, ◌∈◌, ◌∉◌,
  has, has-append,
}
use pand_os.Mem.{Addr, Mem}
use pand_os.Fields.{s_procq}
use pand_os.Links.Rings.{Ring, Ring-frame, SameOutside, next-mapped}
use pand_os.Env.{Env}
use pand_os.Pcb.Unlink.{IsDetached}
use pand_os.Invariant.{place, Layout, View, IsQueue, Holds, IsLoose, Others}

-- The lists share no address.
pub record Separate (xs ys : List Addr) : Type 0 where
  pub apart : (a : Addr) → a ∈ xs → a ∉ ys

pub not_mem-of : (a : Addr) (xs : List Addr) → (a ∈ xs → a ≢ a) → a ∉ xs
not_mem-of a xs never = elim (Bool-cases (has a xs)) [ inl i ↦ absurd (never i refl) | inr o ↦ o ]

-- An address of another place is not in the list.
pub not_mem-place :
    (e : Env) (a : Addr) (k : ℕ) (xs : List Addr)
    → ((x : Addr) → x ∈ xs → place e x ≡ k)
    → (place e a == k) ≡ false
    → a ∉ xs
not_mem-place e a k xs places miss = not_mem-of a xs λ i. ground (arith, places a i)

pub Separate-swap : {xs ys : List Addr} → Separate xs ys → Separate ys xs
Separate-swap {xs} s = record { apart = λ a i. not_mem-of a xs λ j. ground (arith, s.apart a j) }

pub Separate-cons :
    {h h' : Addr} {xs ys : List Addr}
    → h ≢ h'
    → h ∉ ys
    → h' ∉ xs
    → Separate xs ys
    → Separate (h ∷ xs) (h' ∷ ys)
Separate-cons ne o o' s = record { apart = λ a i. ground (arith, s.apart a) }

pub Separate-more : {xs ys : List Addr} (p : Addr) → p ∉ xs → Separate xs ys → Separate xs (p ∷ ys)
Separate-more p out s = record { apart = λ a i. ground (arith, s.apart a) }

pub Separate-append :
    {xs : List Addr} (ys zs : List Addr) → Separate xs ys → Separate xs zs → Separate xs (ys ++ zs)
Separate-append ys zs s t = record {
  apart = λ a i. ground (arith, has-append a ys zs, s.apart a, t.apart a);
}

-- A list survives a change elsewhere.
pub Ring-outside :
    {n v : Addr → Addr} {h : Addr} {xs : List Addr} (m : Mem) (fp : List Addr)
    → Ring m.next m.prev h xs
    → SameOutside fp m n v
    → Separate (h ∷ xs) fp
    → Ring n v h xs
Ring-outside {n} {v} m fp r same s = Ring-frame n v r λ x i. same x (s.apart x i)

-- A process in no list is not in this one.
pub detached-outside :
    {h : Addr} {xs : List Addr} (m : Mem) (p : Addr)
    → Ring m.next m.prev h xs
    → IsDetached m p
    → p ∉ h ∷ xs
detached-outside {h} {xs} m p r d = not_mem-of p (h ∷ xs) λ i. ground (arith, next-mapped r p i)

module _ (e : Env) where
  pub ready-place : place e e.ready_queue ≡ 1
  unfolding place
  ready-place = ground arith

  module _ (o : Layout e) where
    pub pool-place : place e e.pcb_free_h ≡ 2
    unfolding place
    pool-place = ground (arith, o.pool-ready)

    pub semds-place : place e e.semd_free_h ≡ 3
    unfolding place
    semds-place = ground (arith, o.semds-ready, o.semds-pool)

module _ (e : Env) (o : Layout e) (m : Mem) (v : View) (i : Holds e m v) where
  pub free_semd-place : (a : Addr) → a ∈ v.semds → place e a ≡ 220
  free_semd-place a j = cc (i.free_link a j, (i.free_semd a j).3)

  pub Separate-ready_pool : Separate (e.ready_queue ∷ v.ready) (e.pcb_free_h ∷ v.pool)
  Separate-ready_pool =
      Separate-cons (ground (arith, o.pool-ready))
        (not_mem-place e _ 4 v.pool (λ a j. (i.pool_pcb a j).0) (ground (arith, ready-place e)))
        (not_mem-place e _ 4 v.ready (λ a j. (i.ready_pcb a j).0) (ground (arith, pool-place e o)))
        (record { apart = i.apart })

  pub Separate-ready_semds : Separate (e.ready_queue ∷ v.ready) (e.semd_free_h ∷ v.semds)
  Separate-ready_semds =
      Separate-cons (ground (arith, o.semds-ready))
        (not_mem-place e _ 220 v.semds free_semd-place (ground (arith, ready-place e)))
        (not_mem-place e _ 4 v.ready (λ a j. (i.ready_pcb a j).0) (ground (arith, semds-place e o)))
        (record {
          apart = λ a j.
              not_mem-place e _ 220 v.semds free_semd-place (ground (arith, i.ready_pcb a j));
        })

  pub Separate-pool_semds : Separate (e.pcb_free_h ∷ v.pool) (e.semd_free_h ∷ v.semds)
  Separate-pool_semds =
      Separate-cons (ground (arith, o.semds-pool))
        (not_mem-place e _ 220 v.semds free_semd-place (ground (arith, pool-place e o)))
        (not_mem-place e _ 4 v.pool (λ a j. (i.pool_pcb a j).0) (ground (arith, semds-place e o)))
        (record {
          apart =
              λ a j. not_mem-place e _ 220 v.semds free_semd-place (ground (arith, i.pool_pcb a j));
        })

  module _ (key sem : Addr) (xs : List Addr)
      (q : IsQueue e m.links m.p_sem_add v.semds key sem xs) where
    pub Separate-ready_queue : Separate (e.ready_queue ∷ v.ready) (s_procq sem ∷ xs)
    Separate-ready_queue =
        Separate-cons (ground (arith, ready-place e, q.is_semd))
          (not_mem-place e _ 4 xs (λ a j. (q.is_pcb a j).0) (ground (arith, ready-place e)))
          (not_mem-place e _ 4 v.ready (λ a j. (i.ready_pcb a j).0) (ground (arith, q.is_semd)))
          (record {
            apart = λ a j.
                not_mem-of a xs λ l. ground (arith, i.ready_idle a j, q.blocked a l, q.key_mapped);
          })

    pub Separate-pool_queue : Separate (e.pcb_free_h ∷ v.pool) (s_procq sem ∷ xs)
    Separate-pool_queue =
        Separate-cons (ground (arith, pool-place e o, q.is_semd))
          (not_mem-place e _ 4 xs (λ a j. (q.is_pcb a j).0) (ground (arith, pool-place e o)))
          (not_mem-place e _ 4 v.pool (λ a j. (i.pool_pcb a j).0) (ground (arith, q.is_semd)))
          (record {
            apart = λ a j.
                not_mem-of a xs λ l. ground (arith, i.pool_idle a j, q.blocked a l, q.key_mapped);
          })

    pub Separate-semds_queue : Separate (e.semd_free_h ∷ v.semds) (s_procq sem ∷ xs)
    Separate-semds_queue =
        Separate-cons (ground (arith, semds-place e o, q.is_semd))
          (not_mem-place e _ 4 xs (λ a j. (q.is_pcb a j).0) (ground (arith, semds-place e o)))
          (not_mem-place e _ 220 v.semds free_semd-place (ground (arith, q.is_semd)))
          (record {
            apart = λ a j.
                not_mem-place e _ 4 xs (λ b l. (q.is_pcb b l).0)
                  (ground (arith, free_semd-place a j));
          })

    pub Separate-queues :
        (key' : Addr) (sem' : Addr) (ys : List Addr)
        → IsQueue e m.links m.p_sem_add v.semds key' sem' ys
        → key' ≢ key
        → sem' ≢ sem
        → Separate (s_procq sem' ∷ ys) (s_procq sem ∷ xs)
    Separate-queues key' sem' ys r ne ns =
        Separate-cons (omega arith)
          (not_mem-place e _ 4 xs (λ a j. (q.is_pcb a j).0) (ground (arith, r.is_semd)))
          (not_mem-place e _ 4 ys (λ a j. (r.is_pcb a j).0) (ground (arith, q.is_semd)))
          (record {
            apart = λ a j. not_mem-of a xs λ l. ground (arith, r.blocked a j, q.blocked a l);
          })

pub mem-snoc : (a p : Addr) (xs : List Addr) → a ∈ xs ++ p ∷ [] → (a ≡ p) ⊎ (a ∈ xs)
mem-snoc a p xs i = elim (Bool-cases (a == p)) [
  | inl hit ↦ inl (ground arith)
  | inr miss ↦ inr (ground (arith, has-append a xs (p ∷ [])))
]

pub snoc-ne-nil : (p : Addr) (xs : List Addr) → xs ++ p ∷ [] ≢ []
snoc-ne-nil p [] e = ground (arith, e)
snoc-ne-nil p (x ∷ xs) e = ground (arith, e)

-- A loose process that a change spares stays loose.
pub IsLoose-outside :
    (e : Env) (m m' : Mem) (fp : List Addr) (c : Addr)
    → IsLoose e m c
    → SameOutside fp m m'.next m'.prev
    → c ∉ fp
    → m'.p_sem_add c ≡ m.p_sem_add c
    → IsLoose e m' c
IsLoose-outside e m m' fp c l same out waits =
    (l.0, l.1, ground (arith, same c out, l.2), ground (arith, l.3))

-- No link of the process tree.
abbrev pub IsQueueLink : Env → Addr → Type 0
IsQueueLink e a = (place e a ≢ 16) × (place e a ≢ 24)

-- A change at links of queues that spares the loose processes but one.
pub Others-outside :
    (e : Env) (p : Addr) (m m' : Mem) (fp : List Addr)
    → SameOutside fp m m'.next m'.prev
    → ((a : Addr) → a ∈ fp → IsQueueLink e a)
    → ((c : Addr) → c ≢ p → IsLoose e m c → c ∉ fp)
    → ((c : Addr) → c ≢ p → m'.p_sem_add c ≡ m.p_sem_add c)
    → m'.p_parent ≡ m.p_parent
    → Others e p m m'
Others-outside e p m m' fp same queues spares waits parent = record {
  loose = λ c d l. IsLoose-outside e m m' fp c l same (spares c d l) (waits c d);
  waits = waits;
  tree = λ x w. same x (not_mem-of x fp λ j. ground (arith, queues x j, w));
  parent = parent;
}
