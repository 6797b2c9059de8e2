-- ===== src/Tests/Order.antt =====
-- A kernel in order: 2000 runs, 2192 and 2384 are ready, 2576 waits on the semaphore at 9000, 2768 and
-- 2960 are free, and so are 19 of the 20 descriptors.
use pand_os.Prelude.{
  ◌≡◌, refl, true, inl, inr, Bool, not, ◌&&◌, Bool-cases, List, [], ◌∷◌, arith, ◌==◌, ◌∈◌, upd,
}
use pand_os.Mem.{Addr, null, Mem}
use pand_os.Fields.{p_child, p_sib, s_procq, s_link, s_freelink, semd_of_freelink}
use pand_os.Links.Rings.{Ring}
use pand_os.Invariant.{place, Layout, IsPcb, IsSemd, IsQueue, Holds, Runs}
use pand_os.Kernel.{Lists, view}
use pand_os.Kernel.Steps.{InOrder}
use pand_os.Instance.{env}
use pand_os.Tests.States.{chain, no_links, busy}

abbrev pub free_links : List Addr
free_links =
    7048 ∷ 7076 ∷ 7104 ∷ 7132 ∷ 7160 ∷ 7188 ∷ 7216 ∷ 7244 ∷ 7272 ∷ 7300 ∷ 7328 ∷ 7356 ∷ 7384 ∷ 7412
    ∷ 7440 ∷ 7468 ∷ 7496 ∷ 7524 ∷ 7552 ∷ []

abbrev pub ordered : Mem
ordered = record busy {
  links = chain 1000 1000 (2192 ∷ 2384 ∷ []) (
      chain 1008 1008 (2768 ∷ 2960 ∷ [])
        (chain 1016 1016 free_links (chain 7004 7004 (2576 ∷ []) no_links)));
}

abbrev pub ordered_lists : Lists
ordered_lists = record {
  ready = 2192 ∷ 2384 ∷ [];
  pool = 2768 ∷ 2960 ∷ [];
  waiting = upd (λ s. []) 9000 (2576 ∷ []);
}

pub layout : Layout env
layout = record { pool-ready = omega arith; semds-ready = omega arith; semds-pool = omega arith }

-- A test that holds of every node holds of each.
every : (Addr → Bool) → List Addr → Bool
every f [] = true
every f (x ∷ xs) = f x && every f xs

every-mem :
    (f : Addr → Bool) (xs : List Addr) → every f xs ≡ true → (a : Addr) → a ∈ xs → f a ≡ true
unfolding every
every-mem f [] h a i = ground (arith, i)
every-mem f (x ∷ xs) h a i = elim (Bool-cases (a == x)) [
  | inl hit ↦ let same : a ≡ x = ground arith in rw same (ground arith)
  | inr miss ↦ every-mem f xs (ground arith) a (ground arith)
]

is_pcb : Addr → Bool
is_pcb p = place env p == 4 && place env (p_child p) == 16 && place env (p_sib p) == 24

is_pcb-IsPcb : (p : Addr) → is_pcb p ≡ true → IsPcb env p
unfolding is_pcb
is_pcb-IsPcb p h = (ground arith, ground arith, ground arith)

is_semd : Addr → Bool
is_semd s =
    not (s == null)
    && place env (s_procq s) == 204
    && place env (s_link s) == 212
    && place env (s_freelink s) == 220

is_semd-IsSemd : (s : Addr) → is_semd s ≡ true → IsSemd env s
unfolding is_semd
is_semd-IsSemd s h = (ground arith, ground arith, ground arith, ground arith)

semds-Ring : Ring ordered.next ordered.prev 1016 free_links
semds-Ring = record { links = omega arith; apart = ground arith; mapped = refl }

pub pcbs-IsPcb : (a : Addr) → a ∈ 2000 ∷ 2192 ∷ 2384 ∷ 2576 ∷ 2768 ∷ 2960 ∷ [] → IsPcb env a
unfolding every is_pcb place
pcbs-IsPcb a i =
    is_pcb-IsPcb a (every-mem is_pcb (2000 ∷ 2192 ∷ 2384 ∷ 2576 ∷ 2768 ∷ 2960 ∷ []) refl a i)

semds-IsSemd : (a : Addr) → a ∈ free_links → IsSemd env (semd_of_freelink a)
unfolding every is_semd place
semds-IsSemd a i =
    is_semd-IsSemd (semd_of_freelink a)
      (every-mem (λ x. is_semd (semd_of_freelink x)) free_links refl a i)

semds-link : (a : Addr) → a ∈ free_links → s_freelink (semd_of_freelink a) ≡ a
unfolding every
semds-link a i =
    let same = every-mem (λ x. s_freelink (semd_of_freelink x) == x) free_links refl a i in
    ground arith

first-IsSemd : IsSemd env 7000
unfolding is_semd place
first-IsSemd = is_semd-IsSemd 7000 refl

ordered-IsQueue : IsQueue env ordered.links ordered.p_sem_add free_links 9000 7000 (2576 ∷ [])
ordered-IsQueue = record {
  key_mapped = omega arith;
  ring = record { links = omega arith; apart = (refl, (refl, tt)); mapped = refl };
  in_use = refl;
  is_semd = first-IsSemd;
  is_pcb = λ a i. pcbs-IsPcb a (ground arith);
  blocked = λ a i. ground arith;
  busy = λ e. ground (arith, e);
}

pub ordered-Holds : Holds env ordered (view ordered_lists free_links)
ordered-Holds = record {
  keyed = (refl, refl, refl, refl, tt);
  ready = record { links = omega arith; apart = (refl, (refl, (refl, tt))); mapped = refl };
  pool = record { links = omega arith; apart = (refl, (refl, (refl, tt))); mapped = refl };
  semds = semds-Ring;
  known = λ key ne. elim (Bool-cases (key == 9000)) [
    | inl hit ↦ let same : key ≡ 9000 = ground arith in rw same ordered-IsQueue
    | inr miss ↦ absurd (ne (ground arith))
  ];
  unknown = λ key none. ground arith;
  ready_pcb = λ a i. pcbs-IsPcb a (ground arith);
  ready_idle = λ a i. ground arith;
  pool_pcb = λ a i. pcbs-IsPcb a (ground arith);
  pool_idle = λ a i. ground arith;
  apart = λ a i. ground arith;
  free_semd = semds-IsSemd;
  count = refl;
  free_link = semds-link;
}

pub ordered-Runs : Runs env ordered
ordered-Runs ne = (ne, pcbs-IsPcb 2000 refl, (refl, refl), refl)

pub ordered-InOrder : InOrder env ordered
ordered-InOrder = record {
  lists = ordered_lists;
  models = record { semds = free_links; holds = ordered-Holds };
  runs = ordered-Runs;
}
