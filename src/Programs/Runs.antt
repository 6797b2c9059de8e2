-- ===== src/Programs/Runs.antt =====
-- How the processes of pandos/phase2/p2test_04.c run on a kernel: a machine that answers the system
-- calls, or does not come back from one.
use pand_os.Prelude.{ℕ, ◌≡◌, ◌≢◌, refl, Option, none, some, arith}
use pand_os.Mem.{Addr}
use pand_os.Programs.{
  Program, returned, panic, syscall, alloc_namespace, stck, stst, trap, load, store, peek, ldst,
  tlb, TlbInstruction, spent, ◌>>=◌,
}

-- `answer`, `refused` of a store that traps and `peeked` of a read that does are `none` where the kernel
-- does not come back.
pub record Machine (S : Type 0) : Type 0 where
  pub answer : (number a1 a2 a3 : ℕ) → S → Option (ℕ × S)
  pub allocate : ℕ → S → Addr × S
  pub clock : S → ℕ × S
  pub save : Addr → S → S
  pub refused : Addr → ℕ → S → Option (Unit {0} × S)
  pub peeked : Addr → S → Option (ℕ × S)
  pub word : S → Addr → ℕ
  pub put : Addr → ℕ → S → S
  pub execute : TlbInstruction → S → S

pub data End (A : Type 0) : Type 0 where
  returns : A → End A
  panics : End A
  gone : End A
  loaded : Addr → End A
  unfinished : End A

-- Where the kernel comes back, the process goes on.
abbrev pub resume : {V A S : Type 0} → Option (V × S) → (V → S → End A × S) → S → End A × S
resume none next s = (gone, s)
resume (some (v, s')) next s = next v s'

unfoldable pub run : {A S : Type 0} → Machine S → Program A → S → End A × S
run k (returned a) s = (returns a, s)
run k panic s = (panics, s)
run k (syscall n a b c next) s = resume (k.answer n a b c s) (λ v s'. run k (next v) s') s
run k (alloc_namespace t next) s = run k (next (k.allocate t s).0) (k.allocate t s).1
run k (stck next) s = run k (next (k.clock s).0) (k.clock s).1
run k (stst a next) s = run k next (k.save a s)
run k (trap a v next) s = resume (k.refused a v s) (λ _ s'. run k next s') s
run k (load a next) s = run k (next (k.word s a)) s
run k (store a v next) s = run k next (k.put a v s)
run k (peek a next) s = resume (k.peeked a s) (λ v s'. run k (next v) s') s
run k (ldst a) s = (loaded a, s)
run k (tlb i next) s = run k next (k.execute i s)
run k spent s = (unfinished, s)

-- The rest of a run.
abbrev pub continue : {A B S : Type 0} → Machine S → (A → Program B) → End A × S → End B × S
continue k f (returns a, s) = run k (f a) s
continue k f (panics, s) = (panics, s)
continue k f (gone, s) = (gone, s)
continue k f (loaded a, s) = (loaded a, s)
continue k f (unfinished, s) = (unfinished, s)

module _ {A B S : Type 0} (k : Machine S) (f : A → Program B) where
  resume-continue :
      {V : Type 0} (o : Option (V × S)) (next : V → Program A) (s : S)
      → ((v : V) (s' : S) → run k (next v >>= f) s' ≡ continue k f (run k (next v) s'))
      → resume o (λ v s'. run k (next v >>= f) s') s
        ≡ continue k f (resume o (λ v s'. run k (next v) s') s)
  resume-continue none next s rest = refl
  resume-continue (some (v, s')) next s rest = rest v s'

  pub run-bind : (p : Program A) (s : S) → run k (p >>= f) s ≡ continue k f (run k p s)
  unfolding run
  run-bind (returned a) s = refl
  run-bind panic s = refl
  run-bind (syscall n a b c next) s =
      resume-continue (k.answer n a b c s) next s λ v s'. run-bind (next v) s'
  run-bind (alloc_namespace t next) s = run-bind (next (k.allocate t s).0) (k.allocate t s).1
  run-bind (stck next) s = run-bind (next (k.clock s).0) (k.clock s).1
  run-bind (stst a next) s = run-bind next (k.save a s)
  run-bind (trap a v next) s =
      resume-continue (k.refused a v s) (λ _. next) s λ _ s'. run-bind next s'
  run-bind (load a next) s = run-bind (next (k.word s a)) s
  run-bind (store a v next) s = run-bind next (k.put a v s)
  run-bind (peek a next) s = resume-continue (k.peeked a s) next s λ v s'. run-bind (next v) s'
  run-bind (ldst a) s = refl
  run-bind (tlb i next) s = run-bind next (k.execute i s)
  run-bind spent s = refl

-- On no path does the program come to its end.
pub data NeverReturns {A : Type 0} : Program A → Type 0 where
  panicking : NeverReturns panic
  calling :
      {n a b c : ℕ} {next : ℕ → Program A}
      → ((v : ℕ) → NeverReturns (next v))
      → NeverReturns (syscall n a b c next)
  allocating :
      {t : ℕ} {next : Addr → Program A}
      → ((v : Addr) → NeverReturns (next v))
      → NeverReturns (alloc_namespace t next)
  timing : {next : ℕ → Program A} → ((v : ℕ) → NeverReturns (next v)) → NeverReturns (stck next)
  saving : {p : Addr} {next : Program A} → NeverReturns next → NeverReturns (stst p next)
  trapping : {p v : ℕ} {next : Program A} → NeverReturns next → NeverReturns (trap p v next)
  loading :
      {p : Addr} {next : ℕ → Program A}
      → ((v : ℕ) → NeverReturns (next v))
      → NeverReturns (load p next)
  storing : {p v : ℕ} {next : Program A} → NeverReturns next → NeverReturns (store p v next)
  peeking :
      {p : Addr} {next : ℕ → Program A}
      → ((v : ℕ) → NeverReturns (next v))
      → NeverReturns (peek p next)
  executing :
      {i : TlbInstruction} {next : Program A} → NeverReturns next → NeverReturns (tlb i next)
  reloading : {p : Addr} → NeverReturns (ldst p)
  spending : NeverReturns spent

pub after :
    {A B : Type 0} (p : Program A) {f : A → Program B}
    → ((a : A) → NeverReturns (f a))
    → NeverReturns (p >>= f)
after (returned a) never = never a
after panic never = panicking
after (syscall n a b c next) never = calling λ v. after (next v) never
after (alloc_namespace t next) never = allocating λ v. after (next v) never
after (stck next) never = timing λ v. after (next v) never
after (stst p next) never = saving (after next never)
after (trap p v next) never = trapping (after next never)
after (load p next) never = loading λ v. after (next v) never
after (store p v next) never = storing (after next never)
after (peek p next) never = peeking λ v. after (next v) never
after (ldst p) never = reloading
after (tlb i next) never = executing (after next never)
after spent never = spending

resume-gone :
    {A S V : Type 0} (k : Machine S) (o : Option (V × S)) (next : V → Program A) (s : S) (a : A)
    → ((v : V) (s' : S) → (run k (next v) s').0 ≢ returns a)
    → (resume o (λ v s'. run k (next v) s') s).0 ≢ returns a
resume-gone k none next s a rest = λ e. ground arith
resume-gone k (some (v, s')) next s a rest = rest v s'

pub run-NeverReturns :
    {A S : Type 0} (k : Machine S) {p : Program A}
    → NeverReturns p
    → (s : S) (a : A) → (run k p s).0 ≢ returns a
unfolding run
run-NeverReturns k panicking s r = λ e. ground arith
run-NeverReturns k (calling {n} {a} {b} {c} {next} never) s r =
    resume-gone k (k.answer n a b c s) next s r λ v s'. run-NeverReturns k (never v) s' r
run-NeverReturns k (allocating {t} never) s r =
    run-NeverReturns k (never (k.allocate t s).0) (k.allocate t s).1 r
run-NeverReturns k (timing never) s r = run-NeverReturns k (never (k.clock s).0) (k.clock s).1 r
run-NeverReturns k (saving {p} never) s r = run-NeverReturns k never (k.save p s) r
run-NeverReturns k (trapping {p} {v} {next} never) s r =
    resume-gone k (k.refused p v s) (λ _. next) s r λ _ s'. run-NeverReturns k never s' r
run-NeverReturns k (loading {p} never) s r = run-NeverReturns k (never (k.word s p)) s r
run-NeverReturns k (storing {p} {v} never) s r = run-NeverReturns k never (k.put p v s) r
run-NeverReturns k (peeking {p} {next} never) s r =
    resume-gone k (k.peeked p s) next s r λ v s'. run-NeverReturns k (never v) s' r
run-NeverReturns k (executing {i} never) s r = run-NeverReturns k never (k.execute i s) r
run-NeverReturns k reloading s r = λ e. ground arith
run-NeverReturns k spending s r = λ e. ground arith

pub ruleset endless = (
  after, panicking, calling, allocating, timing, saving, trapping, loading, storing, peeking,
  executing, reloading, spending,
)
