-- ===== src/Kernel/Semaphores.antt =====
-- passeren and verhogen of phase2/syscall.c do what the kernel promises of SYS3 and SYS4.
use pand_os.Prelude.{
  ℕ, ◌≡◌, ◌≢◌, refl, false, inl, inr, Bool-cases, not, List, [], ◌∷◌, arith, ◌==◌, if◌then◌else◌,
}
use pand_os.Mem.{Addr, null, Mem, Cmd, pure, ◌>>=◌, ◌>>◌}
use pand_os.Words.{add32, sub32}
use pand_os.Outcome.{Returns, returns, Returns-bind, Returns-mono}
use pand_os.Env.{Env, Laws}
use pand_os.Ash.{insert_blocked, remove_blocked, head_blocked}
use pand_os.Fields.{put_word}
use pand_os.Scheduler.{current_proc, enqueue_ready}
use pand_os.Syscall.{passeren, verhogen}
use pand_os.Invariant.{Layout, SameRest, Runs}
use pand_os.Invariant.Known.{joined}
use pand_os.Invariant.Blocking.{insert_blocked-refines}
use pand_os.Invariant.Waking.{first-ne-null, head_blocked-first, head_blocked-nobody}
use pand_os.Invariant.Room.{semds-free}
use pand_os.Interrupt.Semaphores.{set_word}
use pand_os.Kernel.{Lists, Models, view, join, Shows, release, block, passeren_spec, verhogen_spec}
use pand_os.Kernel.Waking.{wake-Returns}

module _ (e : Env) (L : Laws e) (o : Layout e) (m : Mem) (a : Lists) (i : Models e m a)
    (runs : Runs e m) (s : Addr) (ns : s ≢ null) where
  -- Where a process runs, it can join the queue of any semaphore.
  pub block-Shows :
      m.current_active_process ≢ null
      → Returns
          (λ r m'. (r ≡ 0) × Models e m' (join m.current_active_process s a) × SameRest m m')
          (insert_blocked e s m.current_active_process m)
  block-Shows nc =
      let l = runs nc in
      Returns-mono
        (insert_blocked-refines e L o m (view a i.semds) i.holds s ns m.current_active_process l
          (inr (semds-free e m (view a i.semds) i.holds m.current_active_process l)))
        λ r m' j. (
          j.0,
          record {
            semds = (joined m.current_active_process s (view a i.semds)).semds;
            holds = j.1;
          },
          j.3,
        )

  Models-set_word : (value : ℕ) → Models e (set_word s value m) a
  Models-set_word value = record { semds = i.semds; holds = i.holds }

  -- What passeren and verhogen do where the value lets the process pass.
  abbrev passes : ℕ → Cmd ℕ
  passes value = do
    first ← head_blocked e s
    if not (first == null)
        then (do p ← remove_blocked e s; enqueue_ready e p; pure 0)
        else do put_word s value; pure 0

  passes-Shows :
      (value : ℕ) (ps : List Addr)
      → a.waiting s ≡ ps
      → Returns (Shows e m (release s value m.word a ps)) (passes value m)
  passes-Shows value [] eq =
      let es : (s == null) ≡ false = ground arith in
      simp (head_blocked-nobody e L o m (view a i.semds) i.holds s ns eq, es)
        (returns (record {
          answer = refl;
          word = refl;
          models = Models-set_word value;
          runs = λ _. runs;
          sched = refl;
          cpu = refl;
          state = refl;
          time = refl;
        }))
  passes-Shows value (p ∷ ps) eq =
      let ep : (p == null) ≡ false =
        ground (arith, first-ne-null e L o m (view a i.semds) i.holds s p ps eq) in
      simp (head_blocked-first e L o m (view a i.semds) i.holds s p ps eq, ep)
        (wake-Returns e L o m a i s p ps eq runs _ λ m' w. returns (record {
          answer = refl;
          word = w.2.2;
          models = w.0;
          runs = λ _. w.1;
          sched = w.2.0;
          cpu = w.2.1;
          state = w.2.3;
          time = w.2.5;
        }))

  -- What they do where the value blocks the process.
  abbrev blocks : Cmd ℕ
  blocks = do current ← current_proc; _ ← insert_blocked e s current; pure 1

  blocks-Shows :
      m.current_active_process ≢ null
      → Returns (Shows e m (block m.current_active_process s m.word a)) (blocks m)
  blocks-Shows nc = Returns-bind (block-Shows nc) λ r m' j. returns (record {
    answer = refl;
    word = j.2.2;
    models = j.1;
    runs = λ z. ground (arith, z);
    sched = j.2.0;
    cpu = j.2.1;
    state = j.2.3;
    time = j.2.5;
  })

  -- In a kernel in order, with a process that runs, passeren on any semaphore returns and does what
  -- SYS3 promises: it blocks the process where the value is 0, else it wakes the first process that
  -- waits, and where none waits it takes one from the value.
  pub passeren-refines :
      m.current_active_process ≢ null
      → Returns (Shows e m (passeren_spec m.current_active_process s m.word a)) (passeren e s m)
  unfolding passeren passeren_spec
  passeren-refines nc =
      let es : (s == null) ≡ false = ground arith in
      elim (Bool-cases (m.word s == 0)) [
        | inl down ↦ simp (es, down) (blocks-Shows nc)
        | inr up ↦ simp (es, up) (passes-Shows (sub32 (m.word s) 1) (a.waiting s) refl)
      ]

  -- In a kernel in order, with a process that runs, verhogen on any semaphore returns and does what
  -- SYS4 promises: it blocks the process where the value is 1, else it wakes the first process that
  -- waits, and where none waits it adds one to the value.
  pub verhogen-refines :
      m.current_active_process ≢ null
      → Returns (Shows e m (verhogen_spec m.current_active_process s m.word a)) (verhogen e s m)
  unfolding verhogen verhogen_spec
  verhogen-refines nc =
      let es : (s == null) ≡ false = ground arith in
      elim (Bool-cases (m.word s == 1)) [
        | inl up ↦ simp (es, up) (blocks-Shows nc)
        | inr down ↦ simp (es, down) (passes-Shows (add32 (m.word s) 1) (a.waiting s) refl)
      ]
