-- ===== src/Outcome.antt =====
-- How a command ends, with a postcondition: it returns, it returns after changing only list links, or
-- it leaves the processor. Each excludes a fault and a loop that runs out of fuel.
use pand_os.Mem.{Addr, Mem, relink, Exit, Run, ok, exit, Cmd, and_then}

pub data Returns {A : Type 0} (Q : A → Mem → Type 0) : Run A → Type 0 where
  returns : {a : A} {m : Mem} → Q a m → Returns Q (ok a m)

pub data Relinks {A : Type 0} (m : Mem) (Q : A → (Addr → Addr) → (Addr → Addr) → Type 0)
    : Run A → Type 0 where
  relinks : {a : A} {n v : Addr → Addr} → Q a n v → Relinks m Q (ok a (relink m n v))

pub data Exits {A : Type 0} (Q : Exit → Mem → Type 0) : Run A → Type 0 where
  exits : {e : Exit} {m : Mem} → Q e m → Exits Q (exit e m)

pub Returns-bind :
    {A B : Type 0} {Q : A → Mem → Type 0} {Q' : B → Mem → Type 0} {r : Run A} {k : A → Cmd B}
    → Returns Q r
    → ((a : A) (m : Mem) → Q a m → Returns Q' (k a m))
    → Returns Q' (and_then r k)
Returns-bind (returns q) next = next _ _ q

pub Returns-exit :
    {A B : Type 0} {Q : A → Mem → Type 0} {Q' : Exit → Mem → Type 0} {r : Run A} {k : A → Cmd B}
    → Returns Q r
    → ((a : A) (m : Mem) → Q a m → Exits Q' (k a m))
    → Exits Q' (and_then r k)
Returns-exit (returns q) next = next _ _ q

-- Whatever holds of the rest of the run, wherever the links are.
pub Relinks-any :
    {A B : Type 0} {m : Mem} {Q : A → (Addr → Addr) → (Addr → Addr) → Type 0} (P : Run B → Type 0)
    {r : Run A} (k : A → Cmd B)
    → Relinks m Q r
    → ((a : A) (n v : Addr → Addr) → Q a n v → P (k a (relink m n v)))
    → P (and_then r k)
Relinks-any P k (relinks q) next = next _ _ _ q

pub Relinks-bind :
    {A B : Type 0} {m m' : Mem} {Q : A → (Addr → Addr) → (Addr → Addr) → Type 0}
    {Q' : B → (Addr → Addr) → (Addr → Addr) → Type 0} {r : Run A} (k : A → Cmd B)
    → Relinks m Q r
    → ((a : A) (n v : Addr → Addr) → Q a n v → Relinks m' Q' (k a (relink m n v)))
    → Relinks m' Q' (and_then r k)
Relinks-bind k (relinks q) next = next _ _ _ q

pub Relinks-return :
    {A B : Type 0} {m : Mem} {Q : A → (Addr → Addr) → (Addr → Addr) → Type 0}
    {Q' : B → Mem → Type 0} {r : Run A} (k : A → Cmd B)
    → Relinks m Q r
    → ((a : A) (n v : Addr → Addr) → Q a n v → Returns Q' (k a (relink m n v)))
    → Returns Q' (and_then r k)
Relinks-return k (relinks q) next = next _ _ _ q

pub Relinks-exit :
    {A B : Type 0} {m : Mem} {Q : A → (Addr → Addr) → (Addr → Addr) → Type 0}
    {Q' : Exit → Mem → Type 0} {r : Run A} (k : A → Cmd B)
    → Relinks m Q r
    → ((a : A) (n v : Addr → Addr) → Q a n v → Exits Q' (k a (relink m n v)))
    → Exits Q' (and_then r k)
Relinks-exit k (relinks q) next = next _ _ _ q

pub Exits-bind :
    {A B : Type 0} {Q : Exit → Mem → Type 0} {r : Run A} (k : A → Cmd B)
    → Exits Q r
    → Exits Q (and_then r k)
Exits-bind k (exits q) = exits q

-- A second change of links starts from the first.
pub Relinks-rebase :
    {A : Type 0} {m : Mem} (n v : Addr → Addr) {Q Q' : A → (Addr → Addr) → (Addr → Addr) → Type 0}
    {r : Run A}
    → Relinks (relink m n v) Q r
    → ((a : A) (n' v' : Addr → Addr) → Q a n' v' → Q' a n' v')
    → Relinks m Q' r
Relinks-rebase n v (relinks q) weaken = relinks (weaken _ _ _ q)

pub Relinks-mono :
    {A : Type 0} {m : Mem} {Q Q' : A → (Addr → Addr) → (Addr → Addr) → Type 0} {r : Run A}
    → Relinks m Q r
    → ((a : A) (n v : Addr → Addr) → Q a n v → Q' a n v)
    → Relinks m Q' r
Relinks-mono (relinks q) weaken = relinks (weaken _ _ _ q)

pub Returns-mono :
    {A : Type 0} {Q Q' : A → Mem → Type 0} {r : Run A}
    → Returns Q r
    → ((a : A) (m : Mem) → Q a m → Q' a m)
    → Returns Q' r
Returns-mono (returns q) weaken = returns (weaken _ _ q)

pub Exits-mono :
    {A : Type 0} {Q Q' : Exit → Mem → Type 0} {r : Run A}
    → Exits Q r
    → ((x : Exit) (m : Mem) → Q x m → Q' x m)
    → Exits Q' r
Exits-mono (exits q) weaken = exits (weaken _ _ q)

-- What holds of the memory with the new links.
pub Relinks-then :
    {A : Type 0} {m : Mem} {Q : A → (Addr → Addr) → (Addr → Addr) → Type 0} {Q' : A → Mem → Type 0}
    {r : Run A}
    → Relinks m Q r
    → ((a : A) (n v : Addr → Addr) → Q a n v → Q' a (relink m n v))
    → Returns Q' r
Relinks-then (relinks q) weaken = returns (weaken _ _ _ q)

-- The command returns or leaves the processor.
pub data Ends (R : Mem → Type 0) (X : Exit → Mem → Type 0) : Run (Unit {0}) → Type 0 where
  comes_back : {m : Mem} → R m → Ends R X (ok tt m)
  leaves : {x : Exit} {m : Mem} → X x m → Ends R X (exit x m)

pub Returns-end :
    {A : Type 0} {Q : A → Mem → Type 0} {R : Mem → Type 0} {X : Exit → Mem → Type 0} {r : Run A}
    (k : A → Cmd (Unit {0}))
    → Returns Q r
    → ((a : A) (m : Mem) → Q a m → Ends R X (k a m))
    → Ends R X (and_then r k)
Returns-end k (returns q) next = next _ _ q

pub Exits-end :
    {R : Mem → Type 0} {Q X : Exit → Mem → Type 0} {r : Run (Unit {0})}
    → Exits Q r
    → ((x : Exit) (m : Mem) → Q x m → X x m)
    → Ends R X r
Exits-end (exits q) weaken = leaves (weaken _ _ q)
