-- ===== src/Links/Linux/Moves.antt =====
-- Insertion and removal on the two link maps.
use pand_os.Prelude.{
  ◌≡◌, ◌≢◌, refl, inl, inr, Bool-cases, List, [], ◌∷◌, ◌++◌, arith, ◌==◌, ◌∈◌, ◌∉◌, Distinct,
  has-append, upd,
}
use pand_os.Mem.{Addr, null}
use pand_os.Links.Rings.{
  last-mem, prev-mem, next-mem, Walk, Walk-frame, Ring, erase, Distinct-erase, not_mem-erase,
}

add-Walk :
    (n v : Addr → Addr) (x a : Addr) (xs : List Addr) (b : Addr)
    → Walk n v a xs b
    → x ∉ a ∷ xs
    → x ≢ b
    → Distinct (a ∷ xs)
    → b ∉ xs
    → Walk (upd (upd n x b) (v b) x) (upd (upd v b x) x (v b)) a (xs ++ x ∷ []) b
add-Walk n v x a [] b w out ne d ob = ground arith
add-Walk n v x a (y ∷ ys) b w out ne d ob = (
  ground (arith, last-mem n v y ys b w.2),
  ground arith,
  add-Walk n v x y ys b w.2 (ground arith) ne d.1 (ground arith),
)

-- Removal of the first node of a walk.
del-first :
    (n v : Addr → Addr) (x a : Addr) (ys : List Addr) (b : Addr)
    → Walk n v a (x ∷ ys) b
    → x ≢ a
    → x ≢ b
    → Distinct (a ∷ x ∷ ys)
    → b ∉ ys
    → Walk (upd (upd n (v x) (n x)) x null) (upd (upd v (n x) (v x)) x null) a ys b
del-first n v x a [] b w na nb d ob = ground arith
del-first n v x a (z ∷ zs) b w na nb d ob = (
  ground arith,
  ground arith,
  Walk-frame n v _ _ z zs b w.2.2 (λ c i. ground arith) (λ c i. ground arith),
)

del-Walk :
    (n v : Addr → Addr) (x a : Addr) (xs : List Addr) (b : Addr)
    → Walk n v a xs b
    → x ∈ xs
    → x ≢ a
    → x ≢ b
    → Distinct (a ∷ xs)
    → b ∉ xs
    → Walk (upd (upd n (v x) (n x)) x null) (upd (upd v (n x) (v x)) x null) a (erase x xs) b
del-Walk n v x a [] b w i na nb d ob = cc
del-Walk n v x a (y ∷ ys) b w i na nb d ob = elim (Bool-cases (x == y)) [
  | inl hit ↦ rw hit (
      let e : x ≡ y = ground arith in
      rw e (del-first n v y a ys b w (λ p. ground arith) (λ p. ground arith) d (ground arith)))
  | inr miss ↦ rw miss (
    ground (arith, prev-mem n v x y ys b w.2),
    ground (arith, next-mem n v x y ys b w.2),
    del-Walk n v x y ys b w.2 (ground arith) (ground arith) nb d.1 (ground arith),
  )
]

-- Insertion after the start of a walk.
add-first :
    (n v : Addr → Addr) (x a : Addr) (xs : List Addr) (b : Addr)
    → Walk n v a xs b
    → x ∉ a ∷ xs
    → x ≢ b
    → Distinct (a ∷ xs)
    → b ∉ xs
    → Walk (upd (upd n x (n a)) a x) (upd (upd v (n a) x) x a) a (x ∷ xs) b
add-first n v x a [] b w out ne d ob = ground arith
add-first n v x a (y ∷ ys) b w out ne d ob = (
  ground arith,
  ground arith,
  (
    ground arith,
    ground arith,
    Walk-frame n v _ _ y ys b w.2 (λ c i. ground arith) (λ c i. ground arith),
  ),
)

Distinct-snoc : (x : Addr) (xs : List Addr) → Distinct xs → x ∉ xs → Distinct (xs ++ x ∷ [])
Distinct-snoc x [] d out = (refl, tt)
Distinct-snoc x (y ∷ ys) d out =
    (ground (arith, has-append y ys (x ∷ [])), Distinct-snoc x ys d.1 (ground arith))

module _ {n v : Addr → Addr} (x : Addr) {h : Addr} {xs : List Addr} (r : Ring n v h xs) where
  pub added :
      x ∉ h ∷ xs → x ≢ null → Ring (upd (upd n x (n h)) h x) (upd (upd v (n h) x) x h) h (x ∷ xs)
  added out ne = record {
    links = add-first n v x h xs h r.links out (ground arith) r.apart (ground (arith, r.apart));
    apart = (ground (arith, r.apart), (ground arith, r.apart.1));
    mapped = ground (arith, r.mapped);
  }

  pub added_tail :
      x ∉ h ∷ xs
      → x ≢ null
      → Ring (upd (upd n x h) (v h) x) (upd (upd v h x) x (v h)) h (xs ++ x ∷ [])
  added_tail out ne = record {
    links = add-Walk n v x h xs h r.links out (ground arith) r.apart (ground (arith, r.apart));
    apart = (
      ground (arith, r.apart, has-append h xs (x ∷ [])),
      Distinct-snoc x xs r.apart.1 (ground arith),
    );
    mapped = ground (arith, r.mapped, has-append null xs (x ∷ []));
  }

  pub deleted :
      x ∈ xs → Ring (upd (upd n (v x) (n x)) x null) (upd (upd v (n x) (v x)) x null) h (erase x xs)
  deleted i = record {
    links =
        del-Walk n v x h xs h r.links i (ground (arith, r.apart)) (ground (arith, r.apart)) r.apart
          (ground (arith, r.apart));
    apart = (not_mem-erase h x xs r.apart.0, Distinct-erase x xs r.apart.1);
    mapped = ground (arith, r.mapped, not_mem-erase null x xs);
  }
