-- ===== src/Links/Rings.antt =====
-- Circular doubly linked lists: `h` is the head, and `xs` are the nodes in order.
use pand_os.Prelude.{
  ◌≡◌, ◌≢◌, refl, true, false, List, [], ◌∷◌, arith, ◌==◌, if◌then◌else◌, ◌∈◌, ◌∉◌, Distinct,
  Bool-cases, inl, inr,
}
use pand_os.Mem.{Addr, null, Mem}

-- From `a` the links lead through `xs` to `b`, and back.
abbrev pub Walk : (Addr → Addr) → (Addr → Addr) → Addr → List Addr → Addr → Type 0
Walk n v a [] b = (n a ≡ b) × (v b ≡ a)
Walk n v a (x ∷ xs) b = (n a ≡ x) × (v x ≡ a) × Walk n v x xs b

pub record Ring (n v : Addr → Addr) (h : Addr) (xs : List Addr) : Type 0 where
  pub links : Walk n v h xs h
  pub apart : Distinct (h ∷ xs)
  pub mapped : null ∉ h ∷ xs

abbrev pub SameOutside : List Addr → Mem → (Addr → Addr) → (Addr → Addr) → Type 0
SameOutside fp m n v = (a : Addr) → a ∉ fp → (n a ≡ m.next a) × (v a ≡ m.prev a)

-- The list without the first occurrence of a node.
abbrev pub erase : Addr → List Addr → List Addr
erase x [] = []
erase x (y ∷ ys) = if x == y then ys else y ∷ erase x ys

pub erase-head : (x : Addr) (xs : List Addr) → erase x (x ∷ xs) ≡ xs
erase-head x xs = ground arith

pub erase-not_mem : (x : Addr) (xs : List Addr) → x ∉ xs → erase x xs ≡ xs
erase-not_mem x [] out = refl
erase-not_mem x (y ∷ ys) out = ground (arith, erase-not_mem x ys)

-- Erasing adds nothing.
pub not_mem-erase : (a x : Addr) (xs : List Addr) → a ∉ xs → a ∉ erase x xs
not_mem-erase a x [] out = refl
not_mem-erase a x (y ∷ ys) out = ground (arith, not_mem-erase a x ys)

pub mem_of-erase : (a x : Addr) (xs : List Addr) → a ∈ erase x xs → a ∈ xs
mem_of-erase a x [] i = i
mem_of-erase a x (y ∷ ys) i = ground (arith, mem_of-erase a x ys)

-- In a list without repetition the node is gone.
pub not_mem-erase_self : (x : Addr) (xs : List Addr) → Distinct xs → x ∉ erase x xs
not_mem-erase_self x [] d = refl
not_mem-erase_self x (y ∷ ys) d = ground (arith, not_mem-erase_self x ys d.1)

-- Where nothing is left, the node was the only one.
pub not_mem-erase_nil : (a x : Addr) (xs : List Addr) → erase x xs ≡ [] → (a == x) ≡ false → a ∉ xs
not_mem-erase_nil a x [] last ne = refl
not_mem-erase_nil a x (y ∷ ys) last ne = ground arith

pub Distinct-erase : (x : Addr) (xs : List Addr) → Distinct xs → Distinct (erase x xs)
Distinct-erase x [] d = tt
Distinct-erase x (y ∷ ys) d = elim (Bool-cases (x == y)) [
  | inl hit ↦ rw hit d.1
  | inr miss ↦ rw miss (not_mem-erase y x ys d.0, Distinct-erase x ys d.1)
]

-- The last node before `b` is a node of the walk, or its start.
pub last-mem :
    (n v : Addr → Addr) (a : Addr) (xs : List Addr) (b : Addr) → Walk n v a xs b → v b ∈ a ∷ xs
last-mem n v a [] b w = ground arith
last-mem n v a (x ∷ xs) b w = ground (arith, last-mem n v x xs b w.2)

-- The neighbours of a node lie on the walk.
pub prev-mem :
    (n v : Addr → Addr) (x a : Addr) (xs : List Addr) (b : Addr)
    → Walk n v a xs b
    → x ∈ xs
    → v x ∈ a ∷ xs
prev-mem n v x a [] b w i = cc
prev-mem n v x a (y ∷ ys) b w i = ground (arith, prev-mem n v x y ys b w.2)

pub next-mem :
    (n v : Addr → Addr) (x a : Addr) (xs : List Addr) (b : Addr)
    → Walk n v a xs b
    → x ∈ a ∷ xs
    → n x ∈ b ∷ xs
next-mem n v x a [] b w i = ground arith
next-mem n v x a (y ∷ ys) b w i = ground (arith, next-mem n v x y ys b w.2)

module _ {n v : Addr → Addr} {h : Addr} {xs : List Addr} (r : Ring n v h xs) where
  pub head-ne-null : h ≢ null
  head-ne-null e = ground (arith, r.mapped)

  pub node-ne-null : (x : Addr) → x ∈ xs → x ≢ null
  node-ne-null x i e = ground (arith, r.mapped)

  pub node-ne-head : (x : Addr) → x ∈ xs → x ≢ h
  node-ne-head x i e = ground (arith, r.apart)

-- A ring survives any change that spares its own links.
pub Walk-frame :
    (n v n' v' : Addr → Addr) (a : Addr) (xs : List Addr) (b : Addr)
    → Walk n v a xs b
    → ((x : Addr) → x ∈ a ∷ xs → n' x ≡ n x)
    → ((x : Addr) → x ∈ b ∷ xs → v' x ≡ v x)
    → Walk n' v' a xs b
Walk-frame n v n' v' a [] b w sn sv = ground (arith, sn a, sv b)
Walk-frame n v n' v' a (x ∷ xs) b w sn sv = (
  ground (arith, sn a),
  ground (arith, sv x),
  Walk-frame n v n' v' x xs b w.2 (λ y i. sn y (ground arith)) (λ y i. sv y (ground arith)),
)

pub Ring-frame :
    {n v : Addr → Addr} (n' v' : Addr → Addr) {h : Addr} {xs : List Addr}
    → Ring n v h xs
    → ((x : Addr) → x ∈ h ∷ xs → (n' x ≡ n x) × (v' x ≡ v x))
    → Ring n' v' h xs
Ring-frame {n} {v} n' v' {h} {xs} r same = record {
  links = Walk-frame n v n' v' h xs h r.links (λ x i. (same x i).0) (λ x i. (same x i).1);
  apart = r.apart;
  mapped = r.mapped;
}

-- A list head is followed by its first node, or by itself where the list is empty.
pub next-head : {n v : Addr → Addr} {h x : Addr} {xs : List Addr} → Ring n v h (x ∷ xs) → n h ≡ x
next-head r = r.links.0

pub empty-cons :
    {n v : Addr → Addr} {h x : Addr} {xs : List Addr} → Ring n v h (x ∷ xs) → (n h == h) ≡ false
empty-cons r = ground (arith, r.links, r.apart)

pub first-ne-head :
    {n v : Addr → Addr} {h x : Addr} {xs : List Addr} → Ring n v h (x ∷ xs) → (x == h) ≡ false
first-ne-head r = ground (arith, r.apart)

-- A list with a node is not empty.
pub empty-mem :
    {n v : Addr → Addr} {h : Addr} (x : Addr) {xs : List Addr}
    → Ring n v h xs
    → x ∈ xs
    → (n h == h) ≡ false
empty-mem x {xs = []} r i = cc
empty-mem x {xs = y ∷ ys} r i = ground (arith, r.links, r.apart)

pub empty-nil : {n v : Addr → Addr} {h : Addr} → Ring n v h [] → (n h == h) ≡ true
empty-nil r = ground (arith, r.links)

module _ {n v : Addr → Addr} {h : Addr} {xs : List Addr} (r : Ring n v h xs) where
  pub next-mapped : (x : Addr) → x ∈ h ∷ xs → (n x == null) ≡ false
  next-mapped x i = ground (arith, r.mapped, next-mem n v x h xs h r.links i)

  pub prev-mapped : (x : Addr) → x ∈ xs → (v x == null) ≡ false
  prev-mapped x i = ground (arith, r.mapped, prev-mem n v x h xs h r.links i)

  pub last-mapped : (v h == null) ≡ false
  last-mapped = ground (arith, r.mapped, last-mem n v h xs h r.links)

-- The nodes that a loop along `next` meets from `p` on, until it comes to `stop`.
abbrev pub Trail : (Addr → Addr) → Addr → List Addr → Addr → Type 0
Trail n p [] stop = p ≡ stop
Trail n p (x ∷ xs) stop =
    (p ≡ x) × ((x == stop) ≡ false) × ((x == null) ≡ false) × Trail n (n x) xs stop

Walk-Trail :
    (n v : Addr → Addr) (a : Addr) (xs : List Addr) (b : Addr)
    → Walk n v a xs b
    → b ∉ xs
    → null ∉ xs
    → Trail n (n a) xs b
Walk-Trail n v a [] b w ob nn = w.0
Walk-Trail n v a (x ∷ xs) b w ob nn =
    (w.0, ground arith, ground arith, Walk-Trail n v x xs b w.2 (ground arith) (ground arith))

pub Ring-Trail :
    {n v : Addr → Addr} {h : Addr} {xs : List Addr} → Ring n v h xs → Trail n (n h) xs h
Ring-Trail {n} {v} {h} {xs} r =
    Walk-Trail n v h xs h r.links (ground (arith, r.apart)) (ground (arith, r.mapped))
