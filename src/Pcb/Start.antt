-- ===== src/Pcb/Start.antt =====
-- The free list that initPcbs builds.
use pand_os.Prelude.{
  false, ℕ, zero, suc, ◌+◌, ◌*◌, ◌≤◌, ◌<◌, ◌≡◌, ◌≢◌, refl, List, [], ◌∷◌, arith, ◌==◌, ◌∉◌, upd,
}
use pand_os.Mem.{Addr, null, Mem, relink}
use pand_os.Outcome.{Relinks, relinks, Relinks-bind, Relinks-rebase}
use pand_os.Links.Rings.{Ring, SameOutside}
use pand_os.Env.{Env, Laws}
use pand_os.Pcb.{init_loop, init_pcbs}

-- The blocks `i + k - 1` to `i` of the table, the highest first, and then `xs`.
abbrev pub blocks : (table i k : ℕ) → List Addr → List Addr
blocks table i zero xs = xs
blocks table i (suc k) xs = blocks table (i + 1) k ((table + 192 * i) ∷ xs)

not_mem-blocks : (table i k : ℕ) (xs : List Addr) (a : Addr) → a ∉ blocks table i k xs → a ∉ xs
not_mem-blocks table i zero xs a out = out
not_mem-blocks table i (suc k) xs a out =
    ground (arith, not_mem-blocks table (i + 1) k ((table + 192 * i) ∷ xs) a out)

module _ (e : Env) (L : Laws e) where
  open e use {pcb_free_h, pcb_free_table}

  init_loop-blocks :
      (k i : ℕ) (xs : List Addr) (m : Mem)
      → Ring m.next m.prev pcb_free_h xs
      → ((j : ℕ) → i ≤ j → j < i + k → pcb_free_table + 192 * j ∉ pcb_free_h ∷ xs)
      → pcb_free_table ≢ null
      → Relinks m
          (λ _ n v.
            Ring n v pcb_free_h (blocks pcb_free_table i k xs)
            × SameOutside (pcb_free_h ∷ blocks pcb_free_table i k xs) m n v)
          (init_loop e k i m)
  unfolding init_loop
  init_loop-blocks zero i xs m r new nt = relinks (r, λ a o. (refl, refl))
  init_loop-blocks (suc k) i xs m r new nt =
      Relinks-bind _
        (L.add_lem (pcb_free_table + 192 * i) pcb_free_h xs m r (new i (omega arith) (omega arith))
          (omega arith))
        λ _ n v q.
          Relinks-rebase n v
            (init_loop-blocks k (i + 1) ((pcb_free_table + 192 * i) ∷ xs) (relink m n v) q.0
              (λ j lo hi. ground (arith, new j (omega arith) (omega arith))) nt)
            λ _ n2 v2 q2. (
              q2.0,
              λ a o.
                  let out =
                    not_mem-blocks pcb_free_table (i + 1) k ((pcb_free_table + 192 * i) ∷ xs) a
                      (ground arith) in
                  ground (arith, q.1 a, q2.1 a),
            )

  -- Where the head of the free list and the table are not at NULL and the head is none of the
  -- table's blocks, initPcbs makes a free list of the 20 blocks of the table, the last of them
  -- first, and changes no link elsewhere.
  pub init_pcbs-Ring :
      (m : Mem)
      → pcb_free_h ≢ null
      → pcb_free_table ≢ null
      → ((j : ℕ) → j < 20 → pcb_free_table + 192 * j ≢ pcb_free_h)
      → Relinks m
          (λ _ n v.
            Ring n v pcb_free_h (blocks pcb_free_table 0 20 [])
            × SameOutside (pcb_free_h ∷ blocks pcb_free_table 0 20 []) m n v)
          (init_pcbs e m)
  unfolding init_pcbs
  init_pcbs-Ring m nh nt apart =
      let eh : (pcb_free_h == null) ≡ false = ground arith in
      let n = upd m.next pcb_free_h pcb_free_h in
      let v = upd m.prev pcb_free_h pcb_free_h in
      let empty : Ring n v pcb_free_h [] = record {
        links = ground arith;
        apart = (refl, tt);
        mapped = ground arith;
      } in
      simp (L.init_lem pcb_free_h m nh) (
        Relinks-rebase n v
          (init_loop-blocks 20 0 [] (relink m n v) empty (λ j lo hi. ground (arith, apart j hi)) nt)
          λ _ n2 v2 q. (q.0, λ a o. ground (arith, q.1 a)))
