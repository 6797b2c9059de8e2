-- ===== src/Invariant/Tree.antt =====
-- The process tree beside the queues: the links of the tree (`p_child`, `p_sib`) are on no queue.
use pand_os.Prelude.{◌≡◌, ◌≢◌, List, ◌∷◌, arith, ◌∈◌}
use pand_os.Mem.{Addr, Mem}
use pand_os.Links.Rings.{Ring, Ring-frame}
use pand_os.Env.{Env}
use pand_os.Invariant.{place, Layout, View, Holds, IsLoose}
use pand_os.Invariant.Places.{IsQueueLink, ready-place, pool-place, semds-place, free_semd-place}

-- Every link of a queue or of a list of free ones is as before: those of the tree may change, and those
-- of addresses that are none of the kernel's (place 0), such as the namespaces.
abbrev pub SameQueues : Env → Mem → Mem → Type 0
SameQueues e m m' =
    (x : Addr) → IsQueueLink e x × (place e x ≢ 0) → (m'.next x ≡ m.next x) × (m'.prev x ≡ m.prev x)

module _ (e : Env) (m m' : Mem) (same : SameQueues e m m') where
  queue-frame :
      {h : Addr} {xs : List Addr}
      → Ring m.next m.prev h xs
      → ((x : Addr) → x ∈ h ∷ xs → IsQueueLink e x × (place e x ≢ 0))
      → Ring m'.next m'.prev h xs
  queue-frame r queues = Ring-frame m'.next m'.prev r λ x j. same x (queues x j)

  pub tree-IsLoose : m'.p_sem_add ≡ m.p_sem_add → (c : Addr) → IsLoose e m c → IsLoose e m' c
  tree-IsLoose waits c l = (l.0, l.1, ground (arith, same c, l.1, l.2), ground (arith, waits, l.3))

  module _ (o : Layout e) (v : View) (i : Holds e m v) (waits : m'.p_sem_add ≡ m.p_sem_add) where
    -- A change of the tree leaves the queues in order.
    pub tree-Holds : m'.table ≡ m.table → m'.s_key ≡ m.s_key → Holds e m' v
    tree-Holds table keys =
        rw (table, waits, keys)
          (record {
            keyed = i.keyed;
            ready = queue-frame i.ready (λ x j. ground (arith, ready-place e, i.ready_pcb x));
            pool = queue-frame i.pool (λ x j. ground (arith, pool-place e o, i.pool_pcb x));
            semds =
                queue-frame i.semds
                  (λ x j. ground (arith, semds-place e o, free_semd-place e o m v i x));
            known = λ key ne.
                let q = i.known key ne in
                record {
                  key_mapped = q.key_mapped;
                  ring = queue-frame q.ring (λ x j. ground (arith, q.is_semd, q.is_pcb x));
                  in_use = q.in_use;
                  is_semd = q.is_semd;
                  is_pcb = q.is_pcb;
                  blocked = q.blocked;
                  busy = q.busy;
                };
            unknown = i.unknown;
            ready_pcb = i.ready_pcb;
            ready_idle = i.ready_idle;
            pool_pcb = i.pool_pcb;
            pool_idle = i.pool_idle;
            apart = i.apart;
            free_semd = i.free_semd;
            count = i.count;
            free_link = i.free_link;
          })
