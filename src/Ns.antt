-- ===== src/Ns.antt =====
-- Namespaces: pandos/phase1/ns.c.
pub mod Add
use pand_os.Prelude.{ℕ, zero, suc, ◌+◌, ◌*◌, Bool, true, false, ◌==◌, if◌then◌else◌}
use pand_os.Mem.{Addr, null, out_of_fuel, Cmd, Proc, pure, done, ◌>>=◌, ◌>>◌}
use pand_os.Fields.{
  p_child, p_sib, pcb_of_sib, n_link, nsd_of_link, sizeof_nsd, get_next, get_namespace,
  put_namespace, get_type, put_type,
}
use pand_os.Env.{Env}
use pand_os.Pcb.{max_proc, list_safe_del}

-- pandos_types.h
abbrev pub ns_pid : ℕ
ns_pid = 0

abbrev pub ns_type_max : ℕ
ns_type_max = 1

-- A loop over a tree of processes meets each of them once.
abbrev pub tree_steps : ℕ
tree_steps = 21

pub get_namespace_loop : (rounds i p type : ℕ) → Cmd Addr
get_namespace_loop zero i p type = pure null
get_namespace_loop (suc k) i p type = do
  ns ← get_namespace p i
  t ← get_type ns
  if t == type then get_namespace p i else get_namespace_loop k (i + 1) p type

pub get_namespace_of : (p type : ℕ) → Cmd Addr
unfolding get_namespace_loop
get_namespace_of p type = get_namespace_loop ns_type_max 0 p type

-- The loop over the siblings from `child` on, with the recursive call on each one's children.
pub set_all_loop : ℕ → (head child ns : Addr) → Proc
set_all_loop zero head child ns = λ _. out_of_fuel
set_all_loop (suc k) head child ns = if p_sib child == head then done else do
  t ← get_type ns
  put_namespace child t ns
  first ← get_next (p_child child)
  set_all_loop k (p_child child) (pcb_of_sib first) ns
  following ← get_next (p_sib child)
  set_all_loop k head (pcb_of_sib following) ns

pub set_all_child_namespace : (head ns : Addr) → Proc
unfolding set_all_loop
set_all_child_namespace head ns = do
  first ← get_next head
  set_all_loop tree_steps head (pcb_of_sib first) ns

module _ (e : Env) where
  open e use {
    init_list_head, list_add_tail, list_del, list_empty, pid_nsd, pid_ns_free_h, pid_ns_list_h,
  }

  unfoldable pub init_ns_loop : (rounds i : ℕ) → Proc
  init_ns_loop zero i = done
  init_ns_loop (suc k) i = do
    init_list_head (n_link (pid_nsd + sizeof_nsd * i))
    list_add_tail (n_link (pid_nsd + sizeof_nsd * i)) pid_ns_free_h
    init_ns_loop k (i + 1)

  unfoldable pub init_namespaces : Proc
  unfolding init_ns_loop
  init_namespaces = do
    init_list_head pid_ns_free_h
    init_list_head pid_ns_list_h
    init_ns_loop max_proc 0

  pub add_namespace : (p ns : Addr) → Cmd Bool
  add_namespace p ns = if ns == null then pure false else if p == null then pure false else do
    t ← get_type ns
    put_namespace p t ns
    set_all_child_namespace (p_child p) ns
    list_safe_del e (n_link ns)
    list_add_tail (n_link ns) pid_ns_list_h
    pure true

  pub alloc_namespace : ℕ → Cmd Addr
  alloc_namespace type = do
    empty ← list_empty pid_ns_free_h
    if empty then pure null else do
      node ← get_next pid_ns_free_h
      let ns = nsd_of_link node
      list_del (n_link ns)
      put_type ns type
      pure ns

  pub free_namespace : Addr → Proc
  free_namespace ns = do list_safe_del e (n_link ns); list_add_tail (n_link ns) pid_ns_free_h
