-- ===== src/Fields.antt =====
-- Struct layout (the 32-bit layout of phase1/include/pandos_types.h) and the reads and writes of
-- fields through a pointer.
use pand_os.Prelude.{ℕ, ◌+◌, ◌-◌, ◌*◌, upd}
use pand_os.Mem.{
  Addr, State, Context, set_next, set_prev, set_pcbs, set_objects, Cmd, Proc, read, write,
}

-- pcb_t: p_list, p_parent, p_child, p_sib, p_s, ...: the address of a member, and container_of
abbrev pub p_list : Addr → Addr
p_list p = p

abbrev pub pcb_of_list : Addr → Addr
pcb_of_list l = l

abbrev pub p_child : Addr → Addr
p_child p = p + 12

abbrev pub p_sib : Addr → Addr
p_sib p = p + 20

abbrev pub pcb_of_sib : Addr → Addr
pcb_of_sib l = l - 20

abbrev pub p_s : Addr → Addr
p_s p = p + 28

abbrev pub sizeof_pcb : ℕ
sizeof_pcb = 192

-- semd_t: s_key, s_procq, s_link, s_freelink
abbrev pub s_procq : Addr → Addr
s_procq s = s + 4

abbrev pub s_link : Addr → Addr
s_link s = s + 12

abbrev pub semd_of_link : Addr → Addr
semd_of_link l = l - 12

abbrev pub s_freelink : Addr → Addr
s_freelink s = s + 20

abbrev pub semd_of_freelink : Addr → Addr
semd_of_freelink l = l - 20

abbrev pub sizeof_semd : ℕ
sizeof_semd = 28

-- nsd_t: n_type, n_link
abbrev pub n_link : Addr → Addr
n_link s = s + 4

abbrev pub nsd_of_link : Addr → Addr
nsd_of_link l = l - 4

abbrev pub sizeof_nsd : ℕ
sizeof_nsd = 12

-- support_t: sup_asid, sup_exceptState[2], sup_exceptContext[2], ...
abbrev pub sup_except_state : Addr → ℕ → Addr
sup_except_state s i = s + 4 + 140 * i

abbrev pub sup_except_context : Addr → ℕ → Addr
sup_except_context s i = s + 284 + 12 * i

abbrev pub get_next : Addr → Cmd Addr
get_next = read (λ m. m.next)

abbrev pub get_prev : Addr → Cmd Addr
get_prev = read (λ m. m.prev)

abbrev pub put_next : Addr → Addr → Proc
put_next p v = write p (set_next p v)

abbrev pub put_prev : Addr → Addr → Proc
put_prev p v = write p (set_prev p v)

abbrev pub get_parent : Addr → Cmd Addr
get_parent = read (λ m. m.p_parent)

abbrev pub put_parent : Addr → Addr → Proc
put_parent p v = write p (set_pcbs (λ b. record b { p_parent = upd b.p_parent p v }))

abbrev pub get_time : Addr → Cmd ℕ
get_time = read (λ m. m.p_time)

abbrev pub put_time : Addr → ℕ → Proc
put_time p v = write p (set_pcbs (λ b. record b { p_time = upd b.p_time p v }))

abbrev pub get_sem_add : Addr → Cmd Addr
get_sem_add = read (λ m. m.p_sem_add)

abbrev pub put_sem_add : Addr → Addr → Proc
put_sem_add p v = write p (set_pcbs (λ b. record b { p_sem_add = upd b.p_sem_add p v }))

abbrev pub get_support : Addr → Cmd Addr
get_support = read (λ m. m.p_support_struct)

abbrev pub put_support : Addr → Addr → Proc
put_support p v =
    write p (set_pcbs (λ b. record b { p_support_struct = upd b.p_support_struct p v }))

abbrev pub get_saved : Addr → Cmd Addr
get_saved = read (λ m. m.p_saved_device_status)

abbrev pub put_saved : Addr → Addr → Proc
put_saved p v =
    write p (set_pcbs (λ b. record b { p_saved_device_status = upd b.p_saved_device_status p v }))

abbrev pub get_pid : Addr → Cmd ℕ
get_pid = read (λ m. m.p_pid)

abbrev pub put_pid : Addr → ℕ → Proc
put_pid p v = write p (set_pcbs (λ b. record b { p_pid = upd b.p_pid p v }))

abbrev pub get_namespace : Addr → ℕ → Cmd Addr
get_namespace p i = read (λ m a. m.namespaces a i) p

abbrev pub put_namespace : Addr → ℕ → Addr → Proc
put_namespace p i v =
    write p
      (set_pcbs (λ b. record b { namespaces = upd b.namespaces p (upd (b.namespaces p) i v) }))

abbrev pub get_key : Addr → Cmd Addr
get_key = read (λ m. m.s_key)

abbrev pub put_key : Addr → Addr → Proc
put_key s v = write s (set_objects (λ b. record b { s_key = upd b.s_key s v }))

abbrev pub get_type : Addr → Cmd ℕ
get_type = read (λ m. m.n_type)

abbrev pub put_type : Addr → ℕ → Proc
put_type s v = write s (set_objects (λ b. record b { n_type = upd b.n_type s v }))

abbrev pub get_state : Addr → Cmd State
get_state = read (λ m. m.state)

abbrev pub put_state : Addr → State → Proc
put_state a v = write a (set_objects (λ b. record b { state = upd b.state a v }))

abbrev pub get_context : Addr → Cmd Context
get_context = read (λ m. m.context)

abbrev pub get_word : Addr → Cmd ℕ
get_word = read (λ m. m.word)

abbrev pub put_word : Addr → ℕ → Proc
put_word a v = write a (set_objects (λ b. record b { word = upd b.word a v }))

-- one general register of a saved state
abbrev pub put_gpr : Addr → ℕ → ℕ → Proc
put_gpr a r v = write a (
    set_objects (λ b. record b {
      state = upd b.state a (record (b.state a) { gpr = upd (b.state a).gpr r v });
    }))

-- `p->p_s`, through the pointer to the process
abbrev pub get_p_s : Addr → Cmd State
get_p_s = read (λ m p. m.state (p_s p))

abbrev pub put_p_s : Addr → State → Proc
put_p_s p v = write p (set_objects (λ b. record b { state = upd b.state (p_s p) v }))

abbrev pub put_p_s_gpr : Addr → ℕ → ℕ → Proc
put_p_s_gpr p r v = write p (
    set_objects (λ b. record b {
      state =
          upd b.state (p_s p) (record (b.state (p_s p)) { gpr = upd (b.state (p_s p)).gpr r v });
    }))
