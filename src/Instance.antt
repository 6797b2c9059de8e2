-- ===== src/Instance.antt =====
-- A concrete environment: addresses for the kernel's variables, the list functions of Links.Linux, a
-- hash table of one bucket, and the uMPS3 machine's documented constants.
use pand_os.Prelude.{◌+◌, ◌-◌, ◌*◌, ◌/◌, ◌%◌, ◌^◌, refl, [], ◌∷◌}
use pand_os.Mem.{Addr, ok, Proc}
use pand_os.Links.Linux
use pand_os.Env.{Globals, HashOps, HashLaws, Umps, Env, Laws, nodes, unhash, set_table, yields}
use pand_os.Ash.Find.{lookup-mem}

abbrev pub globals : Globals
globals = record {
  pcb_free_h = 1008;
  pcb_free_table = 2000;
  semd_free_h = 1016;
  semd_free_table = 7000;
  pid_nsd = 8000;
  pid_ns_free_h = 1024;
  pid_ns_list_h = 1032;
  ready_queue = 1000;
  dev_sems = 9000;
  pseudo_clock_sem = 1300;
  utlb_refill_handler = 1400;
  exception_handler = 1404;
  test = 1408;
}

abbrev pub hash_add : Addr → Addr → Proc
hash_add n key m = ok tt (set_table ((n, key) ∷ m.table) m)

abbrev pub hash_ops : HashOps
hash_ops = record {
  hash_init = λ m. ok tt (set_table [] m);
  hash_add = hash_add;
  hash_del = λ n m. ok tt (set_table (unhash n m.table) m);
  hash_possible = λ key m. ok (nodes m.table) m;
  hash_each = λ m. ok (nodes m.table) m;
}

pub hash_laws : HashLaws hash_ops
hash_laws = record {
  hash_init_lem = λ m. refl;
  hash_add_lem = λ n key m ne out. refl;
  hash_del_lem = λ n m ne. refl;
  hash_possible_lem =
      λ key m. yields (record { sound = λ a i. i; complete = λ ne. lookup-mem key m.table ne });
  hash_each_lem = λ m. yields (record { sound = λ a i. i; complete = λ a i. i });
}

abbrev pub machine : Umps
machine = record {
  reg_v0 = 1;
  reg_a0 = 3;
  reg_a1 = 4;
  reg_a2 = 5;
  reg_a3 = 6;
  reg_t9 = 24;
  reg_sp = 26;
  state_gpr_len = 29;
  exc_int = 0;
  exc_mod = 1;
  exc_tlbl = 2;
  exc_tlbs = 3;
  exc_sys = 8;
  exc_ri = 10;
  cause_get_exccode = λ c. c / 4 % 32;
  cause_exccode_bit = 2;
  cause_ip = λ line. 2 ^ (8 + line);
  status_kup = 8;
  status_kup_bit = 3;
  status_te = 0x08000000;
  status_te_bit = 27;
  il_disk = 3;
  il_flash = 4;
  il_ethernet = 5;
  il_printer = 6;
  il_terminal = 7;
  disk_int = 3;
  flash_int = 4;
  netw_int = 5;
  prnt_int = 6;
  term_int = 7;
  dev_il_start = 3;
  dev_reg_start = 0x10000054;
  dev_reg_size = 16;
  dev_per_int = 8;
  n_dev_per_il = 8;
  dev_int_num = 5;
  ext_il_index = λ line. line - 3;
  dev_reg_addr = λ line dev. 0x10000054 + (line - 3) * 0x80 + dev * 0x10;
  idev_bitmap_addr = λ line. 0x1000002C + (line - 3) * 4;
  cdev_bitmap_addr = λ line. 0x10000040 + (line - 3) * 4;
  dtp_status = 0;
  dtp_command = 4;
  dtp_data0 = 8;
  dtp_data1 = 12;
  recv_status = 0;
  recv_command = 4;
  transm_status = 8;
  transm_command = 12;
  tlb_refill_handler = 0;
  tlb_refill_stack_ptr = 4;
  puv_exception_handler = 8;
  exception_stack_ptr = 12;
  ready = 1;
  busy = 3;
  ack = 1;
  status = 0;
  command = 1;
  data0 = 2;
  data1 = 3;
}

abbrev pub env : Env
env = record { globals = globals; lists = Linux.ops; hash = hash_ops; umps = machine }

pub laws : Laws env
laws = record { lists = Linux.laws; hash = hash_laws }
