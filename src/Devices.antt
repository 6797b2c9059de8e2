-- ===== src/Devices.antt =====
-- The device semaphores: pandos/phase2/devices.c. Each is a word at its address.
use pand_os.Prelude.{ℕ, zero, suc, ◌+◌, ◌*◌}
use pand_os.Mem.{Addr, Proc, done, ◌>>◌}
use pand_os.Fields.{put_word}
use pand_os.Env.{Env}

module _ (e : Env) where
  open e use {dev_sems, pseudo_clock_sem, dev_int_num, dev_per_int}

  unfoldable pub sem_num : ℕ
  sem_num = (dev_int_num + 1) * dev_per_int

  abbrev pub get_dev_sem : ℕ → Addr
  get_dev_sem index = dev_sems + 4 * index

  abbrev pub get_pseudo_clock_sem : Addr
  get_pseudo_clock_sem = pseudo_clock_sem

  unfoldable pub init_sems_loop : (rounds i : ℕ) → Proc
  init_sems_loop zero i = done
  init_sems_loop (suc k) i = do put_word (get_dev_sem i) 0; init_sems_loop k (i + 1)

  unfoldable pub init_dev_sems : Proc
  unfolding init_sems_loop sem_num
  init_dev_sems = do init_sems_loop sem_num 0; put_word pseudo_clock_sem 0
