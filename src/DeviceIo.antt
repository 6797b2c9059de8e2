-- ===== src/DeviceIo.antt =====
-- doIO of pandos/phase2/syscall.c: from the address of a device register to the device's semaphore.
pub mod Index
use pand_os.Prelude.{ℕ, ◌+◌, ◌*◌, ◌/◌, ◌%◌, ◌^◌, Bool, not, ◌==◌, if◌then◌else◌, bit_and}
use pand_os.Mem.{Addr, Proc, ◌>>=◌, ◌>>◌}
use pand_os.Fields.{put_saved, put_p_s_gpr, get_word, put_word}
use pand_os.Words.{sub32, minus_one, div_int}
use pand_os.Env.{Env}
use pand_os.Scheduler.{current_proc}
use pand_os.Devices.{get_dev_sem}
use pand_os.Interrupt.{sem_p}

module _ (e : Env) where
  open e use {
    reg_v0, il_terminal, dev_il_start, dev_reg_start, dev_reg_size, dev_per_int, ext_il_index,
    dev_reg_addr, idev_bitmap_addr, dtp_command, dtp_data0, dtp_data1, recv_command, transm_command,
    command, data0, data1,
  }

  -- the interrupt line and the device number that doIO works out from a register's address
  unfoldable pub io_line : Addr → ℕ
  io_line cmd_addr = sub32 cmd_addr dev_reg_start / (dev_reg_size * dev_per_int) + dev_il_start

  pub io_device : (line cmd_addr : ℕ) → ℕ
  io_device line cmd_addr =
      div_int (sub32 cmd_addr (dev_reg_addr line 0))
        (if line == il_terminal then dev_per_int else dev_per_int * 2)

  pub io_index : (line cmd_addr : ℕ) → ℕ
  unfolding io_device
  io_index line cmd_addr = ext_il_index line * dev_per_int + io_device line cmd_addr

  unfoldable pub io_installed : (bitmap line cmd_addr : ℕ) → Bool
  io_installed bitmap line cmd_addr =
      not (bit_and bitmap (2 ^ (div_int (sub32 cmd_addr (dev_reg_addr line 0)) 16)) == 0)

  -- the write of the command, which starts the device: a terminal's transmitter has an odd index
  pub start_io : (line index cmd_addr cmd_values : ℕ) → Proc
  start_io line index cmd_addr cmd_values =
      if line == il_terminal
      then (if not (index % 2 == 0)
          then (do
            c ← get_word (cmd_values + 4 * command)
            put_word (sub32 cmd_addr (dev_reg_size / 2) + transm_command) c)
          else do c ← get_word (cmd_values + 4 * command); put_word (cmd_addr + recv_command) c)
      else do
        c ← get_word (cmd_values + 4 * command)
        put_word (cmd_addr + dtp_command) c
        d0 ← get_word (cmd_values + 4 * data0)
        put_word (cmd_addr + dtp_data0) d0
        d1 ← get_word (cmd_values + 4 * data1)
        put_word (cmd_addr + dtp_data1) d1

  unfoldable pub do_io : (cmd_addr cmd_values : Addr) → Proc
  unfolding io_line io_index io_installed start_io
  do_io cmd_addr cmd_values = do
    current ← current_proc
    put_saved current cmd_values
    let line = io_line cmd_addr
    let index = io_index line cmd_addr
    bitmap ← get_word (idev_bitmap_addr line)
    if not (io_installed bitmap line cmd_addr)
        then (do
          put_word (cmd_values + 4 * e.status) 0
          current ← current_proc
          put_p_s_gpr current reg_v0 minus_one)
        else do start_io line index cmd_addr cmd_values; sem_p e (get_dev_sem e index)
