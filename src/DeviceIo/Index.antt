-- ===== src/DeviceIo/Index.antt =====
-- The addresses of the device registers, and what doIO works out from them.
use pand_os.Prelude.{ℕ, ◌+◌, ◌-◌, ◌*◌, ◌^◌, ◌≤◌, ◌<◌, ◌≡◌, refl, false, true, arith, ◌==◌, ltb}
use pand_os.Words.{sub32}
use pand_os.Env.{Env}
use pand_os.DeviceIo.{io_line, io_device, io_index}

-- The device registers as uMPS3 documents them: 16 bytes each, 8 devices to a line, from line 3 on.
pub record IsUmps (e : Env) : Type 0 where
  pub start : e.dev_reg_start ≡ 0x10000054
  pub size : e.dev_reg_size ≡ 16
  pub per_line : e.dev_per_int ≡ 8
  pub first_line : e.dev_il_start ≡ 3
  pub terminals : e.il_terminal ≡ 7
  pub index : (line : ℕ) → e.ext_il_index line ≡ line - 3
  pub address : (line dev : ℕ) → e.dev_reg_addr line dev ≡ 0x10000054 + (line - 3) * 128 + dev * 16

module _ (e : Env) (u : IsUmps e) (line dev : ℕ) (low : 3 ≤ line) (few : dev < 8) where
  -- The line of every word of a device register.
  line_of : (a b : ℕ) → a ≡ e.dev_reg_addr line dev + b → line < 8 → b < 16 → io_line e a ≡ line
  unfolding io_line
  line_of a b at high inside =
      simp (at, u.start, u.size, u.per_line, u.first_line, u.address) (omega arith)

  offset_of :
      (a b : ℕ)
      → a ≡ e.dev_reg_addr line dev + b
      → b < 16
      → line < 8
      → sub32 a (e.dev_reg_addr line 0) ≡ dev * 16 + b
  offset_of a b at inside high = simp (at, u.address) (omega arith)

  -- On the documented register layout, for a device below 8 of a line from 3 to 6, the interrupt
  -- line and the semaphore index that doIO works out from the address of the device register are
  -- the line and the index that manageDevices uses.
  pub io_index-device :
      line < 7
      → (io_line e (e.dev_reg_addr line dev) ≡ line)
        × (io_index e line (e.dev_reg_addr line dev) ≡ e.ext_il_index line * e.dev_per_int + dev)
  unfolding io_index io_device
  io_index-device high = (
    line_of (e.dev_reg_addr line dev) 0 (omega arith) (omega arith) (omega arith),
    let other : (line == 7) ≡ false = ground arith in
        let small : ltb (dev * 16 + 0) (2 ^ 31) ≡ true = ground arith in
        simp
          (
            offset_of (e.dev_reg_addr line dev) 0 (omega arith) (omega arith) (omega arith),
            u.per_line,
            u.terminals,
            other,
            small,
          )
          (omega arith),
  )

  -- On the documented register layout, for a terminal below 8 and the receiver (0) or transmitter
  -- (1) half of its register, the line and the semaphore index that doIO works out from the address
  -- are those that interruptHandler uses for that half.
  pub io_index-terminal :
      (which : ℕ)
      → which < 2
      → line ≡ 7
      → (io_line e (e.dev_reg_addr line dev + which * 8) ≡ line)
        × (io_index e line (e.dev_reg_addr line dev + which * 8)
            ≡ e.ext_il_index e.il_terminal * e.dev_per_int + dev * 2 + which)
  unfolding io_index io_device
  io_index-terminal which half t = (
    line_of (e.dev_reg_addr line dev + which * 8) (which * 8) refl (omega arith) (omega arith),
    let same : (line == 7) ≡ true = ground arith in
        let small : ltb (dev * 16 + which * 8) (2 ^ 31) ≡ true = ground arith in
        simp
          (
            offset_of (e.dev_reg_addr line dev + which * 8) (which * 8) refl (omega arith)
                (omega arith),
            u.per_line,
            u.terminals,
            same,
            small,
          )
          (rw t (omega arith)),
  )
