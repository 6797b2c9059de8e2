-- ===== src/Tests/Syscalls.antt =====
-- P, V and the system calls at concrete memories.
use pand_os.Prelude.{ℕ, ◌+◌, ◌<◌, ◌≤◌, ◌^◌, ◌≡◌, refl, [], ◌∷◌, arith, upd, suc}
use pand_os.Mem.{null, State}
use pand_os.Fields.{p_s}
use pand_os.Outcome.{Exits}
use pand_os.Links.Rings.{Ring}
use pand_os.Instance.{env, laws}
use pand_os.Pcb.Unlink.{IsDetached}
use pand_os.Interrupt.{device_loop}
use pand_os.Interrupt.Bitmap.{device_loop-highest}
use pand_os.DeviceIo.{io_line, io_index, io_installed}
use pand_os.DeviceIo.Index.{IsUmps, io_index-device}
use pand_os.Syscall.{dispatch}
use pand_os.Syscall.DoIo.{dispatch-missing}
use pand_os.Tests.States.{zero_state, busy, ready-Ring}

device_loop-highest_example :
    (i : ℕ) × (device_loop 7 12 0 ≡ 0 + i) × (i ≤ 7) × (2 ^ i ≤ 12) × (12 < 2 ^ (suc i))
device_loop-highest_example = device_loop-highest 7 12 0 (omega arith) (omega arith)

machine-IsUmps : IsUmps env
machine-IsUmps = record {
  start = refl;
  size = refl;
  per_line = refl;
  first_line = refl;
  terminals = refl;
  index = λ line. refl;
  address = λ line dev. refl;
}

-- The second device of the line of the printers.
io_index-device_example : (io_line env 0x100001E4 ≡ 6) × (io_index env 6 0x100001E4 ≡ 25)
io_index-device_example =
    io_index-device env machine-IsUmps 6 1 (omega arith) (omega arith) (omega arith)

abbrev io_call : State
io_call = record zero_state { gpr = upd (upd (λ r. 0) 4 0x10000054) 5 9600 }

dispatch-missing_example :
    Exits
      (λ x m'.
        (m'.current_active_process ≡ 2192)
        × Ring m'.next m'.prev 1000 (2384 ∷ [])
        × IsDetached m' 2000
        × (m'.p_sem_add 2000 ≡ null)
        × (m'.state (p_s 2000) ≡ zero_state)
        × (m'.process_count ≡ 4))
      (dispatch env 9500 io_call 5 busy)
unfolding io_line io_installed
dispatch-missing_example =
    dispatch-missing env laws busy 0x10000054 9600 (omega arith) (omega arith) (omega arith) refl
      9500 io_call 2192 (2384 ∷ []) ready-Ring (omega arith) refl refl (omega arith) (omega arith)
      refl (refl, refl) refl
