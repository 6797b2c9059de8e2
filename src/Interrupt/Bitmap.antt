-- ===== src/Interrupt/Bitmap.antt =====
-- The search for the interrupting device of a line in its bitmap.
use pand_os.Prelude.{ℕ, zero, suc, ◌+◌, ◌/◌, ◌^◌, ◌≤◌, ◌<◌, ◌≡◌, ltb, arith, Bool-cases, inl, inr}
use native.Mathlib.Nat.{pow-suc}
use pand_os.Interrupt.{device_loop}

-- For a bitmap that is not 0 and has at most as many further bits as the loop has rounds, the loop
-- of getInterruptingDevice adds the place of the highest bit that is set.
pub device_loop-highest :
    (k bitmap d : ℕ)
    → 0 < bitmap
    → bitmap < 2 ^ (suc k)
    → (i : ℕ) × (device_loop k bitmap d ≡ d + i)
      × (i ≤ k)
      × (2 ^ i ≤ bitmap)
      × (bitmap < 2 ^ (suc i))
unfolding device_loop
device_loop-highest zero bitmap d pos top = (0, omega arith, omega arith, omega arith, omega arith)
device_loop-highest (suc k) bitmap d pos top = elim (Bool-cases (ltb 1 bitmap)) [
  | inl more ↦
      let r =
        device_loop-highest k (bitmap / 2) (d + 1) (ground arith)
          (omega (arith, pow-suc 2 (suc k))) in
      rw more (
        suc r.0,
        omega (arith, r.1),
        omega (arith, r.2),
        omega (arith, r.3, pow-suc 2 r.0),
        omega (arith, r.4, pow-suc 2 (suc r.0)),
      )
  | inr one ↦ rw one (0, omega arith, omega arith, omega arith, ground arith)
]
