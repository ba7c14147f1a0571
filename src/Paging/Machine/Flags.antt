-- ===== src/Paging/Machine/Flags.antt =====
-- a2/starter/pagetable.h: the PG_ flags stand below the frame number and apart from each other.
use csc369group.Prelude.{ℕ, zero, suc, ◌*◌, ◌/◌, ◌%◌, ◌<◌, ◌≡◌, false, arith, Bool-cases, inl, inr}
use csc369group.Bits.{bit, set_bit, clear_bit, toggle_bit}

pub set_bit-frame : (k w : ℕ) → k < 4 → set_bit k w / 4096 ≡ w / 4096
unfolding set_bit
set_bit-frame zero w h = omega arith
set_bit-frame (suc zero) w h = omega arith
set_bit-frame (suc (suc zero)) w h = omega arith
set_bit-frame (suc (suc (suc zero))) w h = omega arith
set_bit-frame (suc (suc (suc (suc k)))) w h = absurd (omega arith)

clear_bit-frame : (k w : ℕ) → k < 4 → clear_bit k w / 4096 ≡ w / 4096
unfolding clear_bit
clear_bit-frame zero w h = omega arith
clear_bit-frame (suc zero) w h = omega arith
clear_bit-frame (suc (suc zero)) w h = omega arith
clear_bit-frame (suc (suc (suc zero))) w h = omega arith
clear_bit-frame (suc (suc (suc (suc k)))) w h = absurd (omega arith)

pub toggle_bit-frame : (k w : ℕ) → k < 4 → toggle_bit k w / 4096 ≡ w / 4096
unfolding toggle_bit
toggle_bit-frame k w h = elim (Bool-cases (bit k w)) [
  | inl p ↦ rw p (clear_bit-frame k w h)
  | inr p ↦ rw p (set_bit-frame k w h)
]

-- A shifted frame number has no flags, and is read back where it fits.
pub shifted-valid : (f : ℕ) → bit 0 (f * 4096 % 4294967296) ≡ false
unfolding bit
shifted-valid f = ground arith

pub shifted-onswap : (f : ℕ) → bit 3 (f * 4096 % 4294967296) ≡ false
unfolding bit
shifted-onswap f = ground arith

pub shifted-frame : (f : ℕ) → f < 1048576 → f * 4096 % 4294967296 / 4096 ≡ f
shifted-frame f h = omega arith
