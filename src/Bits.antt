-- ===== src/Bits.antt =====
-- Single bits of a machine word: what `w & (1 << k)`, `w |= 1 << k`, `w &= ~(1 << k)` and
-- `w ^= 1 << k` do in the programs' bitmaps and flag words.
pub mod Laws
pub mod Native
use csc369group.Prelude.{ℕ, zero, suc, ◌+◌, ◌*◌, ◌/◌, ◌%◌, Bool, if◌then◌else◌, ◌==◌}

-- (w >> k) & 1
unfoldable pub bit : ℕ → ℕ → Bool
bit zero w = (w % 2) == 1
bit (suc k) w = bit k (w / 2)

-- w | (1 << k)
unfoldable pub set_bit : ℕ → ℕ → ℕ
set_bit zero w = w / 2 * 2 + 1
set_bit (suc k) w = set_bit k (w / 2) * 2 + w % 2

-- w & ~(1 << k)
unfoldable pub clear_bit : ℕ → ℕ → ℕ
clear_bit zero w = w / 2 * 2
clear_bit (suc k) w = clear_bit k (w / 2) * 2 + w % 2

-- w ^ (1 << k)
unfoldable pub toggle_bit : ℕ → ℕ → ℕ
unfolding set_bit clear_bit bit
toggle_bit k w = if bit k w then clear_bit k w else set_bit k w
