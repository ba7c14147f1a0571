-- ===== src/Ext2/Bitmaps.antt =====
-- a3/ext2_util.c: the inode and block bitmaps of an image, arrays of `unsigned char`, and `round_up`.
pub mod Alloc
use csc369group.Prelude.{
  ℕ, zero, suc, ◌+◌, ◌-◌, ◌/◌, ◌%◌, ◌^◌, Bool, Option, none, some, if◌then◌else◌, ◌==◌, update,
}
use csc369group.Bits.{bit, set_bit, clear_bit}

-- `(bitmap_ptr[pos / 8] >> pos % 8) & 1`
unfoldable pub in_use : (ℕ → ℕ) → ℕ → Bool
in_use bitmap pos = bit (pos % 8) (bitmap (pos / 8))

-- The `while` from `pos` on. `none` is the result -1.
unfoldable pub free_loop : (rounds pos : ℕ) → (ℕ → ℕ) → Option ℕ × (ℕ → ℕ)
unfolding in_use
free_loop zero pos bitmap = (none, bitmap)
free_loop (suc r) pos bitmap =
    let rest = free_loop r (suc pos) bitmap in
    if in_use bitmap pos
    then rest
    else (some pos, update bitmap (pos / 8) (set_bit (pos % 8) (bitmap (pos / 8))))

unfoldable pub get_free_bitmap : (ℕ → ℕ) → (count : ℕ) → Option ℕ × (ℕ → ℕ)
unfolding free_loop
get_free_bitmap bitmap count = free_loop count 0 bitmap

unfoldable pub set_free_bitmap : ℕ → (ℕ → ℕ) → ℕ → ℕ
set_free_bitmap i bitmap = update bitmap (i / 8) (clear_bit (i % 8) (bitmap (i / 8)))

-- Arithmetic on `unsigned`. The division by 0 that `mult == 0` would be is not modelled.
unfoldable pub round_up : (num mult : ℕ) → ℕ
round_up num mult = let r = num % mult in if r == 0 then num else (num + mult + 2 ^ 32 - r) % 2 ^ 32
