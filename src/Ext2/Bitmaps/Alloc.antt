-- ===== src/Ext2/Bitmaps/Alloc.antt =====
-- a3/ext2_util.c: the bitmaps hand out the lowest free position, and take it back.
use native.Mathlib.Nat.{div-add-mod, mul-mod_right, add-mod_right, mod-lt}
use csc369group.Prelude.{
  ℕ, zero, suc, ◌+◌, ◌-◌, ◌*◌, ◌/◌, ◌%◌, ◌^◌, ◌≤◌, ◌<◌, ◌≡◌, refl, true, false, not, ◌&&◌, ◌||◌,
  Option, none, some, arith, ◌==◌, update, Bool-cases, inl, inr, subst, ◌∙◌,
}
use csc369group.Bits.{set_bit}
use csc369group.Bits.Laws.{bit-set_bit, bit-clear_bit}
use csc369group.Ext2.Bitmaps.{in_use, free_loop, get_free_bitmap, set_free_bitmap, round_up}

-- What a search for a free position in `first` .. `bound - 1` gives.
unfoldable pub IsLowest : (bitmap : ℕ → ℕ) → (first bound : ℕ) → Option ℕ × (ℕ → ℕ) → Type 0
IsLowest bitmap first bound (none, after) =
    ((j : ℕ) → first ≤ j → j < bound → in_use bitmap j ≡ true) × ((ix : ℕ) → after ix ≡ bitmap ix)
IsLowest bitmap first bound (some i, after) =
    (i < bound)
    × (in_use bitmap i ≡ false)
    × ((j : ℕ) → first ≤ j → j < i → in_use bitmap j ≡ true)
    × ((j : ℕ) → in_use after j ≡ (j == i || in_use bitmap j))

in_use-taken :
    (bitmap : ℕ → ℕ) (i j : ℕ)
    → in_use (update bitmap (i / 8) (set_bit (i % 8) (bitmap (i / 8)))) j
      ≡ (j == i || in_use bitmap j)
unfolding in_use
in_use-taken bitmap i j = ground (arith, bit-set_bit (j % 8) (i % 8) (bitmap (i / 8)))

pub in_use-freed :
    (bitmap : ℕ → ℕ) (i j : ℕ)
    → in_use (set_free_bitmap i bitmap) j ≡ (not (j == i) && in_use bitmap j)
unfolding in_use set_free_bitmap
in_use-freed bitmap i j = ground (arith, bit-clear_bit (j % 8) (i % 8) (bitmap (i / 8)))

free_loop-IsLowest :
    (r pos : ℕ) (bitmap : ℕ → ℕ) → IsLowest bitmap pos (pos + r) (free_loop r pos bitmap)
unfolding free_loop IsLowest
free_loop-IsLowest zero pos bitmap = ((λ j lo hi. absurd (omega arith)), λ ix. refl)
free_loop-IsLowest (suc r) pos bitmap = elim (Bool-cases (in_use bitmap pos)) [
  | inl taken ↦ rw taken (
      extend (pos + suc r) pos bitmap taken (free_loop r (suc pos) bitmap) (
        subst (λ b. IsLowest bitmap (suc pos) b (free_loop r (suc pos) bitmap)) (omega arith)
          (free_loop-IsLowest r (suc pos) bitmap)))
  | inr free ↦
      rw free (omega arith, free, (λ j lo hi. absurd (omega arith)), in_use-taken bitmap pos)
]
  where
    extend :
        (bound pos : ℕ) (bitmap : ℕ → ℕ)
        → in_use bitmap pos ≡ true
        → (found : Option ℕ × (ℕ → ℕ)) → IsLowest bitmap (suc pos) bound found
        → IsLowest bitmap pos bound found
    extend bound pos bitmap taken (none, after) (full, same) =
        ((λ j lo hi. ground (arith, full j)), same)
    extend bound pos bitmap taken (some i, after) (inside, free, below, change) =
        (inside, free, (λ j lo hi. ground (arith, below j)), change)

-- `get_free_bitmap` ends for every bitmap. It gives the lowest position below `count` that is not in
-- use and marks that position and no other; it gives none, and changes nothing, if all are in use.
pub get_free_bitmap-IsLowest :
    (bitmap : ℕ → ℕ) (count : ℕ) → IsLowest bitmap 0 count (get_free_bitmap bitmap count)
unfolding get_free_bitmap
get_free_bitmap-IsLowest bitmap count =
    subst (λ b. IsLowest bitmap 0 b (free_loop count 0 bitmap)) (omega arith)
      (free_loop-IsLowest count 0 bitmap)

-- A position that `get_free_bitmap` took and `set_free_bitmap` gives back: every position is in use
-- exactly if it was before.
pub set_free-get_free :
    (bitmap after : ℕ → ℕ) (count i : ℕ)
    → get_free_bitmap bitmap count ≡ (some i, after)
    → (j : ℕ) → in_use (set_free_bitmap i after) j ≡ in_use bitmap j
unfolding IsLowest
set_free-get_free bitmap after count i e j =
    let found = subst (IsLowest bitmap 0 count) e (get_free_bitmap-IsLowest bitmap count) in
    in_use-freed after i j ∙ ground (arith, found.3 j, found.1)

-- Where `mult` is not 0 and `num + mult` fits an `int`, `round_up` gives the least multiple of
-- `mult` from `num` on.
pub round_up-least :
    (num mult : ℕ)
    → 0 < mult
    → num + mult < 2 ^ 31
    → (round_up num mult % mult ≡ 0) × (num ≤ round_up num mult) × (round_up num mult < num + mult)
unfolding round_up
round_up-least num mult positive fits = elim (Bool-cases (num % mult == 0)) [
  | inl whole ↦ rw whole (ground arith, omega arith, omega arith)
  | inr part ↦
      let down : mult * (num / mult) + num % mult ≡ num = div-add-mod num mult in
      let value : (num + mult + 4294967296 - num % mult) % 4294967296 ≡ mult * (num / mult) + mult =
        omega (arith, down, mod-lt num positive) in
      let divides : (mult * (num / mult) + mult) % mult ≡ 0 =
        add-mod_right (mult * (num / mult)) mult ∙ mul-mod_right mult (num / mult) in
      rw (part, value)
        (divides, omega (arith, down, mod-lt num positive), ground (arith, down, part))
]
