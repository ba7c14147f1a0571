-- ===== src/Paging/Bitmap/Create.antt =====
-- a2/starter/swap.c: `bitmap_create` gives a valid bitmap in which nothing is allocated.
use csc369group.Prelude.{
  ℕ, zero, suc, ◌+◌, ◌-◌, ◌*◌, ◌/◌, ◌%◌, ◌^◌, ◌≤◌, ◌<◌, ◌≡◌, refl, true, false, ◌&&◌, ◌||◌, some,
  arith, ltb, leb, ◌==◌, update, Bool-cases, inl, inr, ◌∙◌,
}
use csc369group.Bits.{bit, set_bit}
use csc369group.Bits.Laws.{bit-set_bit, set_bit-lt, bit-zero}
use csc369group.Outcome.{Returns, returns}
use csc369group.Paging.Bitmap.{Bitmap, word_count, mark_from, bitmap_create, bitmap_isset}
use csc369group.Paging.Bitmap.Alloc.{IsValid}

bit-mark_from : (r j k w : ℕ) → bit k (mark_from r j w) ≡ (bit k w || (leb j k && ltb k (j + r)))
unfolding mark_from
bit-mark_from zero j k w = ground arith
bit-mark_from (suc r) j k w =
    ground (arith, bit-mark_from r (suc j) k (set_bit j w), bit-set_bit k j w)

mark_from-lt : (r j w : ℕ) → j + r ≤ 32 → w < 2 ^ 32 → mark_from r j w < 2 ^ 32
unfolding mark_from
mark_from-lt zero j w h l = l
mark_from-lt (suc r) j w h l =
    mark_from-lt r (suc j) (set_bit j w) (omega arith) (set_bit-lt 32 j w (omega arith) l)

-- The array in which word `ix` is marked from `overbits` on.
abbrev partial : (nbits ix overbits : ℕ) → Bitmap
partial nbits ix overbits = record {
  nbits = nbits;
  v = update (λ _. 0) ix (mark_from (32 - overbits) overbits 0);
}

isset-partial :
    (nbits ix overbits j : ℕ)
    → overbits < 32
    → bitmap_isset (partial nbits ix overbits) j ≡ ((j / 32 == ix) && leb overbits (j % 32))
unfolding bitmap_isset
isset-partial nbits ix overbits j h =
    ground (arith, bit-mark_from (32 - overbits) overbits (j % 32) 0, bit-zero (j % 32))

-- With memory, and a size that `unsigned` arithmetic can round up, `bitmap_create` returns, with no
-- assertion failing, a valid bitmap of the size asked for in which every bit in range is clear.
pub bitmap_create-IsValid :
    (nbits : ℕ)
    → nbits + 32 < 2 ^ 32
    → Returns
        (λ o.
          (b : Bitmap) × (o ≡ some b)
          × (b.nbits ≡ nbits)
          × IsValid b
          × ((j : ℕ) → j < nbits → bitmap_isset b j ≡ false))
        (bitmap_create true true nbits)
unfolding bitmap_create
bitmap_create-IsValid nbits small = elim (Bool-cases (ltb (nbits / 32) (word_count nbits))) [
  | inl over ↦
      let ix = word_count nbits - 1 in
      let overbits = nbits - ix * 32 in
      let whole : (nbits / 32 == word_count nbits - 1) ≡ true = ground arith in
      let part : (ltb 0 (nbits - (word_count nbits - 1) * 32)
            && ltb (nbits - (word_count nbits - 1) * 32) 32)
          ≡ true =
        ground arith in
      rw (over, whole, part)
        (returns (
          _,
          refl,
          refl,
          record {
            size = small;
            word = λ m. ground (arith, mark_from-lt (32 - overbits) overbits 0);
            leftover = λ j lo hi. isset-partial nbits ix overbits j (ground arith) ∙ ground arith;
          },
          λ j lt. isset-partial nbits ix overbits j (ground arith) ∙ ground arith,
        ))
  | inr exact ↦ rw exact (
      returns (
        record { nbits = nbits; v = λ _. 0 },
        refl,
        refl,
        record {
          size = small;
          word = λ ix. omega arith;
          leftover = λ j lo hi. absurd (ground arith);
        },
        λ j lt. unfold bitmap_isset in bit-zero (j % 32),
      ))
]
