-- ===== src/Paging/Bitmap.antt =====
-- a2/starter/swap.c: the bitmap of the swap file. An array is a function of the index; `unsigned`
-- arithmetic wraps at 2 ^ 32.
pub mod Create
pub mod Alloc
use csc369group.Prelude.{
  ℕ, zero, suc, ◌+◌, ◌-◌, ◌*◌, ◌/◌, ◌%◌, ◌^◌, Bool, true, false, not, ◌&&◌, Option, none, some,
  if◌then◌else◌, ltb, ◌==◌, update,
}
use csc369group.Bits.{bit, set_bit, clear_bit}
use csc369group.Outcome.{Outcome, ok, abort, ◌>>=◌, ◌>>◌, assert}

abbrev pub bits_per_word : ℕ
bits_per_word = 32

abbrev pub word_allbits : ℕ
word_allbits = 0xffff_ffff

pub record Bitmap : Type 0 where
  pub nbits : ℕ
  pub v : ℕ → ℕ

-- DIVROUNDUP(nbits, BITS_PER_WORD)
abbrev pub word_count : ℕ → ℕ
word_count nbits = (nbits + bits_per_word - 1) % 2 ^ 32 / bits_per_word

-- `for (j = overbits; j < BITS_PER_WORD; j++) v[ix] |= 1 << j`, on the word
unfoldable pub mark_from : (rounds j : ℕ) → ℕ → ℕ
mark_from zero j w = w
mark_from (suc r) j w = mark_from r (suc j) (set_bit j w)

-- `first` and `second` say whether the two calls of `malloc` succeed; `none` is NULL.
unfoldable pub bitmap_create : (first second : Bool) → ℕ → Outcome (Option Bitmap)
unfolding mark_from
bitmap_create first second nbits =
    let words = word_count nbits in
    if not first
    then ok none
    else if not second
    then ok none
    else if ltb (nbits / bits_per_word) words
    then (do
      let ix = words - 1
      let overbits = nbits - ix * bits_per_word
      assert (nbits / bits_per_word == words - 1)
      assert (ltb 0 overbits && ltb overbits bits_per_word)
      ok (
          some (record {
            nbits = nbits;
            v = update (λ _. 0) ix (mark_from (bits_per_word - overbits) overbits 0);
          })))
    else ok (some (record { nbits = nbits; v = λ _. 0 }))

-- The inner loop of `bitmap_alloc`: the first clear bit of a word, from `offset` on.
unfoldable pub free_offset : (rounds offset : ℕ) → ℕ → Option ℕ
free_offset zero offset w = none
free_offset (suc r) offset w =
    let rest = free_offset r (suc offset) w in if bit offset w then rest else some offset

-- What the inner loop does with the word at `ix`: it returns, or runs into `assert(0)`.
unfoldable pub take_offset : Bitmap → (ix : ℕ) → Option ℕ → Outcome (Option (ℕ × Bitmap))
take_offset b ix none = abort
take_offset b ix (some offset) = do
  let index = ix * bits_per_word + offset
  assert (ltb index b.nbits)
  ok (some (index, record b { v = update b.v ix (set_bit offset (b.v ix)) }))

-- The outer loop. `none` is the result 1: no bit is free.
unfoldable pub alloc_loop : (rounds ix : ℕ) → Bitmap → Outcome (Option (ℕ × Bitmap))
unfolding take_offset free_offset
alloc_loop zero ix b = ok none
alloc_loop (suc r) ix b =
    let rest = alloc_loop r (suc ix) b in
    if b.v ix == word_allbits then rest else take_offset b ix (free_offset bits_per_word 0 (b.v ix))

unfoldable pub bitmap_alloc : Bitmap → Outcome (Option (ℕ × Bitmap))
unfolding alloc_loop
bitmap_alloc b = alloc_loop (word_count b.nbits) 0 b

-- bitmap_isset
unfoldable pub bitmap_isset : Bitmap → ℕ → Bool
bitmap_isset b index = bit (index % bits_per_word) (b.v (index / bits_per_word))

unfoldable pub bitmap_mark : Bitmap → ℕ → Outcome Bitmap
bitmap_mark b index = do
  assert (ltb index b.nbits)
  let ix = index / bits_per_word
  let offset = index % bits_per_word
  assert (not (bit offset (b.v ix)))
  ok (record b { v = update b.v ix (set_bit offset (b.v ix)) })

unfoldable pub bitmap_unmark : Bitmap → ℕ → Outcome Bitmap
bitmap_unmark b index = do
  assert (ltb index b.nbits)
  let ix = index / bits_per_word
  let offset = index % bits_per_word
  assert (bit offset (b.v ix))
  ok (record b { v = update b.v ix (clear_bit offset (b.v ix)) })
