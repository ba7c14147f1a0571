-- ===== src/Paging/Bitmap/Alloc.antt =====
-- a2/starter/swap.c: `bitmap_alloc` hands out the lowest free index.
use csc369group.Prelude.{
  ℕ, zero, suc, ◌+◌, ◌-◌, ◌*◌, ◌/◌, ◌%◌, ◌^◌, ◌≤◌, ◌<◌, ◌≡◌, ◌≢◌, refl, true, false, Option, none,
  some, arith, if◌then◌else◌, ltb, ◌==◌, update, Bool-cases, inl, inr, ap, sym, ◌∙◌, lt→ltb, ==_iff,
  ==_refl,
}
use mathlib.Core.Bool.{false≢true}
use csc369group.Bits.{bit, set_bit}
use csc369group.Bits.Laws.{bit-set_bit, bit-clear_bit, set_bit-lt, bit_clear_exists, bit_of_ones}
use csc369group.Outcome.{◌>>=◌, Returns, returns}
use csc369group.Paging.Bitmap.{
  Bitmap, bits_per_word, word_allbits, word_count, free_offset, take_offset, alloc_loop,
  bitmap_alloc, bitmap_isset, bitmap_mark, bitmap_unmark,
}

-- Each word is a 32-bit word, the words cover all bits, and the leftover bits at the end are in use.
pub record IsValid (b : Bitmap) : Type 0 where
  pub size : b.nbits + bits_per_word < 2 ^ 32
  pub word : (ix : ℕ) → b.v ix < 2 ^ 32
  pub leftover :
      (j : ℕ) → b.nbits ≤ j → j < word_count b.nbits * bits_per_word → bitmap_isset b j ≡ true

-- What the search of one word finds.
abbrev Found : (offset : ℕ) → ℕ → Option ℕ → Type 0
Found offset w none = (k : ℕ) → offset ≤ k → k < 32 → bit k w ≡ true
Found offset w (some o) =
    (o < 32) × (bit o w ≡ false) × ((k : ℕ) → offset ≤ k → k < o → bit k w ≡ true)

free_offset-Found : (r offset w : ℕ) → offset + r ≡ 32 → Found offset w (free_offset r offset w)
unfolding free_offset
free_offset-Found zero offset w h = λ k lo hi. absurd (omega arith)
free_offset-Found (suc r) offset w h = elim (Bool-cases (bit offset w)) [
  | inr clear ↦ rw clear (omega arith, clear, λ k lo hi. absurd (omega arith))
  | inl taken ↦ rw taken (
      extend (free_offset r (suc offset) w) (free_offset-Found r (suc offset) w (omega arith))
        taken)
]
  where
    extend : (o : Option ℕ) → Found (suc offset) w o → bit offset w ≡ true → Found offset w o
    extend none f t = λ k lo hi. ground (arith, f k)
    extend (some o) f t = (f.0, f.1, λ k lo hi. ground (arith, f.2 k))

isset-word : (b : Bitmap) (ix o : ℕ) → o < 32 → bitmap_isset b (ix * 32 + o) ≡ bit o (b.v ix)
unfolding bitmap_isset
isset-word b ix o h =
    let quotient : (ix * 32 + o) / 32 ≡ ix = omega arith in
    let remainder : (ix * 32 + o) % 32 ≡ o = omega arith in cc

-- The bit at an index, with the index cut into word and offset.
isset-split : (b : Bitmap) (j : ℕ) → bitmap_isset b j ≡ bit (j % 32) (b.v (j / 32))
unfolding bitmap_isset
isset-split b j = refl

-- All bits before word `ix` are set, and so are the first `o` of that word.
below_in_word :
    (b : Bitmap) (ix o j : ℕ)
    → o ≤ 32
    → ((m : ℕ) → m < ix * 32 → bitmap_isset b m ≡ true)
    → ((k : ℕ) → k < o → bit k (b.v ix) ≡ true)
    → j < ix * 32 + o
    → bitmap_isset b j ≡ true
below_in_word b ix o j le below word lt = elim (Bool-cases (ltb j (ix * 32))) [
  | inl p ↦ below j (ground arith)
  | inr p ↦
      let e : ix * 32 + (j - ix * 32) ≡ j = ground arith in
      ap (bitmap_isset b) (sym e)
      ∙ isset-word b ix (j - ix * 32) (ground arith)
      ∙ word (j - ix * 32) (ground arith)
]

-- The specification of `bitmap_alloc`. No result: every bit is set. A result: the index was free and
-- every lower one set, and now it is set and all else as before.
unfoldable pub Allocates : Bitmap → Option (ℕ × Bitmap) → Type 0
Allocates b none = (j : ℕ) → j < b.nbits → bitmap_isset b j ≡ true
Allocates b (some (i, b')) =
    (i < b.nbits)
    × (bitmap_isset b i ≡ false)
    × ((j : ℕ) → j < i → bitmap_isset b j ≡ true)
    × ((j : ℕ) → bitmap_isset b' j ≡ (if j == i then true else bitmap_isset b j))
    × (b'.nbits ≡ b.nbits)
    × IsValid b'

module _ {b : Bitmap} (v : IsValid b) where
  -- The state after the bit of word `ix` at `o` is set.
  abbrev with_bit : (ix o : ℕ) → Bitmap
  with_bit ix o = record b { v = update b.v ix (set_bit o (b.v ix)) }

  isset-with_bit :
      (ix o j : ℕ)
      → o < 32
      → bitmap_isset (with_bit ix o) j ≡ (if j == ix * 32 + o then true else bitmap_isset b j)
  unfolding bitmap_isset
  isset-with_bit ix o j h = ground (arith, bit-set_bit (j % 32) o (b.v ix))

  with_bit-IsValid : (ix o : ℕ) → o < 32 → IsValid (with_bit ix o)
  with_bit-IsValid ix o h = record {
    size = v.size;
    word = λ m. elim (Bool-cases (m == ix)) [
      | inl p ↦ rw p (set_bit-lt 32 o (b.v ix) h (v.word ix))
      | inr p ↦ rw p (v.word m)
    ];
    leftover = λ j lo hi. rw (isset-with_bit ix o j h) (ground (arith, v.leftover j));
  }

  take_offset-Allocates :
      (ix : ℕ) (o : Option ℕ)
      → ix < word_count b.nbits
      → b.v ix ≢ word_allbits
      → ((j : ℕ) → j < ix * 32 → bitmap_isset b j ≡ true)
      → Found 0 (b.v ix) o
      → Returns (Allocates b) (take_offset b ix o)
  unfolding take_offset Allocates
  take_offset-Allocates ix none lt ne below f =
      let (k, range, clear) = bit_clear_exists 32 (b.v ix) (v.word ix) ne in
      absurd (false≢true (sym clear ∙ f k (omega arith) range))
  take_offset-Allocates ix (some o) lt ne below f =
      let free : bitmap_isset b (ix * 32 + o) ≡ false = isset-word b ix o f.0 ∙ f.1 in
      let inside : ix * 32 + o < b.nbits = ground (arith, v.leftover (ix * 32 + o)) in
      rw (lt→ltb _ _ inside) (
        returns (
          inside,
          free,
          (λ j lt.
              below_in_word b ix o j (omega (arith, f.0)) below (λ k hi. f.2 k (omega arith) hi)
                lt),
          (λ j. isset-with_bit ix o j f.0),
          refl,
          with_bit-IsValid ix o f.0,
        ))

  alloc_loop-Allocates :
      (r ix : ℕ)
      → ix + r ≡ word_count b.nbits
      → ((j : ℕ) → j < ix * 32 → bitmap_isset b j ≡ true)
      → Returns (Allocates b) (alloc_loop r ix b)
  unfolding alloc_loop
  alloc_loop-Allocates zero ix e below =
      unfold Allocates in returns {a = none} (λ j lt. below j (omega (arith, v.size)))
  alloc_loop-Allocates (suc r) ix e below = elim (Bool-cases (b.v ix == word_allbits)) [
    | inl full ↦ rw full (
        alloc_loop-Allocates r (suc ix) (omega arith) λ j lt.
          below_in_word b ix 32 j (omega arith) below
            (λ k hi. ap (bit k) ((==_iff _ _).0 full) ∙ bit_of_ones 32 k hi) (omega arith))
    | inr room ↦ rw room (
        take_offset-Allocates ix (free_offset 32 0 (b.v ix)) (omega arith) (ground arith) below
          (free_offset-Found 32 0 (b.v ix) refl))
  ]

  -- On a valid bitmap `bitmap_alloc` returns, with no assertion failing. It gives the lowest index
  -- whose bit is clear, sets that bit and no other and keeps the bitmap valid; it reports that there is
  -- no room exactly if every bit is set.
  pub bitmap_alloc-Allocates : Returns (Allocates b) (bitmap_alloc b)
  unfolding bitmap_alloc
  bitmap_alloc-Allocates =
      alloc_loop-Allocates (word_count b.nbits) 0 (omega arith) (λ j lt. absurd (omega arith))

  -- On a valid bitmap, `bitmap_mark` of a bit in range that is clear, and then `bitmap_unmark` of
  -- it, both return, with no assertion failing, and every bit is as before.
  pub unmark-mark :
      (i : ℕ)
      → i < b.nbits
      → bitmap_isset b i ≡ false
      → Returns
          (λ b'. (j : ℕ) → bitmap_isset b' j ≡ bitmap_isset b j)
          (bitmap_mark b i >>= λ b'. bitmap_unmark b' i)
  unfolding bitmap_mark bitmap_unmark bitmap_isset
  unmark-mark i lt clear =
      let w = b.v (i / 32) in
      let o = i % 32 in
      let marked : bit o (set_bit o w) ≡ true = bit-set_bit o o w ∙ rw (==_refl o) refl in
      rw (lt→ltb _ _ lt, clear)
        (rw (lt→ltb _ _ lt, ==_refl (i / 32))
          (rw marked (
            returns λ j.
              ground (arith, bit-set_bit (j % 32) o w, bit-clear_bit (j % 32) o (set_bit o w)))))
