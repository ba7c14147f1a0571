-- ===== src/Paging/Swap.antt =====
-- a2/starter/swap.c: pages to and from the swap file.
use csc369group.Prelude.{
  ℕ, ◌*◌, ◌%◌, ◌^◌, Bool, true, false, not, Option, none, some, ℤ, pos, negsuc, int_of_word,
  if◌then◌else◌, update,
}
use csc369group.Outcome.{Outcome, ok, ◌>>=◌, ◌>>◌, assert}
use csc369group.Paging.Bitmap.{Bitmap, bitmap_alloc}
use csc369group.Paging.Machine.{Transfer, whole, short, SwapFile, Machine}

abbrev pub simpagesize : ℕ
simpagesize = 16

-- swap_offset == INVALID_SWAP
abbrev pub is_invalid_swap : ℤ → Bool
is_invalid_swap (pos n) = false
is_invalid_swap (negsuc n) = elim n [ ℕ.zero ↦ true | ℕ.suc m ↦ false ]

module _ (S : SwapFile) where
  abbrev pub State : Type 0
  State = Machine S.File

  -- Store what `read` delivered and give `swap_pagein`'s result.
  unfoldable pub take_transfer : (frame : ℕ) → Transfer → State → ℤ × State
  take_transfer frame (whole p) m = (pos 0, record m { physmem = update m.physmem frame p })
  take_transfer frame (short n) m = (n, m)

  unfoldable pub swap_pagein : (frame : ℕ) → (swap_offset : ℤ) → State → Outcome (ℤ × State)
  unfolding take_transfer
  swap_pagein frame swap_offset m = do
    assert (not (is_invalid_swap swap_offset))
    elim (S.lseek m.swapfile swap_offset) [
      | some errno ↦ ok (negsuc errno, m)
      | none ↦ ok (take_transfer frame (S.read m.swapfile swap_offset) m)
    ]

  -- The place of a page that has none yet: `none` where the bitmap is full.
  unfoldable pub take_slot : Option (ℕ × Bitmap) → State → Option ℤ × State
  take_slot none m = (none, m)
  take_slot (some (idx, b)) m =
      (some (int_of_word (idx * simpagesize % 2 ^ 32)), record m { swapmap = b })

  unfoldable pub swap_slot : (swap_offset : ℤ) → State → Outcome (Option ℤ × State)
  unfolding take_slot
  swap_slot swap_offset m =
      if is_invalid_swap swap_offset
      then (do found ← bitmap_alloc m.swapmap; ok (take_slot found m))
      else ok (some swap_offset, m)

  -- Seek and write; INVALID_SWAP (-1) where either fails.
  unfoldable pub write_page : (frame : ℕ) → (swap_offset : ℤ) → State → ℤ × State
  write_page frame swap_offset m = elim (S.lseek m.swapfile swap_offset) [
    | some errno ↦ (negsuc 0, m)
    | none ↦
        let (f, complete) = S.write m.swapfile swap_offset (m.physmem frame) in
        (if complete then swap_offset else negsuc 0, record m { swapfile = f })
  ]

  -- The rest of `swap_pageout`: with no place it returns INVALID_SWAP.
  unfoldable pub store_page : (frame : ℕ) → Option ℤ → State → Outcome (ℤ × State)
  unfolding write_page
  store_page frame none m = ok (negsuc 0, m)
  store_page frame (some offset) m = do
    assert (not (is_invalid_swap offset))
    ok (write_page frame offset m)

  unfoldable pub swap_pageout : (frame : ℕ) → (swap_offset : ℤ) → State → Outcome (ℤ × State)
  unfolding swap_slot store_page
  swap_pageout frame swap_offset m = do (slot, m) ← swap_slot swap_offset m; store_page frame slot m
