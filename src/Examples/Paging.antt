-- ===== src/Examples/Paging.antt =====
-- a2/starter at concrete inputs: a memory of one frame, which holds a page.
use csc369group.Prelude.{ℕ, ◌≡◌, refl, true, false, none, negsuc, arith, if◌then◌else◌, ◌==◌}
use csc369group.Bits.{bit}
use csc369group.Outcome.{Returns}
use csc369group.Paging.Bitmap.{Bitmap, bitmap_alloc, bitmap_isset}
use csc369group.Paging.Bitmap.Alloc
use csc369group.Paging.Bitmap.Alloc.{Allocates, bitmap_alloc-Allocates, unmark-mark}
use csc369group.Paging.Machine.{Page, Pte, whole, SwapFile}
use csc369group.Paging.Swap.{State}
use csc369group.Paging.PageTable.Coherent.{IsCoherent}
use csc369group.Paging.Clock.{clock_evict}
use csc369group.Paging.Policies.{IsVictim, clock_evict-IsVictim}

-- A swap file that keeps the page written last.
abbrev pub last_page : SwapFile
last_page = record {
  File = Page;
  lseek = λ f off. none;
  read = λ f off. whole f;
  write = λ f off p. (p, true);
}

abbrev pub blank : Page
blank = record { version = 0; vaddr = 0 }

-- A bitmap of 64 bits, of which bit 0 is set.
abbrev pub bits : Bitmap
bits = record { nbits = 64; v = λ ix. if ix == 0 then 1 else 0 }

bits-IsValid : Alloc.IsValid bits
bits-IsValid = record {
  size = omega arith;
  word = λ ix. ground arith;
  leftover = λ j lo hi. absurd (omega arith);
}

-- Frame 0 belongs to the entry at 4096, which is valid, referenced and has no place in swap.
abbrev pub entry : ℕ → Pte
entry q =
    if q == 4096
    then record { frame = 5; swap_off = negsuc 0 }
    else record { frame = 0; swap_off = negsuc 0 }

abbrev pub machine : State last_page
machine = record {
  memsize = 1;
  coremap = λ i. record { prev = none; next = none; in_use = true; pte = 4096 };
  physmem = λ i. blank;
  pgdir = λ i. if i == 0 then 4097 else 0;
  ptes = entry;
  tables = 1;
  swapmap = bits;
  swapfile = blank;
  hit_count = 0;
  miss_count = 1;
  ref_count = 1;
  evict_clean_count = 0;
  evict_dirty_count = 0;
}

pub machine-IsCoherent : IsCoherent (λ _. false) machine
unfolding bit
machine-IsCoherent = record {
  small = omega arith;
  framed = λ i lt used. (omega arith, refl);
  owned = λ q h. ground arith;
  saved = λ q h. ground arith;
  swap_valid = bits-IsValid;
}

clock_evict_example : Returns (IsVictim machine) (clock_evict machine 0)
clock_evict_example = clock_evict-IsVictim machine 0 (omega arith)

alloc_example : Returns (Allocates bits) (bitmap_alloc bits)
alloc_example = bitmap_alloc-Allocates bits-IsValid

clear_7 : bitmap_isset bits 7 ≡ false
unfolding bitmap_isset bit
clear_7 = refl
