-- ===== src/Paging/Machine.antt =====
-- a2/starter: pagetable.h and sim.h, the global state of the simulator.
pub mod Flags
use csc369group.Prelude.{ℕ, ◌/◌, ◌%◌, ◌*◌, ◌^◌, Bool, Option, ℤ}
use csc369group.Bits.{bit, set_bit, toggle_bit}
use csc369group.Outcome.{Outcome}
use csc369group.Paging.Bitmap.{Bitmap}

-- One simulated page of SIMPAGESIZE bytes: the `int` at its start, the version, and the address
-- behind it. The program reads and writes nothing else of a page.
pub record Page : Type 0 where
  pub version : ℕ
  pub vaddr : ℕ

-- `pgtbl_entry_t`: the frame number above PAGE_SHIFT, with the PG_ flags below, and the place of
-- the page in the swap file.
pub record Pte : Type 0 where
  pub frame : ℕ
  pub swap_off : ℤ

-- `struct frame`. A link to another frame is its index, a `pte` the address of an entry.
pub record Frame : Type 0 where
  pub prev : Option ℕ
  pub next : Option ℕ
  pub in_use : Bool
  pub pte : ℕ

-- The PG_ flags of an entry, by position.
abbrev pub is_valid : Pte → Bool
is_valid e = bit 0 e.frame

abbrev pub is_dirty : Pte → Bool
is_dirty e = bit 1 e.frame

abbrev pub is_ref : Pte → Bool
is_ref e = bit 2 e.frame

abbrev pub is_onswap : Pte → Bool
is_onswap e = bit 3 e.frame

-- e->frame |= flag, and e->frame ^= flag
abbrev pub set_flag : ℕ → Pte → Pte
set_flag i e = record e { frame = set_bit i e.frame }

abbrev pub toggle_flag : ℕ → Pte → Pte
toggle_flag i e = record e { frame = toggle_bit i e.frame }

-- e->frame >> PAGE_SHIFT
abbrev pub frame_of : Pte → ℕ
frame_of e = e.frame / 4096

-- What `read` delivers: a whole page, or another count of bytes (-1 for an error).
pub data Transfer : Type 0 where
  whole : Page → Transfer
  short : (bytes_read : ℤ) → Transfer

-- The swap file as the operating system keeps it. `lseek` gives `errno - 1` where it fails; `write`
-- says whether the whole page was written.
pub record SwapFile : Type 1 where
  pub File : Type 0
  pub lseek : File → ℤ → Option ℕ
  pub read : File → ℤ → Transfer
  pub write : File → ℤ → Page → File × Bool

-- `posix_memalign`, by the number of page tables made before: the address, or a failure.
abbrev pub Memalign : Type 0
Memalign = ℕ → Option ℕ

-- The globals. `ptes` is the memory of the second-level tables, by address.
pub record Machine (F : Type 0) : Type 0 where
  pub memsize : ℕ
  pub coremap : ℕ → Frame
  pub physmem : ℕ → Page
  pub pgdir : ℕ → ℕ
  pub ptes : ℕ → Pte
  pub tables : ℕ
  pub swapmap : Bitmap
  pub swapfile : F
  pub hit_count : ℕ
  pub miss_count : ℕ
  pub ref_count : ℕ
  pub evict_clean_count : ℕ
  pub evict_dirty_count : ℕ

-- `struct functions`: a replacement algorithm over data of its own.
pub record Functions (F A : Type 0) : Type 0 where
  pub ref : ℕ → Machine F → A → Outcome (Machine F × A)
  pub evict : Machine F → A → Outcome (ℕ × Machine F × A)
