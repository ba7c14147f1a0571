-- ===== src/Paging/PageTable.antt =====
-- a2/starter/pagetable.c: translation, allocation and eviction.
pub mod Coherent
pub mod Eviction
pub mod Fill
pub mod Steps
pub mod Policy
pub mod Allocation
pub mod Tables
pub mod Lookup
pub mod Printing
pub mod Reference
use csc369group.Prelude.{
  ℕ, zero, suc, ◌+◌, ◌-◌, ◌*◌, ◌/◌, ◌%◌, ◌^◌, Bool, true, false, not, ◌&&◌, ◌||◌, Option, none,
  some, ℤ, pos, negsuc, is, if◌then◌else◌, ltb, leb, ◌==◌, update,
}
use csc369group.Bits.{bit, set_bit}
use csc369group.Outcome.{Outcome, ok, exit, abort, ◌>>=◌, ◌>>◌, assert}
use csc369group.Paging.Machine.{
  Page, Pte, Frame, is_valid, is_dirty, is_ref, is_onswap, set_flag, toggle_flag, frame_of,
  SwapFile, Memalign, Machine, Functions,
}
use csc369group.Paging.Swap.{State, is_invalid_swap, swap_pagein, swap_pageout}

-- PGDIR_INDEX, which `unsigned idx` cuts to 32 bits, and PGTBL_INDEX (TRACE_64).
abbrev pub pgdir_index : ℕ → ℕ
pgdir_index vaddr = vaddr / 2 ^ 24 % 2 ^ 32

abbrev pub pgtbl_index : ℕ → ℕ
pgtbl_index vaddr = vaddr / 4096 % 4096

-- `for (i = 0; i < memsize; i++) if (!coremap[i].in_use)`
unfoldable pub find_free : (rounds i : ℕ) → (ℕ → Frame) → Option ℕ
find_free zero i coremap = none
find_free (suc r) i coremap =
    let rest = find_free r (suc i) coremap in if (coremap i).in_use then rest else some i

-- A second-level table of PTRS_PER_PGTBL fresh entries of 16 bytes at `base`.
unfoldable pub fresh_pte : Pte
fresh_pte = record { frame = 0; swap_off = negsuc 0 }

unfoldable pub init_entries : (rounds base : ℕ) → (ℕ → Pte) → ℕ → Pte
unfolding fresh_pte
init_entries zero base ptes = ptes
init_entries (suc r) base ptes = update (init_entries r base ptes) (base + r * 16) fresh_pte

-- An `int` counter of events, which no trace of less than 2 ^ 31 lines overflows.
abbrev pub count : ℕ → ℕ
count n = n + 1

-- The entry of a victim that has been written to `offset`.
unfoldable pub swapped_out : ℤ → Pte → Pte
swapped_out offset e =
    let marked = set_flag 3 e in
    record (if is_valid marked then toggle_flag 0 marked else marked) { swap_off = offset }

module _ (S : SwapFile) {A : Type 0} (fns : Functions S.File A) where
  unfoldable pub count_eviction : Pte → State S → State S
  count_eviction e m =
      if is_dirty e
      then record m { evict_dirty_count = count m.evict_dirty_count }
      else record m { evict_clean_count = count m.evict_clean_count }

  -- The victim's page goes to swap, and its entry says so.
  unfoldable pub evict_page : (frame : ℕ) → State S → Outcome (State S)
  unfolding swapped_out count_eviction
  evict_page frame m = do
    let q = (m.coremap frame).pte
    let m = count_eviction (m.ptes q) m
    (offset, m) ← swap_pageout S frame (m.ptes q).swap_off m
    if is_invalid_swap offset
        then exit 1
        else ok (record m { ptes = update m.ptes q (swapped_out offset (m.ptes q)) })

  unfoldable pub claim_frame : (p frame : ℕ) → State S → State S
  claim_frame p frame m = record m {
    coremap = update m.coremap frame (record (m.coremap frame) { in_use = true; pte = p });
  }

  unfoldable pub allocate_frame : (p : ℕ) → State S → A → Outcome (ℕ × State S × A)
  unfolding find_free evict_page claim_frame
  allocate_frame p m a = elim (find_free m.memsize 0 m.coremap) [
    | some frame ↦ ok (frame, claim_frame p frame m, a)
    | none ↦ do
      (frame, m, a) ← fns.evict m a
      m ← evict_page frame m
      ok (frame, claim_frame p frame m, a)
  ]

  unfoldable pub init_frame : (frame vaddr : ℕ) → State S → State S
  init_frame frame vaddr m = record m {
    physmem = update m.physmem frame (record { version = 0; vaddr = vaddr });
  }

  -- `init_second_level`: exit(1) where there is no memory, or the table and its directory entry.
  unfoldable pub init_second_level : Memalign → State S → Outcome (ℕ × State S)
  unfolding init_entries
  init_second_level memalign m = elim (memalign m.tables) [
    | none ↦ exit 1
    | some base ↦
        ok
          (set_bit 0 base, record m { ptes = init_entries 4096 base m.ptes; tables = suc m.tables })
  ]

  -- The address of the entry for `vaddr`, with its table made if there is none. `pgdir` has
  -- PTRS_PER_PGDIR entries.
  unfoldable pub locate : Memalign → (vaddr : ℕ) → State S → Outcome (ℕ × State S)
  unfolding init_second_level
  locate memalign vaddr m = do
    let idx = pgdir_index vaddr
    assert (ltb idx 4096)
    m ← if bit 0 (m.pgdir idx) then ok m else (do
      (pde, m) ← init_second_level memalign m
      ok (record m { pgdir = update m.pgdir idx pde }))
    ok (m.pgdir idx / 4096 * 4096 + pgtbl_index vaddr * 16, m)

  -- p->frame = frame_num << PAGE_SHIFT
  unfoldable pub set_frame : (p frame : ℕ) → State S → State S
  set_frame p frame m = record m {
    ptes = update m.ptes p (record (m.ptes p) { frame = frame * 4096 % 2 ^ 32 });
  }

  -- The two branches of a miss.
  unfoldable pub bring_in : (p vaddr : ℕ) → State S → A → Outcome (State S × A)
  unfolding allocate_frame init_frame set_frame
  bring_in p vaddr m a =
      if not (is_onswap (m.ptes p))
      then (do
        (frame, m, a) ← allocate_frame p m a
        ok (init_frame frame vaddr (set_frame p frame m), a))
      else (do
        (frame, m, a) ← allocate_frame p m a
        let m = set_frame p frame m
        (status, m) ← swap_pagein S frame (m.ptes p).swap_off m
        if is status 0 then ok (m, a) else exit 1)

  -- A write access, 'M' or 'S', sets PG_DIRTY.
  unfoldable pub mark_access : (p : ℕ) → (type : ℕ) → State S → State S
  mark_access p type m =
      if type == b'M' || type == b'S'
      then record m { ptes = update m.ptes p (set_flag 1 (m.ptes p)) }
      else m

  unfoldable pub mark_present : (p : ℕ) → State S → State S
  mark_present p m = record m { ptes = update m.ptes p (set_flag 2 (set_flag 0 (m.ptes p))) }

  -- `find_physpage` from the entry on. The result is the frame whose start in `physmem` is returned.
  unfoldable pub reference : (p vaddr type : ℕ) → State S → A → Outcome (ℕ × State S × A)
  unfolding bring_in mark_access mark_present
  reference p vaddr type m a = do
    (m, a) ← if is_valid (m.ptes p) then ok (record m { hit_count = count m.hit_count }, a) else (do
      (m, a) ← bring_in p vaddr m a
      ok (record m { miss_count = count m.miss_count }, a))
    let m = mark_access p type (record m { ref_count = count m.ref_count })
    (m, a) ← fns.ref p m a
    let m = mark_present p m
    ok (frame_of (m.ptes p), m, a)

  unfoldable pub find_physpage :
      Memalign → (vaddr type : ℕ) → State S → A → Outcome (ℕ × State S × A)
  unfolding locate reference
  find_physpage memalign vaddr type m a = do
    (p, m) ← locate memalign vaddr m
    reference p vaddr type m a

-- `init_pagetable`
unfoldable pub init_pagetable : (rounds : ℕ) → (ℕ → ℕ) → ℕ → ℕ
init_pagetable zero pgdir = pgdir
init_pagetable (suc r) pgdir = update (init_pagetable r pgdir) r 0
