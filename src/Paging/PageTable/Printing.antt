-- ===== src/Paging/PageTable/Printing.antt =====
-- a2/starter/pagetable.c: print_pagetbl and print_pagedirectory, as the lines that they print.
pub mod Rows
use csc369group.Prelude.{
  ℕ, zero, suc, ◌+◌, ◌*◌, ◌/◌, ◌-◌, ◌≤◌, ◌≡◌, refl, Bool, true, false, not, ◌&&◌, Option, none,
  some, List, [], ◌∷◌, ◌++◌, ℤ, arith, if◌then◌else◌, Bool-cases, inl, inr, ap, ◌∙◌, sym, subst,
}
use csc369group.Bits.{bit}
use csc369group.Outcome.{Outcome, ok, abort, ◌>>=◌, ◌>>◌, assert, Returns, returns, bind}
use csc369group.Paging.Machine.{Pte, is_valid, is_dirty, is_onswap, frame_of, Machine}

-- A line of print_pagetbl.
pub data Row : Type 0 where
  invalid : (first last : ℕ) → Row
  valid : (index : ℕ) (dirty : Bool) (frame : ℕ) → Row
  onswap : (index : ℕ) (offset : ℤ) → Row

-- The entries that wait for their line: first_invalid and last_invalid, which are both -1 or both not.
abbrev pub Pending : Type 0
Pending = Option (ℕ × ℕ)

unfoldable pub flush : Pending → List Row
flush none = []
flush (some (first, last)) = invalid first last ∷ []

unfoldable pub extend : Pending → ℕ → Pending
extend none i = some (i, i)
extend (some (first, last)) i = some (first, i)

-- The line of an entry that is valid or swapped out.
unfoldable pub print_entry : (i : ℕ) → Pte → Outcome Row
print_entry i e =
    if is_valid e
    then ok (valid i (is_dirty e) (frame_of e))
    else (do assert (is_onswap e); ok (onswap i e.swap_off))

unfoldable pub print_loop : (rounds i : ℕ) → Pending → (ℕ → Pte) → Outcome (List Row)
unfolding flush extend print_entry
print_loop zero i pending pgtbl = ok (flush pending)
print_loop (suc r) i pending pgtbl =
    let gap = print_loop r (suc i) (extend pending i) pgtbl in
    let rest = print_loop r (suc i) none pgtbl in
    if not (is_valid (pgtbl i)) && not (is_onswap (pgtbl i))
    then gap
    else (do row ← print_entry i (pgtbl i); rows ← rest; ok (flush pending ++ row ∷ rows))

-- The table at `base` has 4096 entries of 16 bytes.
unfoldable pub print_pagetbl : (base : ℕ) → (ℕ → Pte) → Outcome (List Row)
unfolding print_loop
print_pagetbl base ptes = print_loop 4096 0 none (λ i. ptes (base + i * 16))

-- What print_pagedirectory prints: a gap of entries in two lines, or an entry with its table.
pub data Section : Type 0 where
  missing : (first last : ℕ) → Section
  table : (index address : ℕ) (rows : List Row) → Section

unfoldable pub flush_section : Pending → List Section
flush_section none = []
flush_section (some (first, last)) = missing first last ∷ []

-- Entries at the end of the directory that are not in use have no line.
unfoldable pub directory_loop :
    (rounds i : ℕ) → Pending → (ℕ → ℕ) → (ℕ → Pte) → Outcome (List Section)
unfolding flush_section extend
directory_loop zero i pending pgdir ptes = ok []
directory_loop (suc r) i pending pgdir ptes =
    let gap = directory_loop r (suc i) (extend pending i) pgdir ptes in
    let rest = directory_loop r (suc i) none pgdir ptes in
    if not (bit 0 (pgdir i)) then gap else (do
      let base = pgdir i / 4096 * 4096
      rows ← print_pagetbl base ptes
      sections ← rest
      ok (flush_section pending ++ table i base rows ∷ sections))

module _ {F : Type 0} where
  unfoldable pub print_pagedirectory : Machine F → Outcome (List Section)
  print_pagedirectory m = directory_loop 4096 0 none m.pgdir m.ptes
