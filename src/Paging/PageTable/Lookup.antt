-- ===== src/Paging/PageTable/Lookup.antt =====
-- a2/starter/pagetable.c: `find_physpage` from the address on.
use csc369group.Prelude.{
  ℕ, ◌+◌, ◌*◌, ◌<◌, ◌≡◌, true, false, ◌&&◌, Option, none, some, if◌then◌else◌,
}
use csc369group.Bits.{bit}
use csc369group.Paging.Machine.{is_valid, frame_of, SwapFile, Memalign, Machine, Functions}
use csc369group.Paging.Swap.{State}
use csc369group.Paging.PageTable.{pgdir_index, pgtbl_index}
use csc369group.Paging.PageTable.Coherent
use csc369group.Paging.PageTable.Coherent.{IsCoherent}
use csc369group.Paging.PageTable.Tables.{IsAligned, IsTabled, table_of}

module _ {F : Type 0} where
  -- The address of the entry for a virtual address, and the frame that it leads to.
  abbrev pub entry_of : Machine F → ℕ → ℕ
  entry_of m vaddr = table_of (m.pgdir (pgdir_index vaddr)) + pgtbl_index vaddr * 16

  unfoldable pub translate : Machine F → (vaddr : ℕ) → Option ℕ
  translate m vaddr =
      if bit 0 (m.pgdir (pgdir_index vaddr)) && is_valid (m.ptes (entry_of m vaddr))
      then some (frame_of (m.ptes (entry_of m vaddr)))
      else none

module _ (S : SwapFile) {A : Type 0} (fns : Functions S.File A) (memalign : Memalign)
    (good : IsAligned memalign) where
  record IsLocated (vaddr : ℕ) (m : State S) (p : ℕ) (m' : State S) : Type 0 where
    coherent : IsCoherent (λ _. false) m'
    tabled : IsTabled memalign m'
    memsize : m'.memsize ≡ m.memsize
    coremap : m'.coremap ≡ m.coremap
    linked : bit 0 (m'.pgdir (pgdir_index vaddr)) ≡ true
    entry : p ≡ entry_of m' vaddr

module _ (S : SwapFile) {A : Type 0} (Inv : State S → A → Type 0) (memalign : Memalign) where
  -- The state between two references.
  pub record IsSound (m : State S) (a : A) : Type 0 where
    pub coherent : IsCoherent (λ _. false) m
    pub tabled : IsTabled memalign m
    pub inv : Inv m a

  -- The result of a reference to `vaddr`.
  abbrev pub IsFound : (vaddr : ℕ) (m : State S) → ℕ × State S × A → Type 0
  IsFound vaddr m (f, m', a') =
      IsSound m' a' × (translate m' vaddr ≡ some f) × (f < m'.memsize) × (m'.memsize ≡ m.memsize)
