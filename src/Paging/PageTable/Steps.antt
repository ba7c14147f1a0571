-- ===== src/Paging/PageTable/Steps.antt =====
-- a2/starter/pagetable.c: the search for a free frame, and the steps of a miss that fill it.
use csc369group.Prelude.{
  ℕ, zero, suc, ◌+◌, ◌≤◌, ◌<◌, ◌≡◌, refl, true, false, Option, none, some, ℤ, arith, eq_or_ne,
  Option-cases, subst, ==_refl, Bool-cases, inl, inr, sym,
}
use csc369group.Paging.Machine.{Frame, SwapFile, Functions, Transfer, whole, short}
use csc369group.Paging.Swap.{State, is_invalid_swap, swap_pagein, take_transfer}
use csc369group.Paging.PageTable.{find_free, set_frame, init_frame}
use csc369group.Paging.PageTable.Coherent.{Safe, returns, IsSameMap, IsSameMap-refl}

-- What `find_free` finds.
abbrev pub IsFree : (ℕ → Frame) → (i bound : ℕ) → Option ℕ → Type 0
IsFree coremap i bound none = (j : ℕ) → i ≤ j → j < bound → (coremap j).in_use ≡ true
IsFree coremap i bound (some f) = (f < bound) × ((coremap f).in_use ≡ false)

pub find_free-IsFree :
    (r i : ℕ) (coremap : ℕ → Frame) → IsFree coremap i (i + r) (find_free r i coremap)
unfolding find_free
find_free-IsFree zero i coremap = λ j le lt. absurd (omega arith)
find_free-IsFree (suc r) i coremap =
    let shift : suc i + r ≡ i + suc r = omega arith in
    let rest : IsFree coremap (suc i) (i + suc r) (find_free r (suc i) coremap) =
      subst (λ b. IsFree coremap (suc i) b (find_free r (suc i) coremap)) shift
        (find_free-IsFree r (suc i) coremap) in
    elim (Bool-cases (coremap i).in_use) [
      | inl used ↦ rw used (extend i (i + suc r) coremap used (find_free r (suc i) coremap) rest)
      | inr unused ↦ rw unused (omega arith, unused)
    ]
  where
    extend :
        (i bound : ℕ) (coremap : ℕ → Frame)
        → (coremap i).in_use ≡ true
        → (found : Option ℕ) → IsFree coremap (suc i) bound found
        → IsFree coremap i bound found
    extend i bound coremap used none h = λ j le lt. elim (eq_or_ne i j) [
      | inl same ↦ rw (sym same) used
      | inr differ ↦ h j (omega arith) lt
    ]
    extend i bound coremap used (some f) h = h

module _ (S : SwapFile) where
  take_transfer-IsSameMap :
      (f : ℕ) (t : Transfer) (m : State S)
      → IsSameMap m (take_transfer S f t m).1 × ((take_transfer S f t m).1.coremap ≡ m.coremap)
  unfolding take_transfer
  take_transfer-IsSameMap f (whole page) m = (
    record {
      memsize = refl;
      swapmap = refl;
      directory = refl;
      tables = refl;
      used = λ i. refl;
      entry = λ i. refl;
      valid = λ q. refl;
      onswap = λ q. refl;
      frame = λ q. refl;
      place = λ q. refl;
    },
    refl,
  )
  take_transfer-IsSameMap f (short n) m = (IsSameMap-refl m, refl)

  pub init_frame-IsSameMap :
      {A : Type 0} (fns : Functions S.File A) (f vaddr : ℕ) (m : State S)
      → IsSameMap m (init_frame S fns f vaddr m)
  unfolding init_frame
  init_frame-IsSameMap fns f vaddr m = record {
    memsize = refl;
    swapmap = refl;
    directory = refl;
    tables = refl;
    used = λ i. refl;
    entry = λ i. refl;
    valid = λ q. refl;
    onswap = λ q. refl;
    frame = λ q. refl;
    place = λ q. refl;
  }

  pub set_frame-place :
      {A : Type 0} (fns : Functions S.File A) (p f : ℕ) (m : State S)
      → ((set_frame S fns p f m).ptes p).swap_off ≡ (m.ptes p).swap_off
  unfolding set_frame
  set_frame-place fns p f m = ground (arith, ==_refl p)

  pub swap_pagein-IsSameMap :
      (f : ℕ) (off : ℤ) (m : State S)
      → is_invalid_swap off ≡ false
      → Safe (λ r. IsSameMap m r.1 × (r.1.coremap ≡ m.coremap)) (swap_pagein S f off m)
  unfolding swap_pagein
  swap_pagein-IsSameMap f off m h = elim (Option-cases (S.lseek m.swapfile off)) [
    | inl moved ↦ rw (h, moved) (returns (take_transfer-IsSameMap f (S.read m.swapfile off) m))
    | inr (errno, failed) ↦ rw (h, failed) (returns (IsSameMap-refl m, refl))
  ]
