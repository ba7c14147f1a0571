-- ===== src/Paging/Sim/Runs.antt =====
-- a2/starter/sim.c: main ends without a failed assertion.
use csc369group.Prelude.{ℕ, ◌≡◌, false}
use csc369group.Outcome.{Outcome}
use csc369group.Paging.Bitmap.{Bitmap}
use csc369group.Paging.Bitmap.Alloc
use csc369group.Paging.Machine.{SwapFile}
use csc369group.Paging.Swap.{State}
use csc369group.Paging.PageTable.Coherent
use csc369group.Paging.PageTable.Coherent.{IsCoherent}
use csc369group.Paging.PageTable.Tables.{IsAligned, IsTabled, IsQuiet}
use csc369group.Paging.Sim.Program.{Options, World}

module _ (S : SwapFile) (w : World S) (good : IsAligned w.memalign)
    (unwritten : (q : ℕ) → IsQuiet (w.tables q)) where
  -- The state before the replay: nothing is in memory or in swap.
  record IsBlank (o : Options) (m : State S) : Type 0 where
    memsize : m.memsize ≡ o.memsize
    coherent : IsCoherent (λ _. false) m
    tabled : IsTabled w.memalign m
    unused : (i : ℕ) → (m.coremap i).in_use ≡ false
