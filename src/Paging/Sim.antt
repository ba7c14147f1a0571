-- ===== src/Paging/Sim.antt =====
-- a2/starter/sim.c: accesses to the simulated memory and the replay of a trace.
pub mod Replay
pub mod Program
pub mod Runs
use csc369group.Prelude.{
  ℕ, ◌+◌, ◌%◌, ◌^◌, Bool, not, ◌||◌, List, [], ◌∷◌, if◌then◌else◌, ◌==◌, update,
}
use csc369group.Outcome.{Outcome, ok, ◌>>=◌}
use csc369group.Paging.Machine.{SwapFile, Memalign, Functions}
use csc369group.Paging.Swap.{State}
use csc369group.Paging.PageTable.{find_physpage}

-- One line of the trace: the kind of access and the address.
pub record Access : Type 0 where
  pub type : ℕ
  pub vaddr : ℕ

-- A line of the trace file as `fgets` and `sscanf` deliver it.
pub data Line : Type 0 where
  comment : Line
  access : Access → Line

module _ (S : SwapFile) {A : Type 0} (fns : Functions S.File A) (memalign : Memalign) where
  -- A write access counts up the version of the page.
  unfoldable pub bump_version : (type frame : ℕ) → State S → State S
  bump_version type frame m =
      if type == b'S' || type == b'M'
      then record m {
        physmem =
            update m.physmem frame
              (record (m.physmem frame) { version = ((m.physmem frame).version + 1) % 2 ^ 32 });
      }
      else m

  -- The Boolean says whether the message "does not have expected value" is printed.
  unfoldable pub access_mem : Access → State S → A → Outcome (Bool × State S × A)
  unfolding bump_version
  access_mem x m a = do
    (frame, m, a) ← find_physpage S fns memalign x.vaddr x.type m a
    ok (not ((m.physmem frame).vaddr == x.vaddr), bump_version x.type frame m, a)

  -- The result has the messages of all accesses, in order.
  unfoldable pub replay_trace : List Line → State S → A → Outcome (List Bool × State S × A)
  unfolding access_mem
  replay_trace [] m a = ok ([], m, a)
  replay_trace (comment ∷ rest) m a = replay_trace rest m a
  replay_trace (access x ∷ rest) m a = do
    (complaint, m, a) ← access_mem x m a
    (complaints, m, a) ← replay_trace rest m a
    ok (complaint ∷ complaints, m, a)
