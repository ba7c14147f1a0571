-- ===== src/Ext2/Commands/Scan.antt =====
-- a3: the loop of parse_cmd ends.
use csc369group.Prelude.{ℕ, ◌≤◌, ◌<◌, ◌≡◌, none, some}
use csc369group.Paging.PageTable.Coherent
use csc369group.Ext2.Commands.{Getopt}

-- What getopt promises: an option that it gives is taken from the letters that are left, the program's
-- write of `optind` adds none, and `optind` is what the program has written.
pub record IsFinite (G : Getopt) (left : G.State → ℕ) : Type 0 where
  pub takes : (st : G.State) (c : ℕ) → (G.call st).0 ≡ some c → left (G.call st).1 < left st
  pub ends : (st : G.State) → (G.call st).0 ≡ none → left (G.call st).1 ≤ left st
  pub written : (k : ℕ) (st : G.State) → G.optind (G.set_optind k st) ≡ k
  pub kept : (k : ℕ) (st : G.State) → left (G.set_optind k st) ≤ left st
