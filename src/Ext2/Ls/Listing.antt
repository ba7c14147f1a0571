-- ===== src/Ext2/Ls/Listing.antt =====
-- a3/ext2_ls.c: what is listed of a block, by the list of its entries.
use csc369group.Prelude.{ℕ, Bool, not, ◌&&◌, List, [], ◌∷◌, ◌++◌, if◌then◌else◌, ◌==◌}
use csc369group.Ext2.Disk.{DirEntry}
use csc369group.Ext2.Ls.{entry_lines}
use csc369group.Ext2.Insert.Tiles.{Tiles}

-- The lines of a list of entries.
unfoldable pub all_lines : List DirEntry → List (List ℕ)
all_lines [] = []
all_lines (e ∷ es) = entry_lines e ++ all_lines es

-- Without -a the first block is listed without its first two entries.
abbrev pub shown :
    (j : ℕ) → (aflag : Bool) → (first second : DirEntry) → List DirEntry → List DirEntry
shown j aflag first second es = if not aflag && j == 0 then es else first ∷ second ∷ es
