-- ===== src/Ext2/Ls.antt =====
-- a3/ext2_ls.c: the listing of a directory, as the lines that are printed. A line of a file is printed by
-- the lookup of its path and is not modelled.
pub mod Listing
use csc369group.Prelude.{
  ℕ, zero, suc, ◌+◌, ◌*◌, Bool, not, ◌&&◌, Option, none, some, List, [], ◌∷◌, ◌++◌, length,
  if◌then◌else◌, ltb, ◌==◌,
}
use mathlib.Core.Option
use csc369group.Bits.{bit}
use csc369group.Ext2.Disk.{block_size, Bytes, u32, DirEntry, entry_at, Inode}
use csc369group.Ext2.Path.{ft_dir}
use csc369group.Ext2.Tool.{Answer, index, Tool, ◌>>=◌, goes, ends, stuck, look_up, enoent, c_string}

-- What is printed for an entry. A name of no bytes is not shown.
unfoldable pub entry_lines : DirEntry → List (List ℕ)
unfolding c_string
entry_lines de =
    let tmp_name = c_string de.name in
    if length de.name == 0
    then []
    else if de.file_type == ft_dir
    then (tmp_name ++ b'/' ∷ b'\n' ∷ []) ∷ []
    else (tmp_name ++ b'\n' ∷ []) ∷ []

-- The `while` from offset `curr_entry` on. `none`: it does not end.
unfoldable pub list_loop : (fuel curr_entry base : ℕ) → Bytes → Option (List (List ℕ))
unfolding entry_lines
list_loop zero curr_entry base m = none
list_loop (suc fuel) curr_entry base m =
    let de = entry_at m (base + curr_entry) in
    let rest = list_loop fuel (curr_entry + de.rec_len) base m in
    if ltb curr_entry block_size
    then Option.map (λ lines. entry_lines de ++ lines) rest
    else some []

-- Without -a the first two entries of the first block are left out.
unfoldable pub list_entries : (block_num j : ℕ) → (aflag : Bool) → Bytes → Option (List (List ℕ))
unfolding list_loop
list_entries block_num j aflag m =
    let base = block_num * block_size in
    let first = (entry_at m base).rec_len in
    let start = if not aflag && j == 0 then first + (entry_at m (base + first)).rec_len else 0 in
    list_loop 1025 start base m

unfoldable pub list_indirect :
    (rounds s block : ℕ) → (aflag : Bool) → Bytes → Option (List (List ℕ))
unfolding list_entries
list_indirect zero s block aflag m = some []
list_indirect (suc r) s block aflag m =
    let b = u32 m (block * block_size + 4 * s) in
    let rest = list_indirect r (suc s) block aflag m in
    if b == 0 then rest else elim (list_entries b 12 aflag m) [
      | none ↦ none
      | some lines ↦ Option.map (λ on. lines ++ on) rest
    ]

-- The loop over `i_block` from `j` on: direct blocks, then the block of single indirect pointers.
unfoldable pub list_blocks :
    (rounds j : ℕ) → (aflag : Bool) → Bytes → Inode → Option (List (List ℕ))
unfolding list_entries list_indirect
list_blocks zero j aflag m i = list_indirect 256 0 (i.i_block j) aflag m
list_blocks (suc r) j aflag m i =
    let rest = list_blocks r (suc j) aflag m i in
    if i.i_block j == 0 then rest else elim (list_entries (i.i_block j) j aflag m) [
      | none ↦ none
      | some lines ↦ Option.map (λ on. lines ++ on) rest
    ]

-- main, from the lookup on.
unfoldable pub ls : (abs_path : List ℕ) → (aflag : Bool) → Tool (List (List ℕ))
unfolding look_up list_blocks
ls abs_path aflag = look_up abs_path >>= shown
  where
    shown : Answer → Tool (List (List ℕ))
    shown (index inode_index) fs =
        let i = fs.inode_tbl inode_index in
        if bit 14 i.i_mode
        then elim (list_blocks 12 0 aflag fs.disk i) [ none ↦ stuck | some lines ↦ goes lines fs ]
        else goes [] fs
    shown _ fs = ends enoent fs
