-- ===== src/Ext2/Path.antt =====
-- a3/ext2_util.c: path lookup. A string is the list of its bytes, without the 0 at its end.
pub mod Entries
pub mod Ends
use csc369group.Prelude.{
  ℕ, zero, suc, ◌+◌, ◌-◌, ◌*◌, ◌%◌, ◌^◌, Bool, true, false, not, ◌&&◌, ◌||◌, Option, none, some,
  List, [], ◌∷◌, ◌++◌, if◌then◌else◌, ltb, ◌==◌,
}
use csc369group.Bits.{bit}
use csc369group.Ext2.Disk.{block_size, u32, DirEntry, entry_at, Inode, Fs}

-- What a lookup reads of an image: the inode table by index, the directory entry that stands at an
-- offset of a block, and the `unsigned` numbers of a block.
pub record Image : Type 0 where
  pub inode_tbl : ℕ → Inode
  pub entry : (block offset : ℕ) → DirEntry
  pub pointer : (block index : ℕ) → ℕ

abbrev pub view : Fs → Image
view fs = record {
  inode_tbl = fs.inode_tbl;
  entry = λ block offset. entry_at fs.disk (block * block_size + offset);
  pointer = λ block index. u32 fs.disk (block * block_size + 4 * index);
}

-- What a lookup ends with: an inode's index; 0, no entry; -1, a file that the path uses as a
-- directory. `crash` is a read through NULL, `endless` an entry of length 0, at which the walk stays.
pub data Lookup : Type 0 where
  hit : (inode_ind : ℕ) → Lookup
  missing file_in_path crash endless : Lookup

abbrev pub same_bytes : List ℕ → List ℕ → Bool
same_bytes [] [] = true
same_bytes (a ∷ aa) (b ∷ bb) = a == b && same_bytes aa bb
same_bytes _ _ = false

-- strstr(path, token): what follows the first occurrence of `token`, if there is one.
abbrev pub strip : (token path : List ℕ) → Option (List ℕ)
strip [] path = some path
strip (a ∷ aa) [] = none
strip (a ∷ aa) (b ∷ bb) = let rest = strip aa bb in if a == b then rest else none

unfoldable pub after_first : (token path : List ℕ) → Option (List ℕ)
after_first token [] = strip token []
after_first token (b ∷ bb) =
    let later = after_first token bb in
    elim (strip token (b ∷ bb)) [ none ↦ later | some r ↦ some r ]

-- abs_path[pos + size] == '/'
abbrev pub starts_with_slash : List ℕ → Bool
starts_with_slash [] = false
starts_with_slash (b ∷ bb) = b == b'/'

-- EXT2_FT_DIR
abbrev pub ft_dir : ℕ
ft_dir = 2

-- An entry with the name that is looked for. `de->inode - 1` is a number of 32 bits.
unfoldable pub take_entry : (token abs_path : List ℕ) → DirEntry → Lookup
unfolding after_first
take_entry token abs_path de =
    let inode_ind = (de.inode + 2 ^ 32 - 1) % 2 ^ 32 in
    if de.file_type == ft_dir then hit inode_ind else elim (after_first token abs_path) [
      | none ↦ crash
      | some rest ↦ if starts_with_slash rest then file_in_path else hit inode_ind
    ]

-- The `while` over the entries of a block, from offset `curr_entry` on.
unfoldable pub entries_loop :
    (fuel curr_entry block : ℕ) → (token abs_path : List ℕ) → Image → Lookup
unfolding take_entry
entries_loop zero curr_entry block token abs_path d = endless
entries_loop (suc fuel) curr_entry block token abs_path d =
    let de = d.entry block curr_entry in
    let rest = entries_loop fuel (curr_entry + de.rec_len) block token abs_path d in
    if ltb curr_entry 1024
    then (if same_bytes token de.name then take_entry token abs_path de else rest)
    else missing

unfoldable pub check_entries_for_path : (block : ℕ) → (token abs_path : List ℕ) → Image → Lookup
unfolding entries_loop
check_entries_for_path block token abs_path d = entries_loop 1025 0 block token abs_path d

-- Go on to the next block only where there is no entry in this one.
abbrev pub or_else : Lookup → Lookup → Lookup
or_else missing next = next
or_else found next = found

-- The loop over the 256 numbers of the block of single indirect pointers.
unfoldable pub indirect_loop : (rounds s block : ℕ) → (token abs_path : List ℕ) → Image → Lookup
indirect_loop zero s block token abs_path d = missing
indirect_loop (suc r) s block token abs_path d =
    let b = d.pointer block s in
    let rest = indirect_loop r (suc s) block token abs_path d in
    if b == 0 then rest else or_else (check_entries_for_path b token abs_path d) rest

-- The loop over `i_block` from `b` on: 12 direct blocks and then the indirect one, with which the
-- search ends whether or not it finds the entry.
unfoldable pub blocks_loop : (rounds b : ℕ) → (token abs_path : List ℕ) → Image → Inode → Lookup
unfolding indirect_loop
blocks_loop zero b token abs_path d i = indirect_loop 256 0 (i.i_block b) token abs_path d
blocks_loop (suc r) b token abs_path d i =
    let rest = blocks_loop r (suc b) token abs_path d i in
    if i.i_block b == 0
    then rest
    else or_else (check_entries_for_path (i.i_block b) token abs_path d) rest

-- One token: the inode must be that of a directory (EXT2_S_IFDIR is 0x4000).
unfoldable pub find_token : (token abs_path : List ℕ) → Image → ℕ → Lookup
unfolding blocks_loop
find_token token abs_path d inode_ind =
    let i = d.inode_tbl inode_ind in
    if bit 14 i.i_mode then blocks_loop 12 0 token abs_path d i else missing

-- `strtok` with "/": the tokens of a path.
unfoldable pub tokens : (word path : List ℕ) → List (List ℕ)
tokens [] [] = []
tokens (a ∷ aa) [] = (a ∷ aa) ∷ []
tokens word (b ∷ bb) =
    let cut = tokens [] bb in
    let on = tokens (word ++ b ∷ []) bb in
    if b == b'/' then elim word [ [] ↦ cut | a ∷ aa ↦ (a ∷ aa) ∷ cut ] else on

-- The outer loop, over the tokens. `missing` is -2 here.
unfoldable pub tokens_loop : List (List ℕ) → (abs_path : List ℕ) → Image → ℕ → Lookup
unfolding find_token
tokens_loop [] abs_path d inode_ind = hit inode_ind
tokens_loop (t ∷ ts) abs_path d inode_ind = elim (find_token t abs_path d inode_ind) [
  | hit next ↦ tokens_loop ts abs_path d next
  | other ↦ other
]

-- The root is inode 2, which has index 1.
unfoldable pub get_inode_from_path : (abs_path : List ℕ) → Image → Lookup
unfolding tokens_loop tokens
get_inode_from_path abs_path d = tokens_loop (tokens [] abs_path) abs_path d 1
