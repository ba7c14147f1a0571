-- ===== src/Ext2/Rm.antt =====
-- a3/ext2_rm.c: files and, with -r, directories are removed.
pub mod Merge
pub mod Freed
use csc369group.Prelude.{
  ℕ, zero, suc, ◌+◌, ◌*◌, ◌%◌, ◌^◌, Bool, true, false, Option, none, some, List, [], ◌∷◌, ◌++◌,
  length, if◌then◌else◌, ltb, leb, ◌==◌,
}
use mathlib.Core.Option
use csc369group.Bits.{bit}
use csc369group.Ext2.Bitmaps.{set_free_bitmap}
use csc369group.Ext2.Disk.{
  block_size, Bytes, get_bytes, entry_at, set_rec_len, Inode, Fs, put_inode, less_one,
  count_block_freed, count_inode_freed,
}
use csc369group.Ext2.Tool.{
  Tool, ◌>>=◌, ◌>>◌, goes, ends, astray, stuck, Answer, index, look_up, dirname, concat_to_path,
  c_string, copy_bitmaps, write_bitmaps, eperm, enoent, eisdir,
}

-- The addresses of the entries that the `while` of `get_entries` appends.
unfoldable pub walk : (fuel curr_entry base : ℕ) → Bytes → Option (List ℕ)
walk zero curr_entry base m = none
walk (suc fuel) curr_entry base m =
    let rest = walk fuel (curr_entry + (entry_at m (base + curr_entry)).rec_len) base m in
    if ltb curr_entry block_size then Option.map (λ l. (base + curr_entry) ∷ l) rest else some []

-- In the first block the walk starts behind "." and "..".
unfoldable pub walk_block : (block j : ℕ) → Bytes → Option (List ℕ)
unfolding walk
walk_block block j m =
    let base = block * block_size in
    let first = (entry_at m base).rec_len in
    let start = if j == 0 then first + (entry_at m (base + first)).rec_len else 0 in
    walk 1025 start base m

unfoldable pub get_entries : (rounds j : ℕ) → Bytes → Inode → Option (List ℕ)
unfolding walk_block
get_entries zero j m i = some []
get_entries (suc r) j m i =
    let rest = get_entries r (suc j) m i in
    if i.i_block j == 0 then rest else elim (walk_block (i.i_block j) j m) [
      | none ↦ none
      | some l ↦ Option.map (λ on. l ++ on) rest
    ]

-- The search of a block for an entry with the inode `n`: the entry before it takes over its length.
pub data Deletion : Type 0 where
  deleted : Bytes → Deletion
  absent unending : Deletion

unfoldable pub delete_loop :
    (fuel curr_entry base : ℕ) → (prev_de : Option ℕ) → (n : ℕ) → Bytes → Deletion
delete_loop zero curr_entry base prev_de n m = unending
delete_loop (suc fuel) curr_entry base prev_de n m =
    let curr_de = base + curr_entry in
    let e = entry_at m curr_de in
    let rest = delete_loop fuel (curr_entry + e.rec_len) base (some curr_de) n m in
    if ltb curr_entry block_size
    then (if e.inode == n
        then elim prev_de [
          | none ↦ deleted m
          | some p ↦ deleted (set_rec_len p (((entry_at m p).rec_len + e.rec_len) % 2 ^ 16) m)
        ]
        else rest)
    else absent

unfoldable pub delete_blocks : (rounds j inode_i parent_i : ℕ) → Tool (Unit {0})
unfolding delete_loop
delete_blocks zero j inode_i parent_i fs = goes tt fs
delete_blocks (suc r) j inode_i parent_i fs =
    let block = (fs.inode_tbl parent_i).i_block j in
    let rest = delete_blocks r (suc j) inode_i parent_i fs in
    if block == 0
    then rest
    else elim (delete_loop 1025 0 (block * block_size) none (inode_i + 1) fs.disk) [
      | deleted m ↦ goes tt (record fs { disk = m })
      | absent ↦ rest
      | unending ↦ stuck
    ]

-- A parent that the lookup did not find is an index outside the inode table.
unfoldable pub delete_entry : (inode_i : ℕ) → Answer → Tool (Unit {0})
unfolding delete_blocks
delete_entry inode_i (index parent_i) fs = delete_blocks 12 0 inode_i parent_i fs
delete_entry inode_i _ fs = astray

-- The bit that is cleared is the block's number, which is one more than its position in the bitmap. For a
-- directory the count of directories goes down with each block.
unfoldable pub free_block : (block : ℕ) → (is_dir : Bool) → Fs → Fs
unfolding set_free_bitmap count_block_freed
free_block block is_dir fs =
    let freed : Fs =
      count_block_freed
        (record fs { block_bitmap_copy = set_free_bitmap block fs.block_bitmap_copy }) in
    let gd = freed.gd in
    record freed {
      gd = record gd {
        bg_used_dirs_count =
            if is_dir then less_one 16 gd.bg_used_dirs_count else gd.bg_used_dirs_count;
      };
    }

-- The loop over the blocks of an inode.
unfoldable pub free_blocks : (rounds b : ℕ) → (is_dir : Bool) → Inode → Fs → Fs
unfolding free_block
free_blocks zero b is_dir i fs = fs
free_blocks (suc r) b is_dir i fs =
    let block = i.i_block b in
    if block == 0
    then free_blocks r (suc b) is_dir i fs
    else free_blocks r (suc b) is_dir i (free_block block is_dir fs)

unfoldable pub free_inode : (inode_i : ℕ) → Fs → Fs
unfolding set_free_bitmap count_inode_freed
free_inode inode_i fs =
    count_inode_freed
      (record fs { inode_bitmap_copy = set_free_bitmap inode_i fs.inode_bitmap_copy })

-- A file. Its inode and blocks are freed whatever its number of links.
unfoldable pub remove_regular : (now inode_i : ℕ) → (parent_i : Answer) → Tool (Unit {0})
unfolding delete_entry free_blocks free_inode
remove_regular now inode_i parent_i fs =
    let i : Inode = fs.inode_tbl inode_i in
    let fs : Fs =
      put_inode inode_i (record i { i_dtime = now; i_links_count = less_one 16 i.i_links_count })
        fs in
    (delete_entry inode_i parent_i >> λ fs'.
    goes tt (free_inode inode_i (free_blocks 15 0 false (fs'.inode_tbl inode_i) fs')))
      fs

-- A directory whose entries have been removed.
unfoldable pub remove_directory : (now inode_i : ℕ) → (parent_i : Answer) → Tool (Unit {0})
unfolding delete_entry free_blocks free_inode
remove_directory now inode_i parent_i fs =
    let i : Inode = fs.inode_tbl inode_i in
    let fs : Fs = put_inode inode_i (record i { i_dtime = now }) fs in
    let fs : Fs = free_blocks 15 0 true (fs.inode_tbl inode_i) fs in
    (delete_entry inode_i parent_i >> λ fs'. goes tt (free_inode inode_i fs')) fs

-- The name with "%s": the bytes from `name` up to a 0. Where there is none within `name_len + 1` bytes,
-- `new_path` is too short.
unfoldable pub entry_path : (path : List ℕ) → (de : ℕ) → Bytes → Option (List ℕ)
unfolding get_bytes c_string concat_to_path
entry_path path de m =
    let name_len = length (entry_at m de).name in
    let name = c_string (get_bytes (name_len + 1) (de + 8) m) in
    if leb (length name) name_len then some (concat_to_path path name) else none

abbrev pub for_each : List ℕ → (ℕ → Tool (Unit {0})) → Tool (Unit {0})
for_each [] f fs = goes tt fs
for_each (a ∷ aa) f fs = (f a >> for_each aa f) fs

-- What is done with the file or directory that was found. `again` is the recursive call.
module _ (again : List ℕ → Answer → Tool (Unit {0})) (now : ℕ) (path : List ℕ) (rflag : Bool)
    (parent_i : Answer) where
  unfoldable remove_entry : (inode_i : Answer) → (de : ℕ) → Tool (Unit {0})
  unfolding entry_path
  remove_entry inode_i de fs = elim (entry_path path de fs.disk) [
    | none ↦ astray
    | some new_path ↦ again new_path inode_i fs
  ]

  unfoldable pub remove : Answer → Tool (Unit {0})
  unfolding remove_entry get_entries remove_regular remove_directory
  remove (index inode_i) fs =
      let listed : Tool (Unit {0}) = λ fs. elim (get_entries 12 0 fs.disk (fs.inode_tbl inode_i)) [
        | none ↦ stuck
        | some entries ↦
            (for_each entries (remove_entry (index inode_i))
                >> remove_directory now inode_i parent_i)
              fs
      ] in
      if bit 14 (fs.inode_tbl inode_i).i_mode
      then (if rflag then listed fs else ends eisdir fs)
      else remove_regular now inode_i parent_i fs
  remove _ fs = ends enoent fs

-- `fuel` bounds the depth of the recursion.
unfoldable pub remove_file :
    (fuel now : ℕ) → (path : List ℕ) → (rflag : Bool) → (parent_i : Answer) → Tool (Unit {0})
unfolding look_up remove
remove_file zero now path rflag parent_i = λ fs. stuck
remove_file (suc fuel) now path rflag parent_i =
    look_up path
    >>= remove (λ new_path inode_i. remove_file fuel now new_path rflag inode_i) now path rflag
        parent_i

-- main, from the copies of the bitmaps on. Its test of the parent's inode tests the file's.
unfoldable pub rm : (fuel now : ℕ) → (path : List ℕ) → (rflag : Bool) → Tool ℕ
unfolding copy_bitmaps look_up remove_file write_bitmaps
rm fuel now path rflag fs = (look_up path >>= chosen) (copy_bitmaps fs)
  where
    from : Answer → Tool ℕ
    from parent_inode =
        remove_file fuel now path rflag parent_inode >> λ fs. ends 0 (write_bitmaps fs)

    chosen : Answer → Tool ℕ
    chosen (index inode) fs =
        if inode == 1 then ends eperm fs else (look_up (dirname path) >>= from) fs
    chosen _ fs = ends enoent fs
