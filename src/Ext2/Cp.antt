-- ===== src/Ext2/Cp.antt =====
-- a3/ext2_cp.c: a file of the computer is copied into a directory, or over a file. What `fread` gives is the
-- list of its results: the bytes in blocks of at most 1024.
use csc369group.Prelude.{
  ℕ, zero, suc, ◌+◌, ◌*◌, ◌/◌, ◌%◌, ◌^◌, Bool, true, false, Option, none, some, List, [], ◌∷◌, ◌++◌,
  length, if◌then◌else◌, ltb, leb, ◌==◌, update,
}
use csc369group.Bits.{bit}
use csc369group.Ext2.Bitmaps.{get_free_bitmap}
use csc369group.Ext2.Disk.{
  block_size, put_u32, put_bytes, DirEntry, Inode, zeroed, Fs, put_inode, count_inode_taken,
}
use csc369group.Ext2.Insert.{reuse_entry, place_entry, placed, nowhere, no_space, lost}
use csc369group.Ext2.Tool.{
  Tool, ◌>>=◌, goes, ends, astray, stuck, Answer, index, look_up, basename, dirname, c_string,
  take_block, take_block_uncounted, copy_bitmaps, write_bitmaps, enoent, enospc,
}

-- `my_ceil(num / den)`. The `float` is exact for a numerator below 2 ^ 24 and a power of 2.
unfoldable pub my_ceil : (num den : ℕ) → ℕ
my_ceil num den = let inum = num / den in if num % den == 0 then inum else inum + 1

-- sprintf(block_ptr, "%s", data): up to a 0, which is written too. A full block without a 0 is read past
-- its end. The block is the position in the bitmap, not one more.
unfoldable pub write_data : (pos_free : ℕ) → (content : List ℕ) → Fs → Option Fs
unfolding c_string put_bytes
write_data pos_free content fs =
    let text = c_string content in
    if leb block_size (length text)
    then none
    else some (record fs { disk = put_bytes (block_size * pos_free) (text ++ 0 ∷ []) fs.disk })

abbrev set_block : (pos b v : ℕ) → Fs → Fs
set_block pos b v fs =
    let i : Inode = fs.inode_tbl pos in
    put_inode pos (record i { i_block = update i.i_block b v }) fs

-- One of the twelve direct blocks.
unfoldable pub copy_direct : (pos ix pos_free : ℕ) → (content : List ℕ) → Fs → Option Fs
unfolding write_data
copy_direct pos ix pos_free content fs = elim (write_data pos_free content fs) [
  | none ↦ none
  | some fs ↦ some (set_block pos ix pos_free fs)
]

-- A block behind the single indirect pointers; with the first one goes a block for the pointers. The
-- result has the next index and index of pointers.
unfoldable pub copy_indirect : (pos s_index pos_free : ℕ) → (content : List ℕ) → Tool (ℕ × ℕ)
unfolding take_block write_data put_u32
copy_indirect pos s_index pos_free content fs =
    if s_index == 0
    then elim (take_block (set_block pos 12 pos_free fs)) [
      | none ↦ ends enospc (set_block pos 12 pos_free fs)
      | some (pos_free, fs) ↦ pointed pos_free fs
    ]
    else pointed pos_free fs
  where
    pointed : ℕ → Tool (ℕ × ℕ)
    pointed pos_free fs =
        let written : Tool (ℕ × ℕ) = λ fs. elim (write_data pos_free content fs) [
          | none ↦ astray
          | some fs ↦
              let s_indir = (fs.inode_tbl pos).i_block 12 * block_size in
              goes (12, s_index + 1)
                (record fs { disk = put_u32 (s_indir + 4 * s_index) pos_free fs.disk })
        ] in
        if ltb fs.sb.s_free_blocks_count (2 ^ 31) then written fs else goes (13, 0) fs

-- The `while`. `none` is -ENOSPC.
unfoldable pub copy_loop : (chunks : List (List ℕ)) → (pos ix s_index total : ℕ) → Tool (Option ℕ)
unfolding take_block copy_direct copy_indirect
copy_loop [] pos ix s_index total fs = goes (some total) fs
copy_loop (content ∷ chunks) pos ix s_index total fs =
    let on : (ℕ × ℕ) → Tool (Option ℕ) =
      λ at. copy_loop chunks pos at.0 at.1 (total + length content) in
    elim (take_block fs) [
      | none ↦ goes none fs
      | some (pos_free, fs) ↦
          if ltb ix 12
          then elim (copy_direct pos ix pos_free content fs) [
            | none ↦ astray
            | some fs ↦ on (ix + 1, s_index) fs
          ]
          else if ix == 12
          then (copy_indirect pos s_index pos_free content >>= on) fs
          else ends 1 fs
    ]

unfoldable pub copy_file : (fsrc : List (List ℕ)) → (pos : ℕ) → Tool (Option ℕ)
unfolding copy_loop
copy_file fsrc pos = copy_loop fsrc pos 0 0 0

-- `false` is -ENOSPC.
unfoldable pub create_inode : (now pos : ℕ) → (fsrc : List (List ℕ)) → Tool Bool
unfolding copy_file my_ceil count_inode_taken
create_inode now pos fsrc fs = (copy_file fsrc pos >>= sized) (
    put_inode pos (record zeroed { i_mode = 0x8000; i_atime = now; i_ctime = now; i_mtime = now })
      fs)
  where
    sized : Option ℕ → Tool Bool
    sized none fs = goes false fs
    sized (some size) fs =
        let i : Inode = fs.inode_tbl pos in
        goes true (
          count_inode_taken (
            put_inode pos
              (record i {
                i_size = size;
                i_blocks = my_ceil size (block_size / 2);
                i_links_count = 1;
              })
              fs))

-- The branch for a directory. The inode's bit is set in the bitmap of the image, and a block for the
-- directory is taken from there and not counted.
unfoldable pub cp_into :
    (now inode_index : ℕ) → (fsrc_name : List ℕ) → (fsrc : List (List ℕ)) → Tool (Unit {0})
unfolding get_free_bitmap create_inode place_entry reuse_entry take_block_uncounted
cp_into now inode_index fsrc_name fsrc fs =
    let found = get_free_bitmap fs.ib_ptr fs.sb.s_inodes_count in
    elim found.0 [
      | none ↦ ends enospc fs
      | some pos ↦ (create_inode now pos fsrc >>= entered pos) (record fs { ib_ptr = found.1 })
    ]
  where
    entered : ℕ → Bool → Tool (Unit {0})
    entered pos false fs = ends enospc fs
    entered pos true fs =
        let new : DirEntry = record {
          inode = pos + 1;
          rec_len = 0;
          file_type = 1;
          name = fsrc_name;
        } in
        elim (place_entry reuse_entry take_block_uncounted inode_index new fs) [
          | placed fs ↦ goes tt fs
          | nowhere fs ↦ goes tt fs
          | no_space fs ↦ ends enospc fs
          | lost ↦ stuck
        ]

-- The loop that clears the 15 block numbers, and for each the whole byte of the bitmap that it is in.
unfoldable pub clear_blocks : (rounds i inode_index : ℕ) → Fs → Fs
clear_blocks zero i inode_index fs = fs
clear_blocks (suc r) i inode_index fs =
    let b = (fs.inode_tbl inode_index).i_block i in
    clear_blocks r (suc i) inode_index
      (set_block inode_index i 0 (record fs { bb_ptr = update fs.bb_ptr (b / 8) 0 }))

unfoldable pub cp_over : (inode_index : ℕ) → (fsrc : List (List ℕ)) → Tool (Unit {0})
unfolding clear_blocks copy_file
cp_over inode_index fsrc fs =
    (copy_file fsrc inode_index >>= sized) (clear_blocks 15 0 inode_index fs)
  where
    sized : Option ℕ → Tool (Unit {0})
    sized none fs = ends enospc fs
    sized (some size) fs =
        let i : Inode = fs.inode_tbl inode_index in
        goes tt (put_inode inode_index (record i { i_size = size }) fs)

-- main, from the lookup on. Where the path is new but its directory is not, the code goes on with a
-- negative index into the inode table.
unfoldable pub cp : (now : ℕ) → (os_path ext2_path : List ℕ) → (fsrc : List (List ℕ)) → Tool ℕ
unfolding look_up copy_bitmaps write_bitmaps cp_into cp_over
cp now os_path ext2_path fsrc = look_up ext2_path >>= chosen
  where
    beside : Answer → Tool ℕ
    beside (index i) fs = astray
    beside _ fs = ends enoent fs

    copied_to : ℕ → Tool (Unit {0})
    copied_to inode_index fs =
        let mode = (fs.inode_tbl inode_index).i_mode in
        if bit 14 mode
        then cp_into now inode_index (basename os_path) fsrc fs
        else if bit 15 mode
        then cp_over inode_index fsrc fs
        else goes tt fs

    chosen : Answer → Tool ℕ
    chosen (index inode_index) fs =
        (copied_to inode_index >>= λ _ fs. ends 0 (write_bitmaps fs)) (copy_bitmaps fs)
    chosen _ fs = (look_up (dirname ext2_path) >>= beside) fs
