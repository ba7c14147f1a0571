-- ===== src/Ext2/Ln.antt =====
-- a3/ext2_ln.c: hard and symbolic links. The local arrays for the two names are one byte too short for the
-- 0 at their end; the model takes them to be long enough.
pub mod Symlinks
pub mod Links
use csc369group.Prelude.{
  ℕ, ◌+◌, ◌*◌, Bool, true, false, ◌||◌, Option, none, some, List, [], ◌∷◌, length, get_elem?,
  if◌then◌else◌, ltb, ◌==◌,
}
use csc369group.Bits.{bit}
use csc369group.Ext2.Bitmaps.{get_free_bitmap}
use csc369group.Ext2.Disk.{
  DirEntry, Inode, zeroed, Fs, put_inode, copied, one_more, count_inode_taken,
}
use csc369group.Ext2.Insert.{reuse_entry, place_entry, placed, nowhere, no_space, lost}
use csc369group.Ext2.Tool.{
  Tool, ◌>>=◌, ◌>>◌, goes, ends, stuck, Answer, index, look_up, basename, dirname, concat_to_path,
  take_block_uncounted, copy_bitmaps, eexist, enoent, eisdir, enospc, enametoolong,
}

-- The two inodes and the name of the link, or -2, -3, -4.
pub data Target : Type 0 where
  target : (inode_src inode_dest : ℕ) (link_name : List ℕ) → Target
  no_entry is_directory is_there : Target

abbrev ends_with_slash : List ℕ → Bool
ends_with_slash [] = false
ends_with_slash (b ∷ []) = b == b'/'
ends_with_slash (b ∷ c ∷ s) = ends_with_slash (c ∷ s)

-- The source is a file: where the link goes.
module _ (path link_path : List ℕ) (inode_src : ℕ) where
  in_directory : ℕ → Answer → Tool Target
  in_directory inode_dest (index i) fs = goes is_there fs
  in_directory inode_dest _ fs = goes (target inode_src inode_dest (basename path)) fs

  beside : Answer → Tool Target
  beside (index inode_dest) fs =
      if ends_with_slash link_path
      then goes no_entry fs
      else goes (target inode_src inode_dest (basename link_path)) fs
  beside _ fs = goes no_entry fs

  unfoldable pub link_place : Answer → Tool Target
  unfolding in_directory beside
  link_place (index inode_dest) fs =
      if bit 14 (fs.inode_tbl inode_dest).i_mode
      then (look_up (concat_to_path link_path (basename path)) >>= in_directory inode_dest) fs
      else goes is_there fs
  link_place _ fs = (look_up (dirname link_path) >>= beside) fs

-- `sflag` makes no difference: a directory is refused with either. EXT2_S_IFLNK has the bits 15 and 13.
unfoldable pub set_inode_indices : (path link_path : List ℕ) → Tool Target
unfolding look_up link_place
set_inode_indices path link_path = look_up path >>= source
  where
    source : Answer → Tool Target
    source (index inode_src) fs =
        let mode = (fs.inode_tbl inode_src).i_mode in
        if bit 14 mode
        then goes is_directory fs
        else if bit 15 mode || (bit 15 mode || bit 13 mode)
        then (look_up link_path >>= link_place path link_path inode_src) fs
        else ends 1 fs
    source _ fs = goes no_entry fs

-- EXT2_FT_SYMLINK and EXT2_FT_REG_FILE
abbrev pub link_type : (sflag : Bool) → ℕ
link_type true = 7
link_type false = 1

-- A block that the directory gets is taken from the bitmap of the image, and is not counted.
unfoldable pub create_entry :
    (inode_src inode_dest : ℕ) → (sflag : Bool) → (fname : List ℕ) → Tool (Unit {0})
unfolding place_entry reuse_entry take_block_uncounted
create_entry inode_src inode_dest sflag fname fs =
    let new : DirEntry = record {
      inode = inode_src + 1;
      rec_len = 0;
      file_type = link_type sflag;
      name = fname;
    } in
    elim (place_entry reuse_entry take_block_uncounted inode_dest new fs) [
      | placed fs1 ↦ goes tt fs1
      | nowhere fs1 ↦ goes tt fs1
      | no_space fs1 ↦ ends enospc fs1
      | lost ↦ stuck
    ]

-- The path's bytes in the place of the 15 block numbers.
abbrev pub byte_of : Option ℕ → ℕ
byte_of none = 0
byte_of (some b) = b

unfoldable pub path_words : (path : List ℕ) → ℕ → ℕ
path_words path b =
    let at : ℕ → ℕ = λ k. byte_of (get_elem? path (4 * b + k)) in
    at 0 + 256 * at 1 + 65536 * at 2 + 16777216 * at 3

unfoldable pub put_path_to_blocks : (pos : ℕ) → (path : List ℕ) → Tool (Unit {0})
unfolding path_words
put_path_to_blocks pos path fs =
    let i : Inode = fs.inode_tbl pos in
    if ltb 60 (length path)
    then ends enametoolong fs
    else goes tt (put_inode pos (record i { i_block = path_words path }) fs)

-- The inode of a symbolic link, by the copy of the bitmap. `none` is -1.
unfoldable pub create_soft_inode : (now : ℕ) → (path : List ℕ) → Tool (Option ℕ)
unfolding get_free_bitmap count_inode_taken put_path_to_blocks
create_soft_inode now path fs =
    let found = get_free_bitmap fs.inode_bitmap_copy fs.sb.s_inodes_count in
    elim found.0 [
      | none ↦ goes none fs
      | some pos ↦
          let fs : Fs = count_inode_taken (record fs { inode_bitmap_copy = found.1 }) in
          let fresh : Inode = record zeroed {
            i_mode = 0xA000;
            i_atime = now;
            i_ctime = now;
            i_mtime = now;
          } in
          (put_path_to_blocks pos path >> sized pos) (put_inode pos fresh fs)
    ]
  where
    sized : ℕ → Tool (Option ℕ)
    sized pos fs =
        let i : Inode = fs.inode_tbl pos in
        goes (some pos) (put_inode pos (record i { i_size = length path; i_links_count = 1 }) fs)

-- The loops at the end of the branch for symbolic links, over 16 bytes.
abbrev pub write_16 : Tool (Unit {0})
write_16 fs = goes tt (record fs {
  bb_ptr = copied 16 fs.block_bitmap_copy fs.bb_ptr;
  ib_ptr = copied 16 fs.inode_bitmap_copy fs.ib_ptr;
})

unfoldable pub make_link :
    (now inode_src inode_dest : ℕ) → (sflag : Bool) → (path fname : List ℕ) → Tool (Unit {0})
unfolding create_entry create_soft_inode copy_bitmaps
make_link now inode_src inode_dest false path fname fs =
    let i : Inode = fs.inode_tbl inode_src in
    let linked : Inode = record i {
      i_links_count = one_more 16 i.i_links_count;
      i_atime = now;
      i_mtime = now;
    } in
    create_entry inode_src inode_dest false fname (put_inode inode_src linked fs)
make_link now inode_src inode_dest true path fname fs =
    (create_soft_inode now path >>= entry) (copy_bitmaps fs)
  where
    entry : Option ℕ → Tool (Unit {0})
    entry none fs = goes tt fs
    entry (some pos) fs = (create_entry pos inode_dest true fname >> write_16) fs

-- main, from `set_inode_indices` on.
unfoldable pub ln : (now : ℕ) → (sflag : Bool) → (abs_path link_abs_path : List ℕ) → Tool ℕ
unfolding set_inode_indices make_link
ln now sflag abs_path link_abs_path = set_inode_indices abs_path link_abs_path >>= link
  where
    link : Target → Tool ℕ
    link no_entry fs = ends enoent fs
    link is_directory fs = ends eisdir fs
    link is_there fs = ends eexist fs
    link (target inode_src inode_dest link_name) fs =
        (make_link now inode_src inode_dest sflag abs_path link_name >> λ fs'. ends 0 fs') fs
