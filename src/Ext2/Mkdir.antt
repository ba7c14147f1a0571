-- ===== src/Ext2/Mkdir.antt =====
-- a3/ext2_mkdir.c: a directory is created. The calls of `get_free_bitmap` pass four arguments where
-- ext2_util.c takes two; they are read as calls with the bitmap and the count.
pub mod Dots
pub mod Creation
use csc369group.Prelude.{ℕ, ◌+◌, ◌-◌, ◌*◌, Option, none, some, List, [], ◌∷◌, update}
use csc369group.Ext2.Bitmaps.{get_free_bitmap}
use csc369group.Ext2.Disk.{
  block_size, DirEntry, put_entry, Inode, zeroed, Fs, put_inode, copied, one_more,
  count_inode_taken,
}
use csc369group.Ext2.Path.{ft_dir}
use csc369group.Ext2.Insert.{
  metadata_size, overwrite_entry, place_entry, placed, nowhere, no_space, lost,
}
use csc369group.Ext2.Tool.{
  Tool, ◌>>=◌, goes, ends, stuck, Answer, index, minus_one, below, look_up, basename, dirname,
  take_block, eexist, enoent, enospc,
}

-- The name and the parent's inode, or -1 or -2.
pub data Parent : Type 0 where
  parent : (index : ℕ) → Parent
  is_there no_dir : Parent

unfoldable pub get_parent_ino : (path : List ℕ) → Tool Parent
unfolding look_up
get_parent_ino path = look_up path >>= found
  where
    above : Answer → Tool Parent
    above (index i) fs = goes (parent i) fs
    above _ fs = goes no_dir fs

    found : Answer → Tool Parent
    found (index i) fs = goes is_there fs
    found minus_one fs = goes no_dir fs
    found below fs = (look_up (dirname path) >>= above) fs

-- An inode for the directory. Its bit is set in the bitmap of the image.
unfoldable pub create_inode_dir : (now : ℕ) → Fs → Option (ℕ × Fs)
unfolding get_free_bitmap count_inode_taken
create_inode_dir now fs =
    let found = get_free_bitmap fs.ib_ptr fs.sb.s_inodes_count in
    elim found.0 [
      | none ↦ none
      | some pos ↦
          let fs : Fs = count_inode_taken (record fs { ib_ptr = found.1 }) in
          let fs : Fs =
            put_inode pos
              (record zeroed {
                i_mode = 0x4000;
                i_atime = now;
                i_ctime = now;
                i_mtime = now;
                i_size = block_size;
                i_blocks = 2;
                i_links_count = 2;
              })
              fs in
          some (
            pos,
            record fs {
              gd = record fs.gd { bg_used_dirs_count = one_more 16 fs.gd.bg_used_dirs_count };
            },
          )
    ]

-- The first block of the directory, with "." and "..", and the parent's link.
abbrev pub dot : (new_i : ℕ) → DirEntry
dot new_i = record {
  inode = new_i + 1;
  rec_len = metadata_size 1;
  file_type = ft_dir;
  name = b'.' ∷ [];
}

abbrev pub dotdot : (par_i : ℕ) → DirEntry
dotdot par_i = record {
  inode = par_i + 1;
  rec_len = block_size - metadata_size 1;
  file_type = ft_dir;
  name = b'.' ∷ b'.' ∷ [];
}

unfoldable pub first_block : (par_i new_i free_blk_ind : ℕ) → Fs → Fs
unfolding metadata_size
first_block par_i new_i free_blk_ind fs =
    let block = free_blk_ind + 1 in
    let new : Inode = fs.inode_tbl new_i in
    let fs : Fs = put_inode new_i (record new { i_block = update new.i_block 0 block }) fs in
    let fs : Fs = record fs { disk = put_entry (block * block_size) (dot new_i) fs.disk } in
    let par : Inode = fs.inode_tbl par_i in
    let fs : Fs =
      put_inode par_i (record par { i_links_count = one_more 16 par.i_links_count }) fs in
    record fs { disk = put_entry (block * block_size + metadata_size 1) (dotdot par_i) fs.disk }

-- The loop at the end, over 16 bytes.
abbrev pub write_block_bitmap : Fs → Fs
write_block_bitmap fs = record fs { bb_ptr = copied 16 fs.block_bitmap_copy fs.bb_ptr }

-- The result is 0, or the positive number of what the code returns: 1 or ENOSPC.
unfoldable pub create_dir : (par_i new_i : ℕ) → (name : List ℕ) → Tool ℕ
unfolding take_block first_block place_entry overwrite_entry
create_dir par_i new_i name fs = elim (take_block fs) [
  | none ↦ goes 1 fs
  | some (free_blk_ind, fs1) ↦
      let new : DirEntry = record {
        inode = new_i + 1;
        rec_len = 0;
        file_type = ft_dir;
        name = name;
      } in
      elim (place_entry overwrite_entry take_block par_i new
        (first_block par_i new_i free_blk_ind fs1)) [
          | placed fs2 ↦ goes 0 (write_block_bitmap fs2)
          | nowhere fs2 ↦ goes 0 (write_block_bitmap fs2)
          | no_space fs2 ↦ goes enospc fs2
          | lost ↦ stuck
        ]
]

-- main, from `get_parent_ino` on. What `create_dir` returns is not looked at.
unfoldable pub mkdir : (now : ℕ) → (abs_path : List ℕ) → Tool ℕ
unfolding get_parent_ino create_inode_dir create_dir
mkdir now abs_path = get_parent_ino abs_path >>= create
  where
    create : Parent → Tool ℕ
    create is_there fs = ends eexist fs
    create no_dir fs = ends enoent fs
    create (parent par_inode_ind) fs =
        let fs : Fs = record fs { block_bitmap_copy = copied 16 fs.bb_ptr fs.block_bitmap_copy } in
        elim (create_inode_dir now fs) [
          | none ↦ ends enospc fs
          | some (curr_inode_ind, fs1) ↦
              ((create_dir par_inode_ind curr_inode_ind (basename abs_path)) >>= λ _. ends 0) fs1
        ]
