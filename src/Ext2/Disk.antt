-- ===== src/Ext2/Disk.antt =====
-- a3/ext2.h: an image in memory. The blocks that hold directory entries, pointers and file contents are
-- bytes by address; the super block, the group descriptor, the two bitmaps and the inode table, which
-- stand in blocks of their own, are records and arrays.
pub mod Access
use csc369group.Prelude.{
  ℕ, zero, suc, ◌+◌, ◌-◌, ◌*◌, ◌/◌, ◌%◌, ◌^◌, List, [], ◌∷◌, length, if◌then◌else◌, ltb, update,
}

-- EXT2_BLOCK_SIZE
abbrev pub block_size : ℕ
block_size = 1024

abbrev pub Bytes : Type 0
Bytes = ℕ → ℕ

-- Numbers of two and of four bytes, the lowest byte first.
unfoldable pub u16 : Bytes → ℕ → ℕ
u16 m a = m a + 256 * m (a + 1)

unfoldable pub u32 : Bytes → ℕ → ℕ
u32 m a = m a + 256 * m (a + 1) + 65536 * m (a + 2) + 16777216 * m (a + 3)

unfoldable pub put_u16 : ℕ → ℕ → Bytes → Bytes
put_u16 a v m = update (update m a (v % 256)) (a + 1) (v / 256 % 256)

unfoldable pub put_u32 : ℕ → ℕ → Bytes → Bytes
put_u32 a v m =
    update
      (update (update (update m a (v % 256)) (a + 1) (v / 256 % 256)) (a + 2) (v / 65536 % 256))
      (a + 3) (v / 16777216 % 256)

-- The `n` bytes from `a` on, and `strncpy` of a string to `a` with the string's own length.
unfoldable pub get_bytes : (n a : ℕ) → Bytes → List ℕ
get_bytes zero a m = []
get_bytes (suc n) a m = m a ∷ get_bytes n (a + 1) m

unfoldable pub put_bytes : ℕ → List ℕ → Bytes → Bytes
put_bytes a [] m = m
put_bytes a (b ∷ s) m = put_bytes (a + 1) s (update m a b)

-- `struct ext2_dir_entry_2`. The name is the `name_len` bytes of the field `name`.
pub record DirEntry : Type 0 where
  pub inode : ℕ
  pub rec_len : ℕ
  pub file_type : ℕ
  pub name : List ℕ

-- The entry whose first byte is at `a`.
unfoldable pub entry_at : Bytes → ℕ → DirEntry
unfolding u16 u32 get_bytes
entry_at m a = record {
  inode = u32 m a;
  rec_len = u16 m (a + 4);
  file_type = m (a + 7);
  name = get_bytes (m (a + 6)) (a + 8) m;
}

-- de->rec_len = v
unfoldable pub set_rec_len : ℕ → ℕ → Bytes → Bytes
unfolding put_u16
set_rec_len a v m = put_u16 (a + 4) v m

-- The five assignments that fill an entry; the name gets no 0 at its end.
unfoldable pub put_entry : ℕ → DirEntry → Bytes → Bytes
unfolding put_u32 put_u16 put_bytes
put_entry a e m =
    let m = put_u32 a e.inode m in
    let m = put_u16 (a + 4) e.rec_len m in
    let m = update m (a + 6) (length e.name % 256) in
    let m = update m (a + 7) e.file_type in put_bytes (a + 8) e.name m

-- `struct ext2_inode`, less the fields that no tool reads or writes but by `memset`.
pub record Inode : Type 0 where
  pub i_mode : ℕ
  pub i_size : ℕ
  pub i_atime : ℕ
  pub i_ctime : ℕ
  pub i_mtime : ℕ
  pub i_dtime : ℕ
  pub i_links_count : ℕ
  pub i_blocks : ℕ
  pub i_block : ℕ → ℕ

-- memset(&inode_tbl[pos], 0, sizeof(inode_tbl[pos]))
abbrev pub zeroed : Inode
zeroed = record {
  i_mode = 0;
  i_size = 0;
  i_atime = 0;
  i_ctime = 0;
  i_mtime = 0;
  i_dtime = 0;
  i_links_count = 0;
  i_blocks = 0;
  i_block = λ b. 0;
}

-- The counts of the super block, and those of the group descriptor.
pub record SuperBlock : Type 0 where
  pub s_inodes_count : ℕ
  pub s_blocks_count : ℕ
  pub s_free_blocks_count : ℕ
  pub s_free_inodes_count : ℕ

pub record GroupDesc : Type 0 where
  pub bg_free_blocks_count : ℕ
  pub bg_free_inodes_count : ℕ
  pub bg_used_dirs_count : ℕ

-- The globals of ext2_util.h, and the arrays `block_bitmap_copy` and `inode_bitmap_copy` of the tools.
pub record Fs : Type 0 where
  pub disk : Bytes
  pub inode_tbl : ℕ → Inode
  pub sb : SuperBlock
  pub gd : GroupDesc
  pub bb_ptr : ℕ → ℕ
  pub ib_ptr : ℕ → ℕ
  pub block_bitmap_copy : ℕ → ℕ
  pub inode_bitmap_copy : ℕ → ℕ

-- The loops that copy the first `n` bytes of an array; the others keep what they had.
abbrev pub copied : (n : ℕ) → (from to : ℕ → ℕ) → ℕ → ℕ
copied n from to i = if ltb i n then from i else to i

-- inode_tbl[i] = v
abbrev pub put_inode : ℕ → Inode → Fs → Fs
put_inode i v fs = record fs { inode_tbl = update fs.inode_tbl i v }

-- `x --` and `x ++` on an `unsigned short` and an `unsigned int`.
abbrev pub less_one : ℕ → ℕ → ℕ
less_one w x = (x + 2 ^ w - 1) % 2 ^ w

abbrev pub one_more : ℕ → ℕ → ℕ
one_more w x = (x + 1) % 2 ^ w

-- A block, an inode is taken or given back, in both counts.
unfoldable pub count_block_taken : Fs → Fs
count_block_taken fs = record fs {
  sb = record fs.sb { s_free_blocks_count = less_one 32 fs.sb.s_free_blocks_count };
  gd = record fs.gd { bg_free_blocks_count = less_one 16 fs.gd.bg_free_blocks_count };
}

unfoldable pub count_inode_taken : Fs → Fs
count_inode_taken fs = record fs {
  sb = record fs.sb { s_free_inodes_count = less_one 32 fs.sb.s_free_inodes_count };
  gd = record fs.gd { bg_free_inodes_count = less_one 16 fs.gd.bg_free_inodes_count };
}

unfoldable pub count_block_freed : Fs → Fs
count_block_freed fs = record fs {
  sb = record fs.sb { s_free_blocks_count = one_more 32 fs.sb.s_free_blocks_count };
  gd = record fs.gd { bg_free_blocks_count = one_more 16 fs.gd.bg_free_blocks_count };
}

unfoldable pub count_inode_freed : Fs → Fs
count_inode_freed fs = record fs {
  sb = record fs.sb { s_free_inodes_count = one_more 32 fs.sb.s_free_inodes_count };
  gd = record fs.gd { bg_free_inodes_count = one_more 16 fs.gd.bg_free_inodes_count };
}
