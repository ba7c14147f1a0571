-- ===== src/Ext2/Insert.antt =====
-- a3: a new entry is put into a directory. The code stands three times: in create_dir of ext2_mkdir.c, in
-- create_entry of ext2_ln.c and in main of ext2_cp.c. What differs is a parameter here.
pub mod Tiles
pub mod Search
pub mod Directory
pub mod Growth
pub mod Lookup
use csc369group.Prelude.{
  ℕ, zero, suc, ◌+◌, ◌-◌, ◌*◌, Bool, true, false, Option, none, some, length, if◌then◌else◌, ltb,
  leb, ◌==◌, update,
}
use csc369group.Ext2.Bitmaps.{round_up}
use csc369group.Ext2.Disk.{
  block_size, Bytes, u16, u32, DirEntry, entry_at, set_rec_len, put_entry, Inode, Fs, put_inode,
}

-- The size of an entry's fields and name, rounded up to 4 bytes.
unfoldable pub metadata_size : (name_len : ℕ) → ℕ
metadata_size name_len = round_up (8 + name_len) 4

-- What the walk over a block finds: an entry with room behind it, by its address, with the entry before.
pub data Slot : Type 0 where
  found_at : (curr_de : ℕ) (prev_de : Option ℕ) → Slot
  full endless : Slot

-- The `while` from offset `curr_entry` on, for a name of `len` bytes.
unfoldable pub slot_loop :
    (fuel curr_entry base : ℕ) → (prev_de : Option ℕ) → (len : ℕ) → Bytes → Slot
unfolding metadata_size
slot_loop zero curr_entry base prev_de len m = endless
slot_loop (suc fuel) curr_entry base prev_de len m =
    let curr_de = base + curr_entry in
    let e = entry_at m curr_de in
    let rest = slot_loop fuel (curr_entry + e.rec_len) base (some curr_de) len m in
    if ltb curr_entry block_size
    then (if leb (8 + len + metadata_size (length e.name)) e.rec_len
        then found_at curr_de prev_de
        else rest)
    else full

-- The entry keeps what it needs, and the new one gets the rest of its length.
unfoldable pub split_entry : (curr_de : ℕ) → DirEntry → Bytes → Bytes
split_entry curr_de new m =
    let e = entry_at m curr_de in
    let size = metadata_size (length e.name) in
    set_rec_len curr_de size
      (put_entry (curr_de + size) (record new { rec_len = e.rec_len - size }) m)

-- ext2_ln.c and ext2_cp.c, for an entry that counts as deleted. Without a previous entry `rec_len` is
-- left as it is.
unfoldable pub reuse_entry : (curr_de : ℕ) → (prev_de : Option ℕ) → DirEntry → Bytes → Bytes
reuse_entry curr_de prev_de new m =
    let e = entry_at m curr_de in
    let size = metadata_size (length e.name) in
    if leb (8 + length new.name) size
    then elim prev_de [
      | none ↦ put_entry curr_de (record new { rec_len = e.rec_len }) m
      | some p ↦
          set_rec_len p size (put_entry curr_de (record new { rec_len = (entry_at m p).rec_len }) m)
    ]
    else m

-- ext2_mkdir.c, for such an entry: `prev_de` is set to the entry itself.
unfoldable pub overwrite_entry : (curr_de : ℕ) → (prev_de : Option ℕ) → DirEntry → Bytes → Bytes
overwrite_entry curr_de prev_de new m =
    let e = entry_at m curr_de in
    let size = metadata_size (length e.name) in
    set_rec_len curr_de size (put_entry curr_de (record new { rec_len = e.rec_len - size }) m)

-- How the loop over `i_block` ends: with the entry in place, with no place left in twelve blocks, without a
-- free block, or not at all.
pub data Placement : Type 0 where
  placed nowhere no_space : Fs → Placement
  lost : Placement

-- The test for a deleted entry indexes `inode_tbl` with an inode's number, which is one too much.
module _ (reuse : ℕ → Option ℕ → DirEntry → Bytes → Bytes) (grow : Fs → Option (ℕ × Fs)) where
  unfoldable pub place_at : (curr_de : ℕ) → (prev_de : Option ℕ) → DirEntry → Fs → Fs
  unfolding split_entry
  place_at curr_de prev_de new fs =
      let e = entry_at fs.disk curr_de in
      if (fs.inode_tbl e.inode).i_dtime == 0
      then record fs { disk = split_entry curr_de new fs.disk }
      else record fs { disk = reuse curr_de prev_de new fs.disk }

  -- The branch for `i_block[j] == 0`. The entry is written to the address that the pointer had before
  -- the block was taken, which is that of block 0.
  unfoldable pub add_block : (dir j pos : ℕ) → DirEntry → Fs → Fs
  add_block dir j pos new fs =
      let i = fs.inode_tbl dir in
      record (put_inode dir (record i { i_block = update i.i_block j (pos + 1) }) fs) {
        disk = put_entry (i.i_block j * block_size) (record new { rec_len = block_size }) fs.disk;
      }

  -- The loop over `i_block` from `j` on; it stops at an entry that is in place, and goes on otherwise.
  unfoldable pub place_loop : (rounds j dir : ℕ) → DirEntry → Fs → Placement
  unfolding slot_loop place_at add_block
  place_loop zero j dir new fs = nowhere fs
  place_loop (suc r) j dir new fs =
      let block = (fs.inode_tbl dir).i_block j in
      let taken : Placement = elim (grow fs) [
        | none ↦ no_space fs
        | some (pos, fs) ↦ place_loop r (suc j) dir new (add_block dir j pos new fs)
      ] in
      let searched : Placement =
        elim (slot_loop 1025 0 (block * block_size) none (length new.name) fs.disk) [
          | found_at curr_de prev_de ↦ placed (place_at curr_de prev_de new fs)
          | full ↦ place_loop r (suc j) dir new fs
          | endless ↦ lost
        ] in
      if block == 0 then taken else searched

  unfoldable pub place_entry : (dir : ℕ) → DirEntry → Fs → Placement
  unfolding place_loop
  place_entry dir new fs = place_loop 12 0 dir new fs
