-- ===== src/Examples/Dirs.antt =====
-- a3: the ext2 tools at concrete inputs, on an image with the directory of inode index 11 in block 9.
use mathlib.Core.List.Memᴰ.{head, tail}
use csc369group.Prelude.{
  ℕ, ◌+◌, ◌*◌, ◌<◌, ◌≡◌, refl, false, not, ◌&&◌, none, some, List, [], ◌∷◌, arith, ap, replicate,
  sym, subst, inl, ◌∙◌,
}
use csc369group.Bits.{bit, set_bit}
use csc369group.Ext2.Bitmaps.{in_use, get_free_bitmap, round_up}
use csc369group.Ext2.Disk.{
  block_size, DirEntry, entry_at, put_entry, zeroed, Fs, one_more, count_block_taken,
}
use csc369group.Ext2.Path.{take_entry, check_entries_for_path, view, same_bytes}
use csc369group.Ext2.Insert.{
  found_at, reuse_entry, place_entry, place_loop, slot_loop, split_entry, metadata_size,
}
use csc369group.Ext2.Insert.Tiles.{Tiles, insert_behind}
use csc369group.Ext2.Insert.Search.{Searched, search-Searched}
use csc369group.Ext2.Insert.Directory.{Inserted, place_entry-Inserted}
use csc369group.Ext2.Insert.Growth.{IsMissed, place_loop-IsMissed, take_block_uncounted-IsGrowth}
use csc369group.Ext2.Insert.Lookup.{IsAbsent, split_entry-found}
use csc369group.Ext2.Tool.{take_block_uncounted, take_block}
use csc369group.Ext2.Mkdir.{dot, dotdot, first_block, create_dir}
use csc369group.Ext2.Mkdir.Creation.{IsMade, directory, create_dir-IsMade}
use csc369group.Ext2.Ln.{create_soft_inode}
use csc369group.Ext2.Mkdir.Dots.{first_block-Tiles, disk_after}
use csc369group.Ext2.Disk.Access.{put_entry_outside}
use csc369group.Ext2.Ln.Symlinks.{IsNameTooLong, create_soft_inode-IsNameTooLong}
use csc369group.Ext2.Rm.{delete_loop, free_blocks}
use csc369group.Ext2.Rm.Merge.{Merged, merge_out, delete_loop-refines}
use csc369group.Ext2.Rm.Freed.{has_block, free_blocks-in_use}

abbrev pub blank : Fs
blank = record {
  disk = λ a. 0;
  inode_tbl = λ n. zeroed;
  sb = record {
    s_inodes_count = 32;
    s_blocks_count = 128;
    s_free_blocks_count = 100;
    s_free_inodes_count = 20;
  };
  gd = record { bg_free_blocks_count = 100; bg_free_inodes_count = 20; bg_used_dirs_count = 2 };
  bb_ptr = λ ix. 0;
  ib_ptr = λ ix. 0;
  block_bitmap_copy = λ ix. 0;
  inode_bitmap_copy = λ ix. 0;
}

abbrev pub made : Fs
made = first_block 1 11 8 blank

abbrev pub entries : List DirEntry
entries = dot 11 ∷ dotdot 1 ∷ []

abbrev a_file : DirEntry
a_file = record { inode = 13; rec_len = 0; file_type = 1; name = b'a' ∷ [] }

pub made-Tiles : Tiles made.disk (9 * block_size) 0 entries
made-Tiles = first_block-Tiles 1 11 8 blank (omega arith) (omega arith)

-- The bytes before block 9 are those of the blank image.
pub made_elsewhere : (i : ℕ) → i < 9 * block_size → made.disk i ≡ 0
made_elsewhere i lt =
    ap (λ m. m i) (disk_after 1 11 8 blank (omega arith) (omega arith))
    ∙ put_entry_outside (9 * block_size + metadata_size 1) (dotdot 1)
        (put_entry (9 * block_size) (dot 11) blank.disk) i (inl (omega arith))
    ∙ put_entry_outside (9 * block_size) (dot 11) blank.disk i (inl (omega arith))

room_example :
    Searched made.disk
      (9 * block_size)
      0
      a_file
      entries
      (slot_loop 1025 0 (9 * block_size) none 1 made.disk)
room_example =
    search-Searched made.disk (9 * block_size) a_file (omega arith) (omega arith) none made-Tiles

alive : (n : ℕ) → (made.inode_tbl n).i_dtime ≡ 0
unfolding first_block
alive n = ground arith

address-9 : (k : ℕ) → k < 1 → (made.inode_tbl 11).i_block k ≡ 9
unfolding first_block
address-9 k h = ground arith

insert_example :
    Inserted reuse_entry take_block_uncounted 11 a_file made
      (λ k. entries)
      1
      12
      0
      (place_entry reuse_entry take_block_uncounted 11 a_file made)
insert_example =
    place_entry-Inserted reuse_entry take_block_uncounted 11 a_file made (λ k. entries) 1
      (omega arith) (omega arith) (λ k h. omega (arith, address-9 k h))
      (λ k h.
        subst (λ b. Tiles made.disk (b * block_size) 0 entries) (sym (address-9 k h)) made-Tiles)
      (λ k e h mem. alive e.inode) (omega arith)

-- `entries` have no entry `a`.
a-IsAbsent : IsAbsent (b'a' ∷ []) entries
a-IsAbsent e (head p) = ap (λ (d : DirEntry). same_bytes (b'a' ∷ []) d.name) p
a-IsAbsent e (tail (head p)) = ap (λ (d : DirEntry). same_bytes (b'a' ∷ []) d.name) p
a-IsAbsent e (tail (tail x)) = elim x [ ]

-- The search stops at "..", which has 1012 bytes and needs 12.
found_dotdot :
    slot_loop 1025 0 (9 * block_size) none 1 made.disk
    ≡ found_at (9 * block_size + 12) (some (9 * block_size))
unfolding slot_loop first_block entry_at put_entry metadata_size round_up
found_dotdot = refl

found_example :
    check_entries_for_path 9
      (b'a' ∷ [])
      []
      (view (record made { disk = split_entry (9 * block_size + 12) a_file made.disk }))
    ≡ take_entry (b'a' ∷ []) [] a_file
found_example =
    split_entry-found a_file [] made 9 (9 * block_size + 12) (some (9 * block_size)) entries
      (omega arith) (omega arith) made-Tiles a-IsAbsent found_dotdot

delete_example :
    Merged made.disk
      (9 * block_size)
      0
      (merge_out 2 entries)
      (delete_loop 1025 0 (9 * block_size) none 2 made.disk)
delete_example =
    delete_loop-refines made.disk (9 * block_size) 2 (dot 11) (dotdot 1 ∷ []) made-Tiles

abbrev first_taken : Fs
first_taken = record blank { bb_ptr = (get_free_bitmap blank.bb_ptr blank.sb.s_blocks_count).1 }

takes_first : take_block_uncounted blank ≡ some (0, first_taken)
unfolding take_block_uncounted get_free_bitmap bit set_bit
takes_first = refl

-- Inode 5 of the blank image has no blocks.
blank-IsMissed :
    IsMissed blank.disk
      (record a_file { rec_len = block_size })
      5
      0
      1
      (place_loop reuse_entry take_block_uncounted 12 0 5 a_file blank)
blank-IsMissed =
    place_loop-IsMissed reuse_entry take_block_uncounted take_block_uncounted-IsGrowth 5 a_file
      (omega arith) (omega arith) blank.disk 11 0 0 blank first_taken (λ k le. refl) (λ i. refl)
      takes_first

first_free : (get_free_bitmap blank.inode_bitmap_copy blank.sb.s_inodes_count).0 ≡ some 0
unfolding get_free_bitmap bit set_bit
first_free = refl

too_long_example : IsNameTooLong blank (create_soft_inode 7 (replicate 61 b'a') blank)
too_long_example =
    create_soft_inode-IsNameTooLong 7 0 (replicate 61 b'a') blank (omega arith) first_free

freed_example :
    in_use (free_blocks 15 0 false (made.inode_tbl 11) made).block_bitmap_copy 9
    ≡ (not (has_block 15 0 (made.inode_tbl 11) 9) && in_use made.block_bitmap_copy 9)
freed_example = free_blocks-in_use false (made.inode_tbl 11) 9 15 0 made

-- The entries with a third one behind them.
abbrev with_third : DirEntry → List DirEntry
with_third new = dot 11 ∷ record (dotdot 1) { rec_len = 12 } ∷ record new { rec_len = 1000 } ∷ []

-- The blank image has block 1 free.
abbrev taken : Fs
taken = count_block_taken (record made {
  block_bitmap_copy = (get_free_bitmap made.block_bitmap_copy made.sb.s_blocks_count).1;
})

takes : take_block made ≡ some (0, taken)
unfolding take_block get_free_bitmap first_block bit set_bit
takes = refl

-- The directory `a` is made in the directory.
room_for_directory :
    insert_behind (directory 12 (b'a' ∷ [])) entries ≡ some (with_third (directory 12 (b'a' ∷ [])))
unfolding insert_behind metadata_size round_up
room_for_directory = refl

mkdir_example :
    IsMade 11 12
      (one_more 16 (made.inode_tbl 11).i_links_count)
      ((made.inode_tbl 11).i_block 0)
      1
      (b'a' ∷ [])
      []
      (create_dir 11 12 (b'a' ∷ []) made)
mkdir_example =
    create_dir-IsMade 11 12 0 (b'a' ∷ []) [] made taken entries
      (with_third (directory 12 (b'a' ∷ []))) (omega arith) (omega arith) (omega arith)
      (omega arith) takes (omega (arith, address-9 0)) (omega (arith, address-9 0))
      (subst (λ b. Tiles made.disk (b * block_size) 0 entries) (sym (address-9 0 (omega arith)))
        made-Tiles)
      (λ e mem. alive e.inode) a-IsAbsent room_for_directory
