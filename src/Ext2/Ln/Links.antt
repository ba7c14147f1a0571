-- ===== src/Ext2/Ln/Links.antt =====
-- a3/ext2_ln.c: a hard link.
use csc369group.Prelude.{ℕ, ◌+◌, ◌≡◌, false, List}
use csc369group.Ext2.Disk.{DirEntry, Inode, Fs, put_inode, one_more}
use csc369group.Ext2.Path.{take_entry, check_entries_for_path, view}
use csc369group.Ext2.Insert.{Placement, placed, nowhere, no_space, lost}
use csc369group.Ext2.Insert.Tiles.{Tiles}
use csc369group.Ext2.Tool.{Step, goes, ends, stuck}
use csc369group.Ext2.Ln.{link_type}

-- The call has returned. The file has `count` links, and in the block a lookup of the name ends as the
-- entry of the link says.
abbrev pub IsLinkMade :
    (file count block : ℕ) (new : DirEntry) (abs_path : List ℕ) → Step (Unit {0}) → Type 0
IsLinkMade file count block new abs_path (goes _ after) =
    ((after.inode_tbl file).i_links_count ≡ count)
    × (check_entries_for_path block new.name abs_path (view after)
        ≡ take_entry new.name abs_path new)
IsLinkMade file count block new abs_path _ = ⊥

abbrev pub hard_link : (inode_src : ℕ) → (fname : List ℕ) → DirEntry
hard_link inode_src fname = record {
  inode = inode_src + 1;
  rec_len = 0;
  file_type = link_type false;
  name = fname;
}

module _ (now inode_src inode_dest : ℕ) (fname abs_path : List ℕ) (fs : Fs)
    (es es' : List DirEntry) where
  abbrev new : DirEntry
  new = hard_link inode_src fname

  abbrev source : Inode
  source = fs.inode_tbl inode_src

  abbrev counted : Fs
  counted =
      put_inode inode_src
        (record source {
          i_links_count = one_more 16 source.i_links_count;
          i_atime = now;
          i_mtime = now;
        })
        fs

  abbrev block : ℕ
  block = (fs.inode_tbl inode_dest).i_block 0

  abbrev ended : Placement → Step (Unit {0})
  ended p = elim p [
    | placed fs1 ↦ goes tt fs1
    | nowhere fs1 ↦ goes tt fs1
    | no_space fs1 ↦ ends 28 fs1
    | lost ↦ stuck
  ]
