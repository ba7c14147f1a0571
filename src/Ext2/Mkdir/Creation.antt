-- ===== src/Ext2/Mkdir/Creation.antt =====
-- a3/ext2_mkdir.c: a directory that is created is found in its parent.
use mathlib.Core.List.{Memᴰ}
use csc369group.Prelude.{
  ℕ, ◌+◌, ◌*◌, ◌^◌, ◌≤◌, ◌<◌, ◌≡◌, ◌≢◌, ◌⊎◌, refl, some, List, [], ◌∷◌, arith, length, ap, sym, ◌∙◌,
  subst,
}
use csc369group.Ext2.Disk.{block_size, DirEntry, put_entry, Inode, Fs, one_more}
use csc369group.Ext2.Disk.Access.{put_entry_outside}
use csc369group.Ext2.Path.{ft_dir, hit, take_entry, check_entries_for_path, view}
use csc369group.Ext2.Insert.{
  metadata_size, overwrite_entry, Placement, placed, nowhere, no_space, lost, place_entry,
}
use csc369group.Ext2.Insert.Tiles.{Tiles, Tiles-agree, insert_behind}
use csc369group.Ext2.Insert.Directory.{Inserted, inserted, passed, place_entry-Inserted}
use csc369group.Ext2.Insert.Growth.{take_block-IsGrowth}
use csc369group.Ext2.Insert.Lookup.{IsAbsent, check_entries-inserted, check_entries-first_match}
use csc369group.Ext2.Tool.{Step, goes, stuck, take_block}
use csc369group.Ext2.Mkdir.{dot, dotdot, first_block, write_block_bitmap, create_dir}
use csc369group.Ext2.Mkdir.Dots.{
  disk_after, dot_size, first_block-Tiles, first_match-dots, par_links,
}

-- The call has returned 0. The parent has `links` links, and the first block of the new directory is
-- the new block. A lookup of the name in the parent's block finds the new directory, and in the new
-- block "." is the directory and ".." its parent.
abbrev pub IsMade :
    (par_i new_i links par_block new_block : ℕ) (name abs_path : List ℕ) → Step ℕ → Type 0
IsMade par_i new_i links par_block new_block name abs_path (goes status made) =
    (status ≡ 0)
    × ((made.inode_tbl par_i).i_links_count ≡ links)
    × ((made.inode_tbl new_i).i_block 0 ≡ new_block)
    × (check_entries_for_path par_block name abs_path (view made) ≡ hit new_i)
    × (check_entries_for_path new_block (b'.' ∷ []) abs_path (view made) ≡ hit new_i)
    × (check_entries_for_path new_block (b'.' ∷ b'.' ∷ []) abs_path (view made) ≡ hit par_i)
IsMade par_i new_i links par_block new_block name abs_path _ = ⊥

abbrev pub directory : (new_i : ℕ) → (name : List ℕ) → DirEntry
directory new_i name = record { inode = new_i + 1; rec_len = 0; file_type = ft_dir; name = name }

take_entry-directory :
    (new_i : ℕ) (name abs_path : List ℕ)
    → new_i + 1 < 2 ^ 32
    → take_entry name abs_path (directory new_i name) ≡ hit new_i
unfolding take_entry
take_entry-directory new_i name abs_path small = ap hit (omega arith)

module _ (par_i new_i b : ℕ) (name abs_path : List ℕ) (fs : Fs) (es es' : List DirEntry)
    (par : par_i + 1 < 2 ^ 32) (new : new_i + 1 < 2 ^ 32) (differ : new_i ≢ par_i) where
  abbrev filled : Fs
  filled = first_block par_i new_i b fs

  abbrev block : ℕ
  block = (fs.inode_tbl par_i).i_block 0

  abbrev links : ℕ
  links = one_more 16 (fs.inode_tbl par_i).i_links_count

  filled_outside :
      (i : ℕ)
      → (i < (b + 1) * block_size) ⊎ ((b + 1) * block_size + 1024 ≤ i)
      → filled.disk i ≡ fs.disk i
  filled_outside i outside =
      ap (λ m. m i) (disk_after par_i new_i b fs par new)
      ∙ put_entry_outside ((b + 1) * block_size + metadata_size 1) (dotdot par_i)
          (put_entry ((b + 1) * block_size) (dot new_i) fs.disk) i
          (omega (arith, outside, dot_size))
      ∙ put_entry_outside ((b + 1) * block_size) (dot new_i) fs.disk i
          (omega (arith, outside, dot_size))

  filled_block : (k : ℕ) → (filled.inode_tbl par_i).i_block k ≡ (fs.inode_tbl par_i).i_block k
  unfolding first_block
  filled_block k = ground (arith, differ)

  new_block_linked : (filled.inode_tbl new_i).i_block 0 ≡ b + 1
  unfolding first_block
  new_block_linked = ground (arith, differ)

  filled_dtime : (i : ℕ) → (filled.inode_tbl i).i_dtime ≡ (fs.inode_tbl i).i_dtime
  unfolding first_block
  filled_dtime i = ground arith

  abbrev ended : Placement → Step ℕ
  ended p = elim p [
    | placed fs2 ↦ goes 0 (write_block_bitmap fs2)
    | nowhere fs2 ↦ goes 0 (write_block_bitmap fs2)
    | no_space fs2 ↦ goes 28 fs2
    | lost ↦ stuck
  ]

  ended-IsMade :
      (p : Placement)
      → block ≢ b + 1
      → IsAbsent name es
      → insert_behind (directory new_i name) es ≡ some es'
      → Inserted overwrite_entry take_block par_i (directory new_i name) filled (λ k. es) 1 12 0 p
      → IsMade par_i new_i links block (b + 1) name abs_path (ended p)
  ended-IsMade _ apart absent room
        (inserted {k = k} {m' = m'} {es' = list} lo hi before behind tiles same) =
      let address : (filled.inode_tbl par_i).i_block k * block_size ≡ block * block_size =
        ap (λ x. (filled.inode_tbl par_i).i_block x * block_size) (omega (arith, hi))
        ∙ ap (λ x. x * block_size) (filled_block 0) in
      let dots : Tiles m' ((b + 1) * block_size) 0 (dot new_i ∷ dotdot par_i ∷ []) =
        Tiles-agree m' (λ i lo hi. same i (omega (arith, address, apart, lo, hi)))
          (first_block-Tiles par_i new_i b fs par new) in
      let found = first_match-dots par_i new_i b fs par new abs_path in
      let made : Fs = write_block_bitmap (record filled { disk = m' }) in
      (
        refl,
        par_links par_i new_i b fs par new differ,
        new_block_linked,
        check_entries-inserted (directory new_i name) abs_path made block es list absent behind
              (subst (λ a. Tiles m' a 0 list) address tiles)
            ∙ take_entry-directory new_i name abs_path new,
        check_entries-first_match made (b + 1) (b'.' ∷ []) abs_path dots ∙ found.0,
        check_entries-first_match made (b + 1) (b'.' ∷ b'.' ∷ []) abs_path dots ∙ found.1,
      )
  ended-IsMade p apart absent room (passed full e) = absurd (ground (arith, full 0, room))

  filled-IsMade :
      length name < 2 ^ 8
      → block ≢ 0
      → block ≢ b + 1
      → Tiles fs.disk (block * block_size) 0 es
      → ((e : DirEntry) → Memᴰ e es → (fs.inode_tbl e.inode).i_dtime ≡ 0)
      → IsAbsent name es
      → insert_behind (directory new_i name) es ≡ some es'
      → IsMade par_i new_i links block
          (b + 1)
          name
          abs_path
          (ended (place_entry overwrite_entry take_block par_i (directory new_i name) filled))
  filled-IsMade short present apart tiles alive absent room =
      let here : (k : ℕ) → k < 1 → (filled.inode_tbl par_i).i_block k ≡ block =
        λ k lt. ap (λ x. (filled.inode_tbl par_i).i_block x) (omega arith) ∙ filled_block 0 in
      ended-IsMade (place_entry overwrite_entry take_block par_i (directory new_i name) filled)
        apart absent room
        (place_entry-Inserted overwrite_entry take_block par_i (directory new_i name) filled
          (λ k. es) 1 new short (λ k lt e. present (sym (here k lt) ∙ e))
          (λ k lt.
            subst (λ x. Tiles filled.disk (x * block_size) 0 es) (sym (here k lt))
              (Tiles-agree filled.disk (λ i lo hi. filled_outside i (omega (arith, apart, lo, hi)))
                tiles))
          (λ k e lt mem. filled_dtime e.inode ∙ alive e mem) (omega arith))

-- A free block is at hand, and the parent has a first block whose entries are well-formed, none with the
-- name of the new directory, with room for it. Where the code looks up whether an entry is deleted,
-- `inode_tbl[e.inode]`, which is the slot behind that of the entry's own inode, no deletion time stands.
-- Then the new directory is created: the call returns 0, the parent has one link more, the free block
-- is the first one of the new inode, a lookup of the name in the parent's block finds the new inode, and
-- in the new block "." is the new inode and ".." the parent's. Names have at most 255 bytes and inodes
-- 32 bits; the free block is not the parent's, and the parent not the new directory.
pub create_dir-IsMade :
    (par_i new_i b : ℕ) (name abs_path : List ℕ) (fs fs1 : Fs) (es es' : List DirEntry)
    → par_i + 1 < 2 ^ 32
    → new_i + 1 < 2 ^ 32
    → new_i ≢ par_i
    → length name < 2 ^ 8
    → take_block fs ≡ some (b, fs1)
    → (fs.inode_tbl par_i).i_block 0 ≢ 0
    → (fs.inode_tbl par_i).i_block 0 ≢ b + 1
    → Tiles fs.disk ((fs.inode_tbl par_i).i_block 0 * block_size) 0 es
    → ((e : DirEntry) → Memᴰ e es → (fs.inode_tbl e.inode).i_dtime ≡ 0)
    → IsAbsent name es
    → insert_behind (directory new_i name) es ≡ some es'
    → IsMade par_i new_i
        (one_more 16 (fs.inode_tbl par_i).i_links_count)
        ((fs.inode_tbl par_i).i_block 0)
        (b + 1)
        name
        abs_path
        (create_dir par_i new_i name fs)
unfolding create_dir
create_dir-IsMade par_i new_i b name abs_path fs fs1 es es' par new differ short taken present apart
      tiles alive absent room =
    let kept = take_block-IsGrowth fs fs1 b taken in
    let made =
      filled-IsMade par_i new_i b name abs_path fs1 es es' par new differ short (rw kept.1 present)
        (rw kept.1 apart) (rw (kept.0, kept.1) tiles) (rw kept.1 alive) absent room in
    rw (create_dir, taken)
      (subst
        (λ (t : ℕ → Inode).
          IsMade par_i new_i (one_more 16 (t par_i).i_links_count) ((t par_i).i_block 0) (b + 1)
            name abs_path
            (ended par_i new_i b name abs_path fs1 es es' par new differ (
              place_entry overwrite_entry take_block par_i (directory new_i name)
                (first_block par_i new_i b fs1))))
        kept.1 made)
