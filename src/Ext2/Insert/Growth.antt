-- ===== src/Ext2/Insert/Growth.antt =====
-- a3: the branch of the loop over `i_block` for a block number 0.
use csc369group.Prelude.{
  ℕ, zero, suc, ◌+◌, ◌*◌, ◌^◌, ◌≤◌, ◌<◌, ◌≡◌, inl, inr, Option, some, arith, length, Option-cases,
  ap, ◌∙◌,
}
use csc369group.Ext2.Bitmaps.{get_free_bitmap}
use csc369group.Ext2.Disk.{block_size, Bytes, DirEntry, entry_at, put_entry, Fs, count_block_taken}
use csc369group.Ext2.Disk.Access.{entry_at-put_entry, put_entry_outside}
use csc369group.Ext2.Insert.{Placement, placed, nowhere, no_space, lost, add_block, place_loop}
use csc369group.Ext2.Tool.{take_block, take_block_uncounted}

-- A block is taken without a write to other blocks or to the inode table.
abbrev pub IsGrowth : (Fs → Option (ℕ × Fs)) → Type 0
IsGrowth grow =
    (fs fs' : Fs) (pos : ℕ)
    → grow fs ≡ some (pos, fs')
    → (fs'.disk ≡ fs.disk) × (fs'.inode_tbl ≡ fs.inode_tbl)

pub take_block-IsGrowth : IsGrowth take_block
unfolding take_block count_block_taken
take_block-IsGrowth fs fs' pos e =
    elim (Option-cases (get_free_bitmap fs.block_bitmap_copy fs.sb.s_blocks_count).0) [
      | inl n ↦ ground (arith, e, n)
      | inr (p, s) ↦ ground (arith, e, s)
    ]

pub take_block_uncounted-IsGrowth : IsGrowth take_block_uncounted
unfolding take_block_uncounted
take_block_uncounted-IsGrowth fs fs' pos e =
    elim (Option-cases (get_free_bitmap fs.bb_ptr fs.sb.s_blocks_count).0) [
      | inl n ↦ ground (arith, e, n)
      | inr (p, s) ↦ ground (arith, e, s)
    ]

-- The loop has not put the entry in place. Block 0 starts with `e`, outside of that entry no byte
-- differs from `m`, and the directory `dir` has `block` as block `j`.
abbrev pub IsMissed : (m : Bytes) (e : DirEntry) (dir j block : ℕ) → Placement → Type 0
IsMissed m e dir j block (placed fs) = ⊥
IsMissed m e dir j block (nowhere fs) =
    (entry_at fs.disk 0 ≡ e)
    × ((i : ℕ) → 8 + length e.name ≤ i → fs.disk i ≡ m i)
    × ((fs.inode_tbl dir).i_block j ≡ block)
IsMissed m e dir j block (no_space fs) =
    (entry_at fs.disk 0 ≡ e)
    × ((i : ℕ) → 8 + length e.name ≤ i → fs.disk i ≡ m i)
    × ((fs.inode_tbl dir).i_block j ≡ block)
IsMissed m e dir j block lost = ⊥

module _ (reuse : ℕ → Option ℕ → DirEntry → Bytes → Bytes) (grow : Fs → Option (ℕ × Fs))
    (growth : IsGrowth grow) (dir : ℕ) (new : DirEntry) (inode : new.inode < 2 ^ 32)
    (name : length new.name < 2 ^ 8) (m : Bytes) where
  -- The entry as it is written to block 0.
  abbrev pub stray : DirEntry
  stray = record new { rec_len = block_size }

  absent_behind :
      (j pos : ℕ) (fs : Fs)
      → ((k : ℕ) → j ≤ k → (fs.inode_tbl dir).i_block k ≡ 0)
      → (k : ℕ) → suc j ≤ k
      → ((add_block reuse grow dir j pos new fs).inode_tbl dir).i_block k ≡ 0
  unfolding add_block
  absent_behind j pos fs absent k le = ground (arith, absent k, le)

  linked :
      (j pos : ℕ) (fs : Fs)
      → ((add_block reuse grow dir j pos new fs).inode_tbl dir).i_block j ≡ pos + 1
  unfolding add_block
  linked j pos fs = ground arith

  linked_before :
      (j pos k : ℕ) (fs : Fs)
      → k < j
      → ((add_block reuse grow dir j pos new fs).inode_tbl dir).i_block k
        ≡ (fs.inode_tbl dir).i_block k
  unfolding add_block
  linked_before j pos k fs lt = ground arith

  stray_disk :
      (j pos : ℕ) (fs : Fs)
      → (fs.inode_tbl dir).i_block j ≡ 0
      → (add_block reuse grow dir j pos new fs).disk ≡ put_entry 0 stray fs.disk
  unfolding add_block
  stray_disk j pos fs none_yet = ap (λ b. put_entry (b * block_size) stray fs.disk) none_yet

  stray_written :
      (j pos : ℕ) (fs : Fs)
      → (fs.inode_tbl dir).i_block j ≡ 0
      → entry_at (add_block reuse grow dir j pos new fs).disk 0 ≡ stray
  stray_written j pos fs none_yet =
      ap (λ d. entry_at d 0) (stray_disk j pos fs none_yet)
      ∙ entry_at-put_entry 0 stray fs.disk
          (record { inode = inode; rec_len = omega arith; name = name })

  same_behind :
      (j pos : ℕ) (fs : Fs)
      → (fs.inode_tbl dir).i_block j ≡ 0
      → ((i : ℕ) → 8 + length new.name ≤ i → fs.disk i ≡ m i)
      → (i : ℕ) → 8 + length new.name ≤ i
      → (add_block reuse grow dir j pos new fs).disk i ≡ m i
  same_behind j pos fs none_yet same i le =
      ap (λ d. d i) (stray_disk j pos fs none_yet)
      ∙ put_entry_outside 0 stray fs.disk i (inr (omega arith))
      ∙ same i le

  -- The rounds after the one with the first new block, which is block `k` of the directory.
  loop_kept :
      (r j k block : ℕ) (fs : Fs)
      → k < j
      → ((i : ℕ) → j ≤ i → (fs.inode_tbl dir).i_block i ≡ 0)
      → (fs.inode_tbl dir).i_block k ≡ block
      → entry_at fs.disk 0 ≡ stray
      → ((i : ℕ) → 8 + length new.name ≤ i → fs.disk i ≡ m i)
      → IsMissed m stray dir k block (place_loop reuse grow r j dir new fs)
  unfolding place_loop
  loop_kept zero j k block fs lt absent own written same = (written, same, own)
  loop_kept (suc r) j k block fs lt absent own written same =
      rw (absent j (omega arith)) (elim (Option-cases (grow fs)) [
        | inl e ↦ rw e (written, same, own)
        | inr ((pos, fs'), e) ↦
            let kept = growth fs fs' pos e in
            let absent' : (i : ℕ) → j ≤ i → (fs'.inode_tbl dir).i_block i ≡ 0 = rw kept.1 absent in
            let none_yet = absent' j (omega arith) in
            rw e (
              loop_kept r (suc j) k block (add_block reuse grow dir j pos new fs') (omega arith)
                (absent_behind j pos fs' absent') (linked_before j pos k fs' lt ∙ (rw kept.1 own))
                (stray_written j pos fs' none_yet)
                (same_behind j pos fs' none_yet (rw kept.0 same)))
      ])

  -- A directory whose block numbers from `j` on are 0, a new entry with a name of at most 255 bytes and
  -- an inode of 32 bits, and a way to take blocks that writes neither to other blocks nor to the inode
  -- table and has a block at hand: the loop over the blocks from `j` on, of at least one round, never
  -- ends with the entry in place, whatever else is free. The directory gets the block, and yet the entry
  -- is written to the start of block 0 of the image; no other byte changes, those of the blocks that
  -- the directory gets included.
  pub place_loop-IsMissed :
      (r j pos : ℕ) (fs fs' : Fs)
      → ((k : ℕ) → j ≤ k → (fs.inode_tbl dir).i_block k ≡ 0)
      → ((i : ℕ) → fs.disk i ≡ m i)
      → grow fs ≡ some (pos, fs')
      → IsMissed m stray dir j (pos + 1) (place_loop reuse grow (suc r) j dir new fs)
  unfolding place_loop
  place_loop-IsMissed r j pos fs fs' absent same taken =
      let kept = growth fs fs' pos taken in
      let absent' : (i : ℕ) → j ≤ i → (fs'.inode_tbl dir).i_block i ≡ 0 = rw kept.1 absent in
      let none_yet = absent' j (omega arith) in
      rw (absent j (omega arith), taken)
        (loop_kept r (suc j) j (pos + 1) (add_block reuse grow dir j pos new fs') (omega arith)
          (absent_behind j pos fs' absent') (linked j pos fs') (stray_written j pos fs' none_yet)
          (same_behind j pos fs' none_yet (λ i le. rw kept.0 (same i))))
