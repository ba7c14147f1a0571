-- ===== src/Ext2/Rm/Freed.antt =====
-- a3/ext2_rm.c: the bits that are cleared for the blocks of a file.
use csc369group.Prelude.{
  ℕ, zero, suc, ◌≡◌, inl, inr, refl, Bool, true, false, not, ◌&&◌, ◌||◌, ap, ◌∙◌, ◌==◌, Bool-cases,
}
use csc369group.Ext2.Bitmaps.{in_use}
use csc369group.Ext2.Bitmaps.Alloc.{in_use-freed}
use csc369group.Ext2.Disk.{Inode, Fs, count_block_freed}
use csc369group.Ext2.Rm.{free_block, free_blocks}

-- `j` is one of the block numbers from `b` on, and is not 0.
unfoldable pub has_block : (rounds b : ℕ) → Inode → (j : ℕ) → Bool
has_block zero b i j = false
has_block (suc r) b i j = (not (i.i_block b == 0) && j == i.i_block b) || has_block r (suc b) i j

in_use-free_block :
    (is_dir : Bool) (block j : ℕ) (fs : Fs)
    → in_use (free_block block is_dir fs).block_bitmap_copy j
      ≡ (not (j == block) && in_use fs.block_bitmap_copy j)
unfolding free_block count_block_freed
in_use-free_block is_dir block j fs = in_use-freed fs.block_bitmap_copy block j

neither : (x y u : Bool) → (not y && (not x && u)) ≡ (not (x || y) && u)
neither true true u = refl
neither true false u = refl
neither false true u = refl
neither false false u = refl

-- The loop over the blocks of a removed file or directory, from block `b` on, clears in the bitmap
-- the bits at the positions that are the inode's block numbers from `b` on, but 0, and no others.
pub free_blocks-in_use :
    (is_dir : Bool) (i : Inode) (j r b : ℕ) (fs : Fs)
    → in_use (free_blocks r b is_dir i fs).block_bitmap_copy j
      ≡ (not (has_block r b i j) && in_use fs.block_bitmap_copy j)
unfolding free_blocks has_block
free_blocks-in_use is_dir i j zero b fs = refl
free_blocks-in_use is_dir i j (suc r) b fs = elim (Bool-cases (i.i_block b == 0)) [
  | inl absent ↦ rw absent (free_blocks-in_use is_dir i j r (suc b) fs)
  | inr present ↦
      let more = has_block r (suc b) i j in
      rw present (
        free_blocks-in_use is_dir i j r (suc b) (free_block (i.i_block b) is_dir fs)
        ∙ ap (λ u. not more && u) (in_use-free_block is_dir (i.i_block b) j fs)
        ∙ neither (j == i.i_block b) more (in_use fs.block_bitmap_copy j))
]
