-- ===== src/Ext2/Ln/Symlinks.antt =====
-- a3/ext2_ln.c: the inode of a symbolic link.
use csc369group.Prelude.{
  ℕ, zero, suc, ◌+◌, ◌*◌, ◌/◌, ◌%◌, ◌^◌, ◌<◌, ◌≡◌, ◌⊎◌, inl, inr, refl, Option, some, List, [], ◌∷◌,
  arith, length, get_elem?, lt→ltb, ap,
}
use csc369group.Ext2.Bitmaps.{get_free_bitmap}
use csc369group.Ext2.Disk.{Fs, less_one, count_inode_taken}
use csc369group.Ext2.Tool.{Step, ends, enametoolong}
use csc369group.Ext2.Ln.{path_words, put_path_to_blocks, create_soft_inode, byte_of}

-- The bytes of a string.
abbrev pub IsBytes : List ℕ → Type 0
IsBytes [] = Unit {0}
IsBytes (b ∷ s) = (b < 256) × IsBytes s

byte_of-IsBytes : (s : List ℕ) (k : ℕ) → IsBytes s → byte_of (get_elem? s k) < 256
byte_of-IsBytes [] k h = omega arith
byte_of-IsBytes (b ∷ s) zero h = h.0
byte_of-IsBytes (b ∷ s) (suc k) h = byte_of-IsBytes s k h.1

remainders : (k : ℕ) → (k % 4 ≡ 0) ⊎ (k % 4 ≡ 1) ⊎ (k % 4 ≡ 2) ⊎ (k % 4 ≡ 3)
remainders k = ground arith

-- The byte `k` of the area of `i_block`, whose numbers have four bytes each.
unfoldable pub area_byte : (ℕ → ℕ) → ℕ → ℕ
area_byte words k = words (k / 4) / 256 ^ (k % 4) % 256

module _ (path : List ℕ) (bytes : IsBytes path) (k : ℕ) where
  small : (j : ℕ) → byte_of (get_elem? path (4 * (k / 4) + j)) < 256
  small j = byte_of-IsBytes path (4 * (k / 4) + j) bytes

  at_rest :
      (r : ℕ) → k % 4 ≡ r → byte_of (get_elem? path k) ≡ byte_of (get_elem? path (4 * (k / 4) + r))
  at_rest r e = ap (λ i. byte_of (get_elem? path i)) (omega (arith, e))

  -- The path of a symbolic link can be read back from the area of the block numbers: each of its bytes is
  -- where a reader of the area looks for it, and 0 follows it.
  pub area_byte-path_words : area_byte (path_words path) k ≡ byte_of (get_elem? path k)
  unfolding area_byte path_words
  area_byte-path_words = elim (remainders k) [
    | inl e ↦ rw e (omega (arith, small 0, small 1, small 2, small 3, at_rest 0 e))
    | inr (inl e) ↦ rw e (omega (arith, small 0, small 1, small 2, small 3, at_rest 1 e))
    | inr (inr (inl e)) ↦ rw e (omega (arith, small 0, small 1, small 2, small 3, at_rest 2 e))
    | inr (inr (inr e)) ↦ rw e (omega (arith, small 0, small 1, small 2, small 3, at_rest 3 e))
  ]

-- The program has ended with ENAMETOOLONG. The image counts one free inode less than before, and its
-- bitmap is the one from before.
abbrev pub IsNameTooLong : (before : Fs) → Step (Option ℕ) → Type 0
IsNameTooLong before (ends status after) =
    (status ≡ enametoolong)
    × (after.sb.s_free_inodes_count ≡ less_one 32 before.sb.s_free_inodes_count)
    × (after.ib_ptr ≡ before.ib_ptr)
IsNameTooLong before _ = ⊥

-- A path of more than 60 bytes, with a free inode: the program ends with ENAMETOOLONG, and by then
-- the image counts one free inode less, while its inode bitmap is as it was.
pub create_soft_inode-IsNameTooLong :
    (now pos : ℕ) (path : List ℕ) (fs : Fs)
    → 60 < length path
    → (get_free_bitmap fs.inode_bitmap_copy fs.sb.s_inodes_count).0 ≡ some pos
    → IsNameTooLong fs (create_soft_inode now path fs)
unfolding create_soft_inode put_path_to_blocks count_inode_taken
create_soft_inode-IsNameTooLong now pos path fs long free =
    rw (create_soft_inode, free, put_path_to_blocks, lt→ltb 60 (length path) long)
      (refl, refl, refl)
