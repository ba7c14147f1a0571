-- ===== src/Examples/Ext2.antt =====
-- a3/ext2_util.c at concrete inputs: an image whose root directory has the file `a` and the directory
-- `b`.
use csc369group.Prelude.{
  ℕ, ◌+◌, ◌*◌, ◌<◌, ◌≡◌, refl, true, ◌&&◌, some, [], ◌∷◌, arith, if◌then◌else◌, ◌==◌, update,
  Bool-cases, inl, inr, sym, subst,
}
use csc369group.Bits.{bit, set_bit}
use csc369group.Ext2.Bitmaps.{get_free_bitmap}
use csc369group.Ext2.Bitmaps.Alloc.{IsLowest, get_free_bitmap-IsLowest}
use csc369group.Bits.Laws.{bit-zero}
use csc369group.Ext2.Disk.{zeroed, u32, Inode, Fs}
use csc369group.Ext2.Path.{
  Image, view, hit, file_in_path, check_entries_for_path, get_inode_from_path,
}
use csc369group.Ext2.Path.Entries.{IsLinked}
use csc369group.Ext2.Path.Ends.{IsEnd, IsWalkable, get_inode-IsEnd}
use csc369group.Ext2.Insert.Lookup.{Tiles-IsLinked}
use csc369group.Examples.Dirs.{made, made-Tiles, made_elsewhere}

-- Positions 0 to 2 are taken.
abbrev taken : ℕ → ℕ
taken ix = if ix == 0 then 7 else 0

get_free_example : IsLowest taken 0 16 (get_free_bitmap taken 16)
get_free_example = get_free_bitmap-IsLowest taken 16

third : get_free_bitmap taken 16 ≡ (some 3, update taken 0 15)
unfolding get_free_bitmap bit set_bit
third = refl

-- Block 9 is the root's: `a` at 0, `b` at 12 up to the end. All other blocks have one empty entry.
abbrev image : Image
image = record {
  inode_tbl = λ n. record zeroed {
    i_mode = if n == 1 then 0x4000 else 0;
    i_block = λ b. if b == 0 then 9 else 0;
  };
  entry = λ block offset.
      if block == 9 && offset == 0
      then record { inode = 12; rec_len = 12; file_type = 1; name = b'a' ∷ [] }
      else if block == 9 && offset == 12
      then record { inode = 13; rec_len = 1012; file_type = 2; name = b'b' ∷ [] }
      else record { inode = 0; rec_len = 1024; file_type = 0; name = [] };
  pointer = λ block index. 0;
}

-- "/b" is found, and "/a/b" uses a file as a directory.
get_inode-runs :
    (get_inode_from_path (b'/' ∷ b'b' ∷ []) image ≡ hit 12)
    × (get_inode_from_path (b'/' ∷ b'a' ∷ b'/' ∷ b'b' ∷ []) image ≡ file_in_path)
unfolding get_inode_from_path bit check_entries_for_path
get_inode-runs = (refl, refl)

-- The bytes of an image whose root has block 9, with "." and "..".
abbrev root : Inode
root = record zeroed { i_mode = 0x4000; i_block = λ b. if b == 0 then 9 else 0 }

abbrev rooted : Fs
rooted = record made { inode_tbl = λ n. if n == 1 then root else zeroed }

no_pointer : (s : ℕ) → s < 256 → u32 rooted.disk (4 * s) ≡ 0
unfolding u32
no_pointer s lt =
    let clear : (i : ℕ) → i < 1024 → made.disk i ≡ 0 = λ i low. made_elsewhere i (omega arith) in
    omega (
      arith,
      clear (4 * s) (omega arith),
      clear (4 * s + 1) (omega arith),
      clear (4 * s + 2) (omega arith),
      clear (4 * s + 3) (omega arith),
    )

root-IsWalkable : IsWalkable (view rooted) root
root-IsWalkable = record {
  direct = λ b lt used.
      let first : b ≡ 0 = ground (arith, used) in
      subst (λ k. IsLinked (view rooted) (root.i_block k) 0) (sym first)
        (Tiles-IsLinked rooted 9 0 made-Tiles);
  indirect = λ s lt used. absurd (ground (arith, no_pointer s lt, used));
}

rooted-IsWalkable :
    (n : ℕ)
    → bit 14 (rooted.inode_tbl n).i_mode ≡ true
    → IsWalkable (view rooted) (rooted.inode_tbl n)
rooted-IsWalkable n h = elim (Bool-cases (n == 1)) [
  | inl here ↦ rw here root-IsWalkable
  | inr other ↦ absurd (ground (arith, other, h, bit-zero 14))
]

-- "/./x" leads through the root's own entry.
path_example : IsEnd (get_inode_from_path (b'/' ∷ b'.' ∷ b'/' ∷ b'x' ∷ []) (view rooted))
path_example = get_inode-IsEnd (view rooted) (b'/' ∷ b'.' ∷ b'/' ∷ b'x' ∷ []) rooted-IsWalkable
