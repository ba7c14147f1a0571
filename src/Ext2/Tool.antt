-- ===== src/Ext2/Tool.antt =====
-- a3: what the tools share. A tool runs on the globals, which are an image mapped into memory with
-- MAP_SHARED, so that what was written before an `exit` is on the image too.
use csc369group.Prelude.{
  ℕ, ◌-◌, ◌/◌, ◌^◌, Option, none, some, List, [], ◌∷◌, ◌++◌, if◌then◌else◌, ltb, ◌==◌,
}
use csc369group.Ext2.Bitmaps.{get_free_bitmap}
use csc369group.Ext2.Disk.{Fs, copied, count_block_taken}
use csc369group.Ext2.Path.{hit, missing, file_in_path, crash, endless, get_inode_from_path, view}

-- How a function of a tool ends: it returns; the program ends, by `exit` or the end of main, with a
-- status; it accesses memory outside of its objects; or it does not end.
pub data Step (A : Type 0) : Type 0 where
  goes : A → Fs → Step A
  ends : (status : ℕ) → Fs → Step A
  astray stuck : Step A

abbrev pub Tool : Type 0 → Type 0
Tool A = Fs → Step A

infixl 5 ◌>>=◌ ◌>>◌
abbrev pub ◌>>=◌ : {A B : Type 0} → Tool A → (A → Tool B) → Tool B
(m >>= f) fs = elim (m fs) [
  | goes a fs' ↦ f a fs'
  | ends status fs' ↦ ends status fs'
  | astray ↦ astray
  | stuck ↦ stuck
]

abbrev pub ◌>>◌ : {B : Type 0} → Tool (Unit {0}) → Tool B → Tool B
m >> n = m >>= λ _. n

-- errno.h
abbrev pub eperm : ℕ
eperm = 1

abbrev pub enoent : ℕ
enoent = 2

abbrev pub eexist : ℕ
eexist = 17

abbrev pub eisdir : ℕ
eisdir = 21

abbrev pub enospc : ℕ
enospc = 28

abbrev pub enametoolong : ℕ
enametoolong = 36

-- The result of `get_inode_from_path` as the tools test it: at least 0, -1, or another negative number.
-- Entries with an inode of 0 or of 2^31 + 1 and more give a negative `int`.
pub data Answer : Type 0 where
  index : (inode_ind : ℕ) → Answer
  minus_one below : Answer

unfoldable pub look_up : (path : List ℕ) → Tool Answer
unfolding get_inode_from_path
look_up path fs = elim (get_inode_from_path path (view fs)) [
  | hit i ↦
      goes (if ltb i (2 ^ 31) then index i else if i == 2 ^ 32 - 1 then minus_one else below) fs
  | missing ↦ goes below fs
  | file_in_path ↦ goes minus_one fs
  | crash ↦ astray
  | endless ↦ stuck
]

-- A string's bytes up to its 0, and in the other order.
unfoldable pub c_string : List ℕ → List ℕ
c_string [] = []
c_string (b ∷ s) = let rest = b ∷ c_string s in if b == 0 then [] else rest

abbrev pub turned : (done s : List ℕ) → List ℕ
turned done [] = done
turned done (b ∷ s) = turned (b ∷ done) s

abbrev drop_slashes : List ℕ → List ℕ
drop_slashes [] = []
drop_slashes (b ∷ s) = let rest = drop_slashes s in if b == b'/' then rest else b ∷ s

abbrev drop_name : List ℕ → List ℕ
drop_name [] = []
drop_name (b ∷ s) = let rest = drop_name s in if b == b'/' then b ∷ s else rest

abbrev take_name : List ℕ → List ℕ
take_name [] = []
take_name (b ∷ s) = let rest = b ∷ take_name s in if b == b'/' then [] else rest

abbrev or_root : List ℕ → List ℕ
or_root [] = b'/' ∷ []
or_root (b ∷ s) = turned [] (b ∷ s)

-- libgen.h, for a path that starts with '/'. The functions may write to their argument or return
-- storage of their own; the tools rely on the second, and so does this.
abbrev pub basename : List ℕ → List ℕ
basename path = or_root (take_name (drop_slashes (turned [] path)))

abbrev pub dirname : List ℕ → List ℕ
dirname path = or_root (drop_slashes (drop_name (drop_slashes (turned [] path))))

unfoldable pub concat_to_path : (link_path fname_src : List ℕ) → List ℕ
concat_to_path link_path fname_src = link_path ++ b'/' ∷ fname_src

-- A free block by the copy of the bitmap, with the counts, and one by the bitmap itself, without.
unfoldable pub take_block : Fs → Option (ℕ × Fs)
unfolding get_free_bitmap count_block_taken
take_block fs =
    let found = get_free_bitmap fs.block_bitmap_copy fs.sb.s_blocks_count in
    elim found.0 [
      | none ↦ none
      | some pos ↦ some (pos, count_block_taken (record fs { block_bitmap_copy = found.1 }))
    ]

unfoldable pub take_block_uncounted : Fs → Option (ℕ × Fs)
unfolding get_free_bitmap
take_block_uncounted fs =
    let found = get_free_bitmap fs.bb_ptr fs.sb.s_blocks_count in
    elim found.0 [ none ↦ none | some pos ↦ some (pos, record fs { bb_ptr = found.1 }) ]

-- The two loops at the start of a tool, and the two at its end, with which the copies become the bitmaps.
unfoldable pub copy_bitmaps : Fs → Fs
copy_bitmaps fs = record fs {
  block_bitmap_copy = copied (fs.sb.s_blocks_count / 8) fs.bb_ptr fs.block_bitmap_copy;
  inode_bitmap_copy = copied (fs.sb.s_inodes_count / 8) fs.ib_ptr fs.inode_bitmap_copy;
}

unfoldable pub write_bitmaps : Fs → Fs
write_bitmaps fs = record fs {
  bb_ptr = copied (fs.sb.s_blocks_count / 8) fs.block_bitmap_copy fs.bb_ptr;
  ib_ptr = copied (fs.sb.s_inodes_count / 8) fs.inode_bitmap_copy fs.ib_ptr;
}
