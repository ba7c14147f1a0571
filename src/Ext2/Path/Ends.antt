-- ===== src/Ext2/Path/Ends.antt =====
-- a3/ext2_util.c: `get_inode_from_path` ends for every path.
use csc369group.Prelude.{
  ℕ, zero, suc, ◌+◌, ◌-◌, ◌%◌, ◌<◌, ◌≡◌, refl, arith, Bool-cases, Bool, true, false, List, [], ◌∷◌,
  if◌then◌else◌, ◌==◌, inl, inr, Option, none, some, sym, subst,
}
use csc369group.Bits.{bit}
use csc369group.Ext2.Disk.{DirEntry, Inode}
use csc369group.Ext2.Path.{
  Image, Lookup, hit, missing, file_in_path, crash, endless, after_first, starts_with_slash,
  or_else, ft_dir, take_entry, check_entries_for_path, indirect_loop, blocks_loop, find_token,
  tokens, tokens_loop, get_inode_from_path,
}
use csc369group.Ext2.Path.Entries.{IsLinked, IsFound, check_entries-IsFound}

-- The lookup has ended.
abbrev pub IsEnd : Lookup → Type 0
IsEnd endless = ⊥
IsEnd _ = Unit {0}

IsEnd-if : (b : Bool) (x y : Lookup) → IsEnd x → IsEnd y → IsEnd (if b then x else y)
IsEnd-if true x y p q = p
IsEnd-if false x y p q = q

IsEnd-or_else : (x y : Lookup) → IsEnd x → IsEnd y → IsEnd (or_else x y)
IsEnd-or_else missing y p q = q
IsEnd-or_else (hit i) y p q = tt
IsEnd-or_else file_in_path y p q = tt
IsEnd-or_else crash y p q = tt
IsEnd-or_else endless y p q = elim p [ ]

IsEnd-take_entry : (token abs_path : List ℕ) (de : DirEntry) → IsEnd (take_entry token abs_path de)
unfolding take_entry
IsEnd-take_entry token abs_path de =
    IsEnd-if (de.file_type == ft_dir) _ _ tt (file (after_first token abs_path))
  where
    file :
        (o : Option (List ℕ))
        → IsEnd (elim o [
          | none ↦ crash
          | some rest ↦
              if starts_with_slash rest
              then file_in_path
              else hit ((de.inode + 4294967296 - 1) % 4294967296)
        ])
    file none = tt
    file (some rest) = IsEnd-if (starts_with_slash rest) _ _ tt tt

IsEnd-unless :
    (b : Bool) (x y : Lookup) → IsEnd x → (b ≡ false → IsEnd y) → IsEnd (if b then x else y)
IsEnd-unless true x y p q = p
IsEnd-unless false x y p q = q refl

-- The blocks of a directory that a lookup walks over: the direct ones, and those in the block of single
-- indirect pointers, which is read from block 0 where the directory has none.
pub record IsWalkable (d : Image) (i : Inode) : Type 0 where
  pub direct : (b : ℕ) → b < 12 → (i.i_block b == 0) ≡ false → IsLinked d (i.i_block b) 0
  pub indirect :
      (s : ℕ)
      → s < 256
      → (d.pointer (i.i_block 12) s == 0) ≡ false
      → IsLinked d (d.pointer (i.i_block 12) s) 0

module _ (d : Image) (abs_path : List ℕ) where
  IsEnd-check :
      (block : ℕ) (token : List ℕ)
      → IsLinked d block 0
      → IsEnd (check_entries_for_path block token abs_path d)
  unfolding IsFound
  IsEnd-check block token linked = elim (check_entries-IsFound d block token abs_path linked) [
    | inl (o, c, lt, same, e) ↦
        subst IsEnd (sym e) (IsEnd-take_entry token abs_path (d.entry block o))
    | inr (e, absent) ↦ subst IsEnd (sym e) tt
  ]

  IsEnd-indirect_loop :
      (r s block : ℕ) (token : List ℕ)
      → r + s ≡ 256
      → ((k : ℕ) → k < 256 → (d.pointer block k == 0) ≡ false → IsLinked d (d.pointer block k) 0)
      → IsEnd (indirect_loop r s block token abs_path d)
  unfolding indirect_loop
  IsEnd-indirect_loop zero s block token n linked = tt
  IsEnd-indirect_loop (suc r) s block token n linked =
      let rest = IsEnd-indirect_loop r (suc s) block token (omega (arith, n)) linked in
      IsEnd-unless (d.pointer block s == 0) _ _ rest λ used.
        IsEnd-or_else _ _ (IsEnd-check (d.pointer block s) token (linked s (omega (arith, n)) used))
          rest

  IsEnd-blocks_loop :
      (r b : ℕ) (token : List ℕ) (i : Inode)
      → r + b ≡ 12
      → IsWalkable d i
      → IsEnd (blocks_loop r b token abs_path d i)
  unfolding blocks_loop
  IsEnd-blocks_loop zero b token i n w =
      let last : b ≡ 12 = omega (arith, n) in
      subst (λ k. IsEnd (indirect_loop 256 0 (i.i_block k) token abs_path d)) (sym last)
        (IsEnd-indirect_loop 256 0 (i.i_block 12) token (omega arith) w.indirect)
  IsEnd-blocks_loop (suc r) b token i n w =
      let rest = IsEnd-blocks_loop r (suc b) token i (omega (arith, n)) w in
      IsEnd-unless (i.i_block b == 0) _ _ rest λ used.
        IsEnd-or_else _ _ (IsEnd-check (i.i_block b) token (w.direct b (omega (arith, n)) used))
          rest

module _ (d : Image) (abs_path : List ℕ)
    (walkable : (n : ℕ) → bit 14 (d.inode_tbl n).i_mode ≡ true → IsWalkable d (d.inode_tbl n)) where
  IsEnd-find_token : (t : List ℕ) (inode_ind : ℕ) → IsEnd (find_token t abs_path d inode_ind)
  unfolding find_token
  IsEnd-find_token t inode_ind = elim (Bool-cases (bit 14 (d.inode_tbl inode_ind).i_mode)) [
    | inr other ↦ rw other tt
    | inl directory ↦ rw directory (
        IsEnd-blocks_loop d abs_path 12 0 t (d.inode_tbl inode_ind) (omega arith)
          (walkable inode_ind directory))
  ]

  IsEnd-tokens_loop :
      (ts : List (List ℕ)) (inode_ind : ℕ) → IsEnd (tokens_loop ts abs_path d inode_ind)
  unfolding tokens_loop
  IsEnd-tokens_loop [] inode_ind = tt
  IsEnd-tokens_loop (t ∷ ts) inode_ind =
      onward (λ next. IsEnd-tokens_loop ts next) (find_token t abs_path d inode_ind)
        (IsEnd-find_token t inode_ind)
    where
      onward :
          ((next : ℕ) → IsEnd (tokens_loop ts abs_path d next))
          → (r : Lookup) → IsEnd r
          → IsEnd (elim r [ hit next ↦ tokens_loop ts abs_path d next | other ↦ other ])
      onward h (hit next) p = h next
      onward h missing p = tt
      onward h file_in_path p = tt
      onward h crash p = tt
      onward h endless p = elim p [ ]

  -- On an image in which every directory entry has a length that a walk comes to from the start of a
  -- block of a directory (a direct block that is not 0, or one that its block of single indirect
  -- pointers names), `get_inode_from_path` ends for every path: no walk stays at an entry.
  pub get_inode-IsEnd : IsEnd (get_inode_from_path abs_path d)
  unfolding get_inode_from_path
  get_inode-IsEnd = IsEnd-tokens_loop (tokens [] abs_path) 1
