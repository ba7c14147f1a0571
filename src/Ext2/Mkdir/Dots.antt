-- ===== src/Ext2/Mkdir/Dots.antt =====
-- a3/ext2_mkdir.c: the first block of a new directory.
use csc369group.Prelude.{
  ℕ, ◌+◌, ◌*◌, ◌^◌, ◌<◌, ◌≡◌, ◌≢◌, inl, refl, List, [], ◌∷◌, arith, ap, ◌∙◌, subst,
}
use csc369group.Ext2.Bitmaps.{round_up}
use csc369group.Ext2.Disk.{block_size, Bytes, entry_at, put_entry, Fs, one_more}
use csc369group.Ext2.Disk.Access.{IsSmall, entry_at-agree, entry_at-put_entry, put_entry_outside}
use csc369group.Ext2.Path.{hit, take_entry}
use csc369group.Ext2.Insert.{metadata_size}
use csc369group.Ext2.Insert.Tiles.{Tiles, done, tile}
use csc369group.Ext2.Insert.Lookup.{first_match}
use csc369group.Ext2.Mkdir.{dot, dotdot, first_block}

-- The entry "." takes 12 bytes.
pub dot_size : metadata_size 1 ≡ 12
unfolding metadata_size round_up
dot_size = refl

module _ (par_i new_i b : ℕ) (fs : Fs) (par : par_i + 1 < 2 ^ 32) (new : new_i + 1 < 2 ^ 32) where
  abbrev base : ℕ
  base = (b + 1) * block_size

  abbrev pub after : Fs
  after = first_block par_i new_i b fs

  abbrev pub one_entry : Bytes
  one_entry = put_entry base (dot new_i) fs.disk

  pub disk_after : after.disk ≡ put_entry (base + metadata_size 1) (dotdot par_i) one_entry
  unfolding first_block
  disk_after = refl

  dot-IsSmall : IsSmall (dot new_i)
  dot-IsSmall = record { inode = new; rec_len = omega (arith, dot_size); name = omega arith }

  dotdot-IsSmall : IsSmall (dotdot par_i)
  dotdot-IsSmall = record { inode = par; rec_len = omega (arith, dot_size); name = omega arith }

  dot_at : entry_at (put_entry (base + metadata_size 1) (dotdot par_i) one_entry) base ≡ dot new_i
  dot_at =
      let written = entry_at-put_entry base (dot new_i) fs.disk dot-IsSmall in
      entry_at-agree base one_entry (put_entry (base + metadata_size 1) (dotdot par_i) one_entry)
        (λ i lo hi.
          put_entry_outside (base + metadata_size 1) (dotdot par_i) one_entry i
            (inl (ground (arith, hi, written, dot_size))))
      ∙ written

  pub first_block-Tiles : Tiles after.disk base 0 (dot new_i ∷ dotdot par_i ∷ [])
  first_block-Tiles = rw disk_after (
      tile (ap (entry_at _) (omega arith) ∙ dot_at) dot-IsSmall (omega (arith, dot_size))
        (omega (arith, dot_size))
        (tile
          (ap (entry_at _) (omega arith)
            ∙ entry_at-put_entry (base + metadata_size 1) (dotdot par_i) one_entry dotdot-IsSmall)
          dotdot-IsSmall (omega (arith, dot_size)) (omega (arith, dot_size))
          (subst
            (λ o. Tiles (put_entry (base + metadata_size 1) (dotdot par_i) one_entry) base o [])
            (omega (arith, dot_size)) done)))

  pub par_links :
      new_i ≢ par_i
      → (after.inode_tbl par_i).i_links_count ≡ one_more 16 (fs.inode_tbl par_i).i_links_count
  unfolding first_block
  par_links differ = ground (arith, differ)

  pub first_match-dots :
      (abs_path : List ℕ)
      → (first_match (b'.' ∷ []) abs_path (dot new_i ∷ dotdot par_i ∷ []) ≡ hit new_i)
        × (first_match (b'.' ∷ b'.' ∷ []) abs_path (dot new_i ∷ dotdot par_i ∷ []) ≡ hit par_i)
  unfolding first_match take_entry
  first_match-dots abs_path = (ap hit (omega (arith, new)), ap hit (omega (arith, par)))
