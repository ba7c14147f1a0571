-- ===== src/Ext2/Insert/Tiles.antt =====
-- a3: a block of directory entries as a list, and the search for a place in it.
use csc369group.Prelude.{
  ℕ, ◌+◌, ◌-◌, ◌^◌, ◌≤◌, ◌<◌, ◌≡◌, ◌⊎◌, inl, inr, refl, Bool, true, Option, none, some, List, [],
  ◌∷◌, arith, length, if◌then◌else◌, leb, ap, sym, ◌∙◌, subst,
}
use mathlib.Core.Option
use csc369group.Ext2.Bitmaps.Alloc.{round_up-least}
use csc369group.Ext2.Disk.{Bytes, DirEntry, entry_at, set_rec_len, put_entry}
use csc369group.Ext2.Disk.Access.{
  IsSmall, entry_at-agree, entry_at-put_entry, entry_at-set_rec_len, put_entry_outside,
  set_rec_len_outside,
}
use csc369group.Ext2.Insert.{metadata_size}

-- The entries `es` stand one behind the other from offset `s` of the block at `base`, each in its own
-- length, and end with the block.
pub data Tiles (m : Bytes) (base : ℕ) : ℕ → List DirEntry → Type 0 where
  done : Tiles m base 1024 []
  tile :
      {s : ℕ} {e : DirEntry} {es : List DirEntry}
      → entry_at m (base + s) ≡ e
      → IsSmall e
      → 8 + length e.name ≤ e.rec_len
      → s + e.rec_len ≤ 1024
      → Tiles m base (s + e.rec_len) es
      → Tiles m base s (e ∷ es)

pub Tiles-le : {m : Bytes} {base s : ℕ} {es : List DirEntry} → Tiles m base s es → s ≤ 1024
Tiles-le done = omega arith
Tiles-le (tile here small fits inside rest) = omega arith

pub Tiles-nil : {m : Bytes} {base s : ℕ} → Tiles m base s [] → s ≡ 1024
Tiles-nil done = refl

pub Tiles-first :
    {m : Bytes} {base s : ℕ} {e : DirEntry} {es : List DirEntry}
    → Tiles m base s (e ∷ es)
    → (entry_at m (base + s) ≡ e) × (s + e.rec_len ≤ 1024) × Tiles m base (s + e.rec_len) es
Tiles-first (tile here small fits inside rest) = (here, inside, rest)

pub Tiles-moves :
    {m : Bytes} {base s : ℕ} {e : DirEntry} {es : List DirEntry}
    → Tiles m base s (e ∷ es)
    → 8 ≤ e.rec_len
Tiles-moves (tile here small fits inside rest) = omega (arith, fits)

-- Bytes before `s` do not matter.
pub Tiles-agree :
    {m : Bytes} {base s : ℕ} {es : List DirEntry} (m' : Bytes)
    → ((i : ℕ) → base + s ≤ i → i < base + 1024 → m' i ≡ m i)
    → Tiles m base s es
    → Tiles m' base s es
Tiles-agree m' same done = done
Tiles-agree {m} {base} {s} m' same (tile {e} here small fits inside rest) =
    tile
      (entry_at-agree (base + s) m m'
          (λ i lo hi. same i lo (ground (arith, here, fits, inside, hi)))
        ∙ here)
      small fits inside (Tiles-agree m' (λ i lo hi. same i (omega arith) hi) rest)

-- The abstract insertion: the first entry with room is cut to what it needs, and the new one follows it
-- with the rest of its length.
unfoldable pub has_room : (len : ℕ) → DirEntry → Bool
has_room len e = leb (8 + len + metadata_size (length e.name)) e.rec_len

unfoldable pub insert_behind : DirEntry → List DirEntry → Option (List DirEntry)
unfolding has_room
insert_behind new [] = none
insert_behind new (e ∷ es) =
    let size = metadata_size (length e.name) in
    if has_room (length new.name) e
    then some (record e { rec_len = size } ∷ record new { rec_len = e.rec_len - size } ∷ es)
    else Option.map (λ l. e ∷ l) (insert_behind new es)

pub metadata_size_bounds :
    (n : ℕ) → n < 256 → (8 + n ≤ metadata_size n) × (metadata_size n < 12 + n)
unfolding metadata_size
metadata_size_bounds n h =
    let r = round_up-least (8 + n) 4 (omega arith) (omega arith) in (r.1, omega (arith, r.2))

-- The entry at the found address is cut in two.
module _ (m : Bytes) (base s : ℕ) (e new : DirEntry) where
  abbrev size : ℕ
  size = metadata_size (length e.name)

  abbrev second : DirEntry
  second = record new { rec_len = e.rec_len - size }

  abbrev written : Bytes
  written = put_entry (base + s + size) second m

  abbrev pub cut : Bytes
  cut = set_rec_len (base + s) size written

  module _ (here : entry_at m (base + s) ≡ e) (small : IsSmall e) (inside : s + e.rec_len ≤ 1024)
      (inode : new.inode < 2 ^ 32) (name : length new.name < 2 ^ 8)
      (room : has_room (length new.name) e ≡ true) where
    enough : 8 + length new.name + size ≤ e.rec_len
    unfolding has_room
    enough = ground (arith, room)

    covers : 8 + length e.name ≤ size
    covers = (metadata_size_bounds (length e.name) small.name).0

    pub cut_outside : (i : ℕ) → (i < base + s) ⊎ (base + s + e.rec_len ≤ i) → cut i ≡ m i
    cut_outside i (inl h) =
        set_rec_len_outside (base + s) size written i (inl (omega arith))
        ∙ put_entry_outside (base + s + size) second m i (inl (omega arith))
    cut_outside i (inr h) =
        set_rec_len_outside (base + s) size written i (inr (omega (arith, enough, covers)))
        ∙ put_entry_outside (base + s + size) second m i (inr (omega (arith, enough)))

    first-cut : entry_at cut (base + s) ≡ record e { rec_len = size }
    first-cut =
        entry_at-set_rec_len (base + s) size written (omega (arith, enough, small.rec_len))
        ∙ ap {A = DirEntry} (λ (d : DirEntry). record d { rec_len = size })
            (entry_at-agree (base + s) m written (λ i lo hi.
                put_entry_outside (base + s + size) second m i
                  (inl (ground (arith, here, hi, covers))))
              ∙ here)

    second-IsSmall : IsSmall second
    second-IsSmall = record { inode = inode; rec_len = omega (arith, small.rec_len); name = name }

    second-cut : entry_at cut (base + s + size) ≡ second
    second-cut =
        entry_at-agree (base + s + size) written cut
          (λ i lo hi. set_rec_len_outside (base + s) size written i (inr (omega (arith, covers))))
        ∙ entry_at-put_entry (base + s + size) second m second-IsSmall

    pub split-Tiles :
        {es : List DirEntry}
        → Tiles m base (s + e.rec_len) es
        → Tiles cut base s (record e { rec_len = size } ∷ second ∷ es)
    split-Tiles {es} rest =
        let behind : s + size + (e.rec_len - size) ≡ s + e.rec_len = omega (arith, enough) in
        tile first-cut
          (record {
            inode = small.inode;
            rec_len = omega (arith, enough, small.rec_len);
            name = small.name;
          })
          covers (omega (arith, enough))
          (tile (subst (λ a. entry_at cut a ≡ second) (omega arith) second-cut) second-IsSmall
            (omega (arith, enough)) (omega (arith, enough))
            (subst (λ o. Tiles cut base o es) (sym behind)
              (Tiles-agree cut (λ i lo hi. cut_outside i (inr (omega arith))) rest)))
