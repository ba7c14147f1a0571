-- ===== src/Ext2/Insert/Search.antt =====
-- a3: the search for room in a block, and the entry that is written there, against the insertion into a
-- list of entries.
use mathlib.Core.List.{Memᴰ}
use mathlib.Core.List.Memᴰ.{head, tail}
use csc369group.Prelude.{
  ℕ, zero, suc, ◌+◌, ◌-◌, ◌^◌, ◌≤◌, ◌<◌, ◌≡◌, ◌⊎◌, inl, inr, refl, true, false, Option, none, some,
  List, ◌∷◌, arith, length, ltb, Bool-cases, ap, sym, ◌∙◌, subst,
}
use csc369group.Ext2.Disk.{Bytes, DirEntry, entry_at}
use csc369group.Ext2.Disk.Access.{IsSmall, entry_at-agree}
use csc369group.Ext2.Insert.{metadata_size, Slot, found_at, full, slot_loop, split_entry}
use csc369group.Ext2.Insert.Tiles.{
  Tiles, done, tile, has_room, insert_behind, cut, cut_outside, split-Tiles,
}

-- A search from offset `s` on ends as the insertion into the list `es` does. Where it finds an entry, the
-- block with that entry split has the list with the new one, and no byte of another block or of the part
-- before `s` has changed.
pub data Searched (m : Bytes) (base s : ℕ) (new : DirEntry) (es : List DirEntry)
    : Slot → Type 0 where
  no_room : insert_behind new es ≡ none → Searched m base s new es full
  room :
      {curr_de : ℕ} {prev_de : Option ℕ} {es' : List DirEntry}
      → insert_behind new es ≡ some es'
      → Tiles (split_entry curr_de new m) base s es'
      → ((i : ℕ) → (i < base + s) ⊎ (base + 1024 ≤ i) → split_entry curr_de new m i ≡ m i)
      → Memᴰ (entry_at m curr_de) es
      → Searched m base s new es (found_at curr_de prev_de)

-- An entry without room in front changes the search as it changes the insertion.
pass :
    {m : Bytes} {base s : ℕ} {new e : DirEntry} {es : List DirEntry} (slot : Slot)
    → has_room (length new.name) e ≡ false
    → entry_at m (base + s) ≡ e
    → IsSmall e
    → 8 + length e.name ≤ e.rec_len
    → s + e.rec_len ≤ 1024
    → Searched m base (s + e.rec_len) new es slot
    → Searched m base s new (e ∷ es) slot
unfolding insert_behind
pass slot tight at small fits inside (no_room none_behind) = no_room (rw (tight, none_behind) refl)
pass {m} {base} {s} {new} {e} slot tight at small fits inside
      (room {curr_de} {prev_de} {es'} behind tiles same mem) =
    room (rw (tight, behind) refl)
      (tile
        (entry_at-agree (base + s) m (split_entry curr_de new m)
            (λ i lo hi. same i (inl (ground (arith, at, hi, fits))))
          ∙ at)
        small fits inside tiles)
      (λ i outside. same i (omega (arith, outside))) (tail mem)

module _ (m : Bytes) (base : ℕ) (new : DirEntry) (inode : new.inode < 2 ^ 32)
    (name : length new.name < 2 ^ 8) where
  split-cut :
      (s : ℕ) (e : DirEntry)
      → entry_at m (base + s) ≡ e
      → split_entry (base + s) new m ≡ cut m base s e new
  unfolding split_entry
  split-cut s e at = rw at refl

  found :
      {s : ℕ} {e : DirEntry} {es : List DirEntry} (prev_de : Option ℕ)
      → has_room (length new.name) e ≡ true
      → entry_at m (base + s) ≡ e
      → IsSmall e
      → s + e.rec_len ≤ 1024
      → Tiles m base (s + e.rec_len) es
      → Searched m base s new (e ∷ es) (found_at (base + s) prev_de)
  unfolding insert_behind
  found {s} {e} {es} prev_de wide at small inside rest =
      let split = split-cut s e at in
      room (rw wide refl)
        (subst
          (λ w. Tiles w base s (
            record e { rec_len = metadata_size (length e.name) }
            ∷ record new { rec_len = e.rec_len - metadata_size (length e.name) }
            ∷ es))
          (sym split) (split-Tiles m base s e new at small inside inode name wide rest))
        (λ i outside.
          ap (λ w. w i) split
          ∙ cut_outside m base s e new at small inside inode name wide i
              (omega (arith, outside, inside)))
        (head at)

  slot_loop-Searched :
      (fuel s : ℕ) (prev_de : Option ℕ) {es : List DirEntry}
      → 1 ≤ fuel
      → 1025 ≤ fuel + s
      → Tiles m base s es
      → Searched m base s new es (slot_loop fuel s base prev_de (length new.name) m)
  unfolding slot_loop has_room
  slot_loop-Searched zero s prev_de some_fuel enough tiles = absurd (omega arith)
  slot_loop-Searched (suc fuel) _ prev_de some_fuel enough done =
      no_room (unfold insert_behind in refl)
  slot_loop-Searched (suc fuel) s prev_de some_fuel enough
        (tile {e = e} {es = es} at small fits inside rest) =
      let lt : ltb s 1024 ≡ true = ground (arith, fits, inside) in
      elim (Bool-cases (has_room (length new.name) e)) [
        | inl wide ↦ rw (lt, at, wide) (found prev_de wide at small inside rest)
        | inr tight ↦
            rw (lt, at, tight)
              (pass (slot_loop fuel (s + e.rec_len) base (some (base + s)) (length new.name) m)
                tight at small fits inside
                (slot_loop-Searched fuel (s + e.rec_len) (some (base + s)) (omega arith)
                  (omega arith) rest))
      ]

  -- In a block whose entries follow one another up to its end, the search for room for an entry ends,
  -- where the entry has a name of at most 255 bytes and an inode of 32 bits. It finds room exactly
  -- where the insertion into the list of the entries does. Where it finds room, the split of the entry
  -- found gives the block that has the list with the new entry, it touches no byte outside of the
  -- block, and the entry that is split is one of the block's own.
  pub search-Searched :
      {es : List DirEntry} (prev_de : Option ℕ)
      → Tiles m base 0 es
      → Searched m base 0 new es (slot_loop 1025 0 base prev_de (length new.name) m)
  search-Searched prev_de tiles =
      slot_loop-Searched 1025 0 prev_de (omega arith) (omega arith) tiles
