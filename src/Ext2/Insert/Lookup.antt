-- ===== src/Ext2/Insert/Lookup.antt =====
-- a3: an entry that was put into a block is what a lookup of its name finds (ext2_util.c).
use mathlib.Core.Option
use mathlib.Core.List.{Memᴰ}
use mathlib.Core.List.Memᴰ.{head, tail}
use csc369group.Prelude.{
  ℕ, zero, suc, ◌+◌, ◌*◌, ◌^◌, ◌≤◌, ◌<◌, ◌≡◌, inl, inr, refl, true, false, Option, none, some, List,
  [], ◌∷◌, arith, length, if◌then◌else◌, ltb, Bool-cases, ==_refl, ap, ◌∙◌, subst,
}
use csc369group.Ext2.Disk.{block_size, DirEntry, entry_at, Fs}
use csc369group.Ext2.Path.{
  Lookup, missing, same_bytes, take_entry, entries_loop, check_entries_for_path, view,
}
use csc369group.Ext2.Path.Entries.{Chain, here, step, IsLinked}
use csc369group.Ext2.Insert.{found_at, slot_loop, split_entry}
use csc369group.Ext2.Insert.Tiles.{Tiles, done, tile, has_room, insert_behind}
use csc369group.Ext2.Insert.Search.{Searched, room, search-Searched}

-- The lookup in a list of entries: the first one with the name decides.
unfoldable pub first_match : (token abs_path : List ℕ) → List DirEntry → Lookup
first_match token abs_path [] = missing
first_match token abs_path (e ∷ es) =
    if same_bytes token e.name then take_entry token abs_path e else first_match token abs_path es

module _ (fs : Fs) (block : ℕ) (token abs_path : List ℕ) where
  abbrev turn : (fuel s : ℕ) → DirEntry → Lookup
  turn fuel s e =
      if ltb s 1024
      then (if same_bytes token e.name
          then take_entry token abs_path e
          else entries_loop fuel (s + e.rec_len) block token abs_path (view fs))
      else missing

  entries_loop-turn :
      (fuel s : ℕ)
      → entries_loop (suc fuel) s block token abs_path (view fs)
        ≡ turn fuel s (entry_at fs.disk (block * block_size + s))
  unfolding entries_loop
  entries_loop-turn fuel s = refl

  entries_loop-first_match :
      (fuel s : ℕ) {es : List DirEntry}
      → 1 ≤ fuel
      → 1025 ≤ fuel + s
      → Tiles fs.disk (block * block_size) s es
      → entries_loop fuel s block token abs_path (view fs) ≡ first_match token abs_path es
  unfolding first_match
  entries_loop-first_match zero s some_fuel enough tiles = absurd (omega arith)
  entries_loop-first_match (suc fuel) _ some_fuel enough done = entries_loop-turn fuel 1024
  entries_loop-first_match (suc fuel) s some_fuel enough
        (tile {e = e} {es = es} at small fits inside rest) =
      let lt : ltb s 1024 ≡ true = ground (arith, fits, inside) in
      entries_loop-turn fuel s
      ∙ ap (turn fuel s) at
      ∙ rw (lt, entries_loop-first_match fuel (s + e.rec_len) (omega arith) (omega arith) rest) refl

  -- In a block whose entries follow one another up to its end, `check_entries_for_path` gives what the
  -- lookup in the list of the entries gives: the first entry with the name, or that there is none.
  pub check_entries-first_match :
      {es : List DirEntry}
      → Tiles fs.disk (block * block_size) 0 es
      → check_entries_for_path block token abs_path (view fs) ≡ first_match token abs_path es
  unfolding check_entries_for_path
  check_entries-first_match tiles =
      entries_loop-first_match 1025 0 (omega arith) (omega arith) tiles

-- In a block whose entries follow one another up to its end the walk of a lookup moves on.
pub Tiles-IsLinked :
    (fs : Fs) (block s : ℕ) {es : List DirEntry}
    → Tiles fs.disk (block * block_size) s es
    → IsLinked (view fs) block s
Tiles-IsLinked fs block _ done o here lt = absurd (omega (arith, lt))
Tiles-IsLinked fs block _ done o (step inside c) lt = absurd (omega (arith, inside))
Tiles-IsLinked fs block s (tile at small fits inside rest) o here lt = ground (arith, at, fits)
Tiles-IsLinked fs block s (tile {e = e} {es = es} at small fits inside rest) o (step low c) lt =
    Tiles-IsLinked fs block (s + e.rec_len) rest o
      (subst (λ (d : DirEntry). Chain (view fs) block (s + d.rec_len) o) at c) lt

same_bytes_refl : (s : List ℕ) → same_bytes s s ≡ true
same_bytes_refl [] = refl
same_bytes_refl (b ∷ s) = rw (==_refl b, same_bytes_refl s) refl

-- No entry has the name.
abbrev pub IsAbsent : (name : List ℕ) → List DirEntry → Type 0
IsAbsent name es = (e : DirEntry) → Memᴰ e es → same_bytes name e.name ≡ false

-- The length of the record does not matter to a lookup.
take_entry-rec_len :
    (token abs_path : List ℕ) (new : DirEntry) (n : ℕ)
    → take_entry token abs_path (record new { rec_len = n }) ≡ take_entry token abs_path new
unfolding take_entry
take_entry-rec_len token abs_path new n = refl

module _ (new : DirEntry) (abs_path : List ℕ) where
  -- A list in which a lookup of the new name finds the new entry.
  abbrev IsHit : Option (List DirEntry) → Type 0
  IsHit none = Unit {0}
  IsHit (some es) = first_match new.name abs_path es ≡ take_entry new.name abs_path new

  IsHit-map :
      (e : DirEntry) (o : Option (List DirEntry))
      → same_bytes new.name e.name ≡ false
      → IsHit o
      → IsHit (Option.map (λ l. e ∷ l) o)
  unfolding first_match
  IsHit-map e none differs h = tt
  IsHit-map e (some es) differs h = rw differs h

  insert_behind-IsHit : (es : List DirEntry) → IsAbsent new.name es → IsHit (insert_behind new es)
  unfolding insert_behind first_match
  insert_behind-IsHit [] absent = tt
  insert_behind-IsHit (e ∷ es) absent =
      let differs = absent e (head refl) in
      elim (Bool-cases (has_room (length new.name) e)) [
        | inl wide ↦
            rw (wide, differs, same_bytes_refl new.name)
              (take_entry-rec_len new.name abs_path new _)
        | inr tight ↦ rw tight (
            IsHit-map e (insert_behind new es) differs
              (insert_behind-IsHit es (λ d mem. absent d (tail mem))))
      ]

  pub check_entries-inserted :
      (fs : Fs) (block : ℕ) (es es' : List DirEntry)
      → IsAbsent new.name es
      → insert_behind new es ≡ some es'
      → Tiles fs.disk (block * block_size) 0 es'
      → check_entries_for_path block new.name abs_path (view fs) ≡ take_entry new.name abs_path new
  check_entries-inserted fs block es es' absent behind tiles =
      check_entries-first_match fs block new.name abs_path tiles
      ∙ subst IsHit behind (insert_behind-IsHit es absent)

  -- A block has entries that follow one another up to its end, none of them with the name of the new
  -- entry, which has a name of at most 255 bytes and an inode of 32 bits. If the search finds room,
  -- then after the split of the entry found a lookup of the name in the block ends as it does at the
  -- new entry.
  pub split_entry-found :
      (fs : Fs) (block curr_de : ℕ) (prev_de : Option ℕ) (es : List DirEntry)
      → new.inode < 2 ^ 32
      → length new.name < 2 ^ 8
      → Tiles fs.disk (block * block_size) 0 es
      → IsAbsent new.name es
      → slot_loop 1025 0 (block * block_size) none (length new.name) fs.disk
        ≡ found_at curr_de prev_de
      → check_entries_for_path block new.name abs_path
          (view (record fs { disk = split_entry curr_de new fs.disk }))
        ≡ take_entry new.name abs_path new
  split_entry-found fs block curr_de prev_de es inode name tiles absent found = at_room (
      subst (Searched fs.disk (block * block_size) 0 new es) found
        (search-Searched fs.disk (block * block_size) new inode name none tiles))
    where
      at_room :
          Searched fs.disk (block * block_size) 0 new es (found_at curr_de prev_de)
          → check_entries_for_path block new.name abs_path
              (view (record fs { disk = split_entry curr_de new fs.disk }))
            ≡ take_entry new.name abs_path new
      at_room (room {es' = es'} behind cut same mem) =
          check_entries-inserted (record fs { disk = split_entry curr_de new fs.disk }) block es es'
            absent behind cut
