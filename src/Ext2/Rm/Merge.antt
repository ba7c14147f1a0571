-- ===== src/Ext2/Rm/Merge.antt =====
-- a3/ext2_rm.c: the deletion of an entry from a block, against the list of its entries.
use mathlib.Core.Option
use csc369group.Prelude.{
  ℕ, zero, suc, ◌+◌, ◌%◌, ◌^◌, ◌≤◌, ◌<◌, ◌≡◌, ◌⊎◌, inl, inr, refl, true, false, Option, none, some,
  List, [], ◌∷◌, arith, if◌then◌else◌, ltb, ◌==◌, Bool-cases, ap, ◌∙◌, subst,
}
use csc369group.Ext2.Disk.{Bytes, DirEntry, set_rec_len}
use csc369group.Ext2.Disk.Access.{entry_at-agree, entry_at-set_rec_len, set_rec_len_outside}
use csc369group.Ext2.Insert.Tiles.{Tiles, tile, Tiles-agree, Tiles-first, Tiles-moves, Tiles-nil}
use csc369group.Ext2.Rm.{Deletion, deleted, absent, delete_loop}

-- The first entry with inode `n` in a list behind the entry `p` is taken out, and `p` gets its length.
unfoldable pub merge_behind : (n : ℕ) → (p : DirEntry) → List DirEntry → Option (List DirEntry)
merge_behind n p [] = none
merge_behind n p (e ∷ es) =
    if e.inode == n
    then some (record p { rec_len = p.rec_len + e.rec_len } ∷ es)
    else Option.map (λ l. p ∷ l) (merge_behind n e es)

-- In a whole list: the first entry is found, but stays.
unfoldable pub merge_out : (n : ℕ) → List DirEntry → Option (List DirEntry)
merge_out n [] = none
merge_out n (e ∷ es) = if e.inode == n then some (e ∷ es) else merge_behind n e es

-- How the deletion ends, where the list goes from `o` to the result `wanted`.
pub data Merged (m : Bytes) (base s : ℕ) (wanted : Option (List DirEntry)) : Deletion → Type 0 where
  gone :
      {m' : Bytes} {es : List DirEntry}
      → wanted ≡ some es
      → Tiles m' base s es
      → ((i : ℕ) → (i < base + s) ⊎ (base + 1024 ≤ i) → m' i ≡ m i)
      → Merged m base s wanted (deleted m')
  not_there : wanted ≡ none → Merged m base s wanted absent

module _ (m : Bytes) (base n : ℕ) where
  -- The entry `e` at `q + p.rec_len` is taken out.
  merge :
      (q : ℕ) (p e : DirEntry) {es : List DirEntry}
      → (e.inode == n) ≡ true
      → Tiles m base q (p ∷ e ∷ es)
      → Merged m base q
          (merge_behind n p (e ∷ es))
          (deleted (set_rec_len (base + q) ((p.rec_len + e.rec_len) % 2 ^ 16) m))
  unfolding merge_behind
  merge q p e {es = es} same (tile at small fits inside rest) =
      let (at', inside', rest') = Tiles-first rest in
      let len : (p.rec_len + e.rec_len) % 2 ^ 16 ≡ p.rec_len + e.rec_len = omega (arith, inside') in
      rw len (
        gone (rw same refl)
          (tile
            (entry_at-set_rec_len (base + q) (p.rec_len + e.rec_len) m (omega (arith, inside'))
              ∙ ap {A = DirEntry} (λ (d : DirEntry). record d { rec_len = p.rec_len + e.rec_len })
                  at)
            (record { inode = small.inode; rec_len = omega (arith, inside'); name = small.name })
            (omega arith) (omega (arith, inside'))
            (subst (λ o. Tiles (set_rec_len (base + q) (p.rec_len + e.rec_len) m) base o es)
              (omega arith)
              (Tiles-agree (set_rec_len (base + q) (p.rec_len + e.rec_len) m)
                (λ i lo hi.
                  set_rec_len_outside (base + q) (p.rec_len + e.rec_len) m i (inr (omega arith)))
                rest')))
          (λ i outside.
            set_rec_len_outside (base + q) (p.rec_len + e.rec_len) m i
              (omega (arith, outside, inside, fits))))

  Merged-pass :
      (q : ℕ) (p e : DirEntry) {es : List DirEntry} (r : Deletion)
      → (e.inode == n) ≡ false
      → Tiles m base q (p ∷ e ∷ es)
      → Merged m base (q + p.rec_len) (merge_behind n e es) r
      → Merged m base q (merge_behind n p (e ∷ es)) r
  unfolding merge_behind
  Merged-pass q p e _ differs tiles (not_there n) = not_there (rw (differs, n) refl)
  Merged-pass q p e _ differs (tile at small fits inside rest) (gone {m'} w t same) =
      gone (rw (differs, w) refl)
        (tile
          (entry_at-agree (base + q) m m' (λ i lo hi. same i (inl (ground (arith, at, hi, fits))))
            ∙ at)
          small fits inside t)
        (λ i outside. same i (omega (arith, outside)))

  delete_loop-Merged :
      (fuel q : ℕ) (p : DirEntry) {es : List DirEntry}
      → 1 ≤ fuel
      → 1025 ≤ fuel + (q + p.rec_len)
      → Tiles m base q (p ∷ es)
      → Merged m base q
          (merge_behind n p es)
          (delete_loop fuel (q + p.rec_len) base (some (base + q)) n m)
  unfolding delete_loop
  delete_loop-Merged zero q p some_fuel enough tiles = absurd (omega arith)
  delete_loop-Merged (suc fuel) q p {es = []} some_fuel enough tiles =
      let past : ltb (q + p.rec_len) 1024 ≡ false =
        ground (arith, Tiles-nil (Tiles-first tiles).2) in
      rw past (not_there (unfold merge_behind in refl))
  delete_loop-Merged (suc fuel) q p {es = e ∷ es} some_fuel enough tiles =
      let (at, inside, rest) = Tiles-first tiles in
      let (at', inside', rest') = Tiles-first rest in
      let moves = Tiles-moves rest in
      let lt : ltb (q + p.rec_len) 1024 ≡ true = ground (arith, inside', moves) in
      elim (Bool-cases (e.inode == n)) [
        | inl same ↦ rw (lt, at', same, at) (merge q p e same tiles)
        | inr differs ↦
            rw (lt, at', differs)
              (Merged-pass q p e
                (delete_loop fuel (q + p.rec_len + e.rec_len) base (some (base + (q + p.rec_len))) n
                  m)
                differs tiles
                (delete_loop-Merged fuel (q + p.rec_len) e (omega (arith, moves))
                  (omega (arith, moves)) rest))
      ]

  first_entry :
      (fuel : ℕ) (e : DirEntry) {es : List DirEntry}
      → 1024 ≤ fuel
      → Tiles m base 0 (e ∷ es)
      → Merged m base 0 (merge_out n (e ∷ es)) (delete_loop (suc fuel) 0 base none n m)
  unfolding delete_loop merge_out
  first_entry fuel e enough tiles =
      let (at, inside, rest) = Tiles-first tiles in
      elim (Bool-cases (e.inode == n)) [
        | inl same ↦ rw (at, same) (gone refl tiles (λ i outside. refl))
        | inr differs ↦
            rw (at, differs)
              (delete_loop-Merged fuel 0 e (omega arith) (omega (arith, Tiles-moves tiles)) tiles)
      ]

  -- In a block whose entries follow one another up to its end, the deletion of an inode ends. It leaves the
  -- block with the list in which the first entry of the inode is taken out and the entry before it has got
  -- its length, and no byte of another block changes; an entry that is the first of the block is found and
  -- stays. Where no entry has the inode, the list says so too.
  pub delete_loop-refines :
      (e : DirEntry) (es : List DirEntry)
      → Tiles m base 0 (e ∷ es)
      → Merged m base 0 (merge_out n (e ∷ es)) (delete_loop 1025 0 base none n m)
  delete_loop-refines e es tiles = first_entry 1024 e (omega arith) tiles
