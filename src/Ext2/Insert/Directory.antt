-- ===== src/Ext2/Insert/Directory.antt =====
-- a3: the loop over the blocks of a directory that puts an entry in place.
use mathlib.Core.List.{Memᴰ}
use csc369group.Prelude.{
  ℕ, zero, suc, ◌+◌, ◌-◌, ◌*◌, ◌^◌, ◌≤◌, ◌<◌, ◌≡◌, ◌≢◌, ◌⊎◌, inl, inr, Option, none, some, List,
  arith, length, ==_ne, eq_or_ne, ap, sym, ◌∙◌, subst,
}
use csc369group.Ext2.Disk.{block_size, Bytes, DirEntry, entry_at, Fs}
use csc369group.Ext2.Insert.{
  Slot, found_at, full, endless, Placement, placed, lost, place_at, place_loop, place_entry,
}
use csc369group.Ext2.Insert.Tiles.{Tiles, insert_behind}
use csc369group.Ext2.Insert.Search.{Searched, no_room, room, search-Searched}

module _ (reuse : ℕ → Option ℕ → DirEntry → Bytes → Bytes) (grow : Fs → Option (ℕ × Fs)) (dir : ℕ)
    (new : DirEntry) (fs : Fs) (blocks : ℕ → List DirEntry) (n : ℕ) where
  abbrev address : ℕ → ℕ
  address k = (fs.inode_tbl dir).i_block k * block_size

  -- The loop, from block `j` on, puts the entry into the first of the blocks with room, or goes on behind
  -- the `n` blocks on the same image.
  pub data Inserted (r j : ℕ) : Placement → Type 0 where
    inserted :
        {k : ℕ} {m' : Bytes} {es' : List DirEntry}
        → j ≤ k
        → k < n
        → ((i : ℕ) → j ≤ i → i < k → insert_behind new (blocks i) ≡ none)
        → insert_behind new (blocks k) ≡ some es'
        → Tiles m' (address k) 0 es'
        → ((i : ℕ) → (i < address k) ⊎ (address k + 1024 ≤ i) → m' i ≡ fs.disk i)
        → Inserted r j (placed (record fs { disk = m' }))
    passed :
        {p : Placement}
        → ((i : ℕ) → j ≤ i → i < n → insert_behind new (blocks i) ≡ none)
        → p ≡ place_loop reuse grow (j + r - n) n dir new fs
        → Inserted r j p

  pass :
      (r j : ℕ) (p : Placement)
      → insert_behind new (blocks j) ≡ none
      → Inserted r (suc j) p
      → Inserted (suc r) j p
  pass r j p tight (inserted lo hi before here tiles same) =
      inserted (omega (arith, lo)) hi
        (λ i lo hi. elim (eq_or_ne i j) [
          | inl e ↦ subst (λ x. insert_behind new (blocks x) ≡ none) (sym e) tight
          | inr ne ↦ before i (omega (arith, lo, ne)) hi
        ])
        here tiles same
  pass r j p tight (passed before e) =
      passed
        (λ i lo hi. elim (eq_or_ne i j) [
          | inl e ↦ subst (λ x. insert_behind new (blocks x) ≡ none) (sym e) tight
          | inr ne ↦ before i (omega (arith, lo, ne)) hi
        ])
        (e ∙ ap (λ x. place_loop reuse grow x n dir new fs) (omega arith))

  at_end : (r j : ℕ) → j ≡ n → Inserted r j (place_loop reuse grow r j dir new fs)
  at_end r j e =
      passed (λ i lo hi. absurd (omega (arith, lo, hi, e)))
        (ap (λ x. place_loop reuse grow x j dir new fs) (omega (arith, e))
          ∙ ap (λ k. place_loop reuse grow (j + r - n) k dir new fs) e)

  module _ (inode : new.inode < 2 ^ 32) (name : length new.name < 2 ^ 8)
      (present : (k : ℕ) → k < n → (fs.inode_tbl dir).i_block k ≢ 0)
      (tiles : (k : ℕ) → k < n → Tiles fs.disk (address k) 0 (blocks k))
      (alive : (k : ℕ) (e : DirEntry)
        → k < n
        → Memᴰ e (blocks k)
        → (fs.inode_tbl e.inode).i_dtime ≡ 0) where
    at_slot :
        (r j : ℕ) (slot : Slot)
        → j < n
        → Searched fs.disk (address j) 0 new (blocks j) slot
        → Inserted r (suc j) (place_loop reuse grow r (suc j) dir new fs)
        → Inserted (suc r) j (elim slot [
          | found_at curr_de prev_de ↦ placed (place_at reuse grow curr_de prev_de new fs)
          | full ↦ place_loop reuse grow r (suc j) dir new fs
          | endless ↦ lost
        ])
    unfolding place_at
    at_slot r j _ lt (no_room tight) later = pass r j _ tight later
    at_slot r j _ lt (room {curr_de} {prev_de} behind cut same mem) later =
        rw (alive j (entry_at fs.disk curr_de) lt mem) (
          inserted (omega arith) lt (λ i lo hi. absurd (omega (arith, lo, hi))) behind cut
            (λ i outside. same i (omega (arith, outside))))

    place_loop-Inserted :
        (r j : ℕ) → j ≤ n → n ≤ j + r → Inserted r j (place_loop reuse grow r j dir new fs)
    unfolding place_loop
    place_loop-Inserted zero j le enough = at_end 0 j (omega arith)
    place_loop-Inserted (suc r) j le enough = elim (eq_or_ne j n) [
      | inl e ↦ at_end (suc r) j e
      | inr ne ↦
          let lt : j < n = omega arith in
          rw (==_ne ((fs.inode_tbl dir).i_block j) 0 (present j lt)) (
            at_slot r j _ lt (search-Searched fs.disk (address j) new inode name none (tiles j lt))
              (place_loop-Inserted r (suc j) lt (omega arith)))
    ]

    -- A directory whose first `n` block numbers, at most twelve, are those of blocks with well-formed
    -- entries, and a new entry with a name of at most 255 bytes and an inode of 32 bits. Where the code
    -- looks up whether an entry of these blocks is deleted, `inode_tbl[e.inode]`, which is the slot behind
    -- that of the entry's own inode, no deletion time stands. Then the loop ends with the entry in the first of these blocks with room, where the list of
    -- entries is the one that the insertion gives and no byte of another block has changed; or none of
    -- them has room, and the loop goes on behind them on the same image.
    pub place_entry-Inserted : n ≤ 12 → Inserted 12 0 (place_entry reuse grow dir new fs)
    unfolding place_entry
    place_entry-Inserted le = place_loop-Inserted 12 0 (omega arith) (omega arith)
