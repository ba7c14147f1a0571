-- ===== src/Ext2/Path/Entries.antt =====
-- a3/ext2_util.c: the walk over the directory entries of a block ends, and finds the first match.
use csc369group.Prelude.{
  ℕ, zero, suc, ◌+◌, ◌≤◌, ◌<◌, ◌≡◌, refl, true, false, List, arith, ltb, Bool-cases, ◌⊎◌, inl, inr,
}
use csc369group.Ext2.Path.{
  Image, Lookup, missing, same_bytes, take_entry, entries_loop, check_entries_for_path,
}

-- `o` is an offset that the walk from `s` comes to.
pub data Chain (d : Image) (block : ℕ) : ℕ → ℕ → Type 0 where
  here : {s : ℕ} → Chain d block s s
  step : {s o : ℕ} → s < 1024 → Chain d block (s + (d.entry block s).rec_len) o → Chain d block s o

-- Every entry that the walk comes to moves it on.
abbrev pub IsLinked : Image → (block s : ℕ) → Type 0
IsLinked d block s = (o : ℕ) → Chain d block s o → o < 1024 → 0 < (d.entry block o).rec_len

-- The result comes from an entry of the chain that has the name, or there is none with that name.
unfoldable pub IsFound : Image → (block s : ℕ) → (token abs_path : List ℕ) → Lookup → Type 0
IsFound d block s token abs_path r =
    ((o : ℕ) × Chain d block s o
      × (o < 1024)
      × (same_bytes token (d.entry block o).name ≡ true)
      × (r ≡ take_entry token abs_path (d.entry block o)))
    ⊎ ((r ≡ missing)
        × ((o : ℕ)
            → Chain d block s o
            → o < 1024
            → same_bytes token (d.entry block o).name ≡ false))

module _ (d : Image) (block : ℕ) (token abs_path : List ℕ) where
  absent_past :
      (s : ℕ)
      → 1024 ≤ s
      → (o : ℕ) → Chain d block s o
      → o < 1024
      → same_bytes token (d.entry block o).name ≡ false
  absent_past s le o here lt = absurd (omega arith)
  absent_past s le o (step lt c) h = absurd (omega arith)

  absent_here :
      (s : ℕ)
      → same_bytes token (d.entry block s).name ≡ false
      → ((o : ℕ)
          → Chain d block (s + (d.entry block s).rec_len) o
          → o < 1024
          → same_bytes token (d.entry block o).name ≡ false)
      → (o : ℕ) → Chain d block s o
      → o < 1024
      → same_bytes token (d.entry block o).name ≡ false
  absent_here s differs later o here lt = differs
  absent_here s differs later o (step _ c) lt = later o c lt

  IsFound-step :
      (s : ℕ) (r : Lookup)
      → s < 1024
      → same_bytes token (d.entry block s).name ≡ false
      → IsFound d block (s + (d.entry block s).rec_len) token abs_path r
      → IsFound d block s token abs_path r
  unfolding IsFound
  IsFound-step s r lt differs (inl (o, c, inside, same, e)) = inl (o, step lt c, inside, same, e)
  IsFound-step s r lt differs (inr (e, absent)) = inr (e, absent_here s differs absent)

  entries_loop-IsFound :
      (fuel s : ℕ)
      → 1 ≤ fuel
      → 1025 ≤ fuel + s
      → IsLinked d block s
      → IsFound d block s token abs_path (entries_loop fuel s block token abs_path d)
  unfolding entries_loop IsFound
  entries_loop-IsFound zero s some_fuel enough linked = absurd (omega arith)
  entries_loop-IsFound (suc fuel) s some_fuel enough linked = elim (Bool-cases (ltb s 1024)) [
    | inr past ↦ rw past (inr (refl, absent_past s (ground arith)))
    | inl inside ↦
        let lt : s < 1024 = ground arith in
        let moves = linked s here lt in
        elim (Bool-cases (same_bytes token (d.entry block s).name)) [
          | inl same ↦ rw (inside, same) (inl (s, here, lt, same, refl))
          | inr differs ↦
              rw (inside, differs)
                (IsFound-step s
                  (entries_loop fuel (s + (d.entry block s).rec_len) block token abs_path d) lt
                  differs
                  (entries_loop-IsFound fuel (s + (d.entry block s).rec_len) (omega arith)
                    (omega arith) (λ o c h. linked o (step lt c) h)))
        ]
  ]

  -- Where every entry that the walk comes to has a length, `check_entries_for_path` ends. Its result is
  -- that of an entry of the block with the name looked for, or it is 0 and no entry has that name.
  pub check_entries-IsFound :
      IsLinked d block 0
      → IsFound d block 0 token abs_path (check_entries_for_path block token abs_path d)
  unfolding check_entries_for_path
  check_entries-IsFound linked = entries_loop-IsFound 1025 0 (omega arith) (omega arith) linked
