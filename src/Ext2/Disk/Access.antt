-- ===== src/Ext2/Disk/Access.antt =====
-- a3/ext2.h: what is written is read back, and bytes elsewhere stay.
use csc369group.Prelude.{
  ℕ, zero, suc, ◌+◌, ◌/◌, ◌%◌, ◌^◌, ◌≤◌, ◌<◌, ◌≡◌, ◌⊎◌, inl, inr, refl, List, [], ◌∷◌, arith,
  length, ==_refl, update, ◌∙◌,
}
use csc369group.Ext2.Disk.{
  Bytes, u16, u32, put_u16, put_u32, get_bytes, put_bytes, DirEntry, entry_at, set_rec_len,
  put_entry,
}

pub put_bytes_outside :
    (a : ℕ) (s : List ℕ) (m : Bytes) (i : ℕ)
    → (i < a) ⊎ (a + length s ≤ i)
    → put_bytes a s m i ≡ m i
unfolding put_bytes
put_bytes_outside a [] m i h = refl
put_bytes_outside a (b ∷ s) m i (inl h) =
    put_bytes_outside (a + 1) s (update m a b) i (inl (omega arith)) ∙ ground arith
put_bytes_outside a (b ∷ s) m i (inr h) =
    put_bytes_outside (a + 1) s (update m a b) i (inr (omega arith)) ∙ ground arith

pub get_bytes-put_bytes :
    (a : ℕ) (s : List ℕ) (m : Bytes) → get_bytes (length s) a (put_bytes a s m) ≡ s
unfolding get_bytes put_bytes
get_bytes-put_bytes a [] m = refl
get_bytes-put_bytes a (b ∷ s) m = ground (
  arith,
  get_bytes-put_bytes (a + 1) s (update m a b),
  put_bytes_outside (a + 1) s (update m a b) a,
  ==_refl a,
)

pub get_bytes-agree :
    (n a : ℕ) (m m' : Bytes)
    → ((i : ℕ) → a ≤ i → i < a + n → m' i ≡ m i)
    → get_bytes n a m' ≡ get_bytes n a m
unfolding get_bytes
get_bytes-agree zero a m m' h = refl
get_bytes-agree (suc n) a m m' h =
    ground (arith, h a, get_bytes-agree n (a + 1) m m' (λ i lo hi. h i (omega arith) (omega arith)))

pub length-get_bytes : (n a : ℕ) (m : Bytes) → length (get_bytes n a m) ≡ n
unfolding get_bytes
length-get_bytes zero a m = refl
length-get_bytes (suc n) a m = omega (arith, length-get_bytes n (a + 1) m)

-- An entry depends on its own bytes only.
pub entry_at-agree :
    (a : ℕ) (m m' : Bytes)
    → ((i : ℕ) → a ≤ i → i < a + 8 + length (entry_at m a).name → m' i ≡ m i)
    → entry_at m' a ≡ entry_at m a
unfolding entry_at
entry_at-agree a m m' h =
    let n : length (get_bytes (m (a + 6)) (a + 8) m) ≡ m (a + 6) =
      length-get_bytes (m (a + 6)) (a + 8) m in
    let name : get_bytes (m (a + 6)) (a + 8) m' ≡ get_bytes (m (a + 6)) (a + 8) m =
      get_bytes-agree (m (a + 6)) (a + 8) m m' (λ i lo hi. h i (omega arith) (omega (arith, n))) in
    ground (
      arith,
      name,
      h a,
      h (a + 1),
      h (a + 2),
      h (a + 3),
      h (a + 4),
      h (a + 4 + 1),
      h (a + 6),
      h (a + 7),
    )

-- What an entry can hold.
pub record IsSmall (e : DirEntry) : Type 0 where
  pub inode : e.inode < 2 ^ 32
  pub rec_len : e.rec_len < 2 ^ 16
  pub name : length e.name < 2 ^ 8

-- The eight bytes before the name.
abbrev head_put : ℕ → DirEntry → Bytes → Bytes
head_put a e m =
    update (update (put_u16 (a + 4) e.rec_len (put_u32 a e.inode m)) (a + 6) (length e.name % 256))
      (a + 7) e.file_type

pub put_entry_outside :
    (a : ℕ) (e : DirEntry) (m : Bytes) (i : ℕ)
    → (i < a) ⊎ (a + 8 + length e.name ≤ i)
    → put_entry a e m i ≡ m i
unfolding put_entry put_u16 put_u32
put_entry_outside a e m i (inl h) =
    put_bytes_outside (a + 8) e.name (head_put a e m) i (inl (omega arith)) ∙ ground arith
put_entry_outside a e m i (inr h) =
    put_bytes_outside (a + 8) e.name (head_put a e m) i (inr (omega arith)) ∙ ground arith

entry_at-head :
    (a : ℕ) (e : DirEntry) (m : Bytes) (i : ℕ) → i < a + 8 → put_entry a e m i ≡ head_put a e m i
unfolding put_entry
entry_at-head a e m i h = put_bytes_outside (a + 8) e.name (head_put a e m) i (inl (omega arith))

module _ (a : ℕ) (e : DirEntry) (m : Bytes) (s : IsSmall e) where
  byte_0 : put_entry a e m a ≡ e.inode % 256
  unfolding put_u32 put_u16
  byte_0 = ground (arith, entry_at-head a e m a)

  byte_1 : put_entry a e m (a + 1) ≡ e.inode / 256 % 256
  unfolding put_u32 put_u16
  byte_1 = ground (arith, entry_at-head a e m (a + 1))

  byte_2 : put_entry a e m (a + 2) ≡ e.inode / 65536 % 256
  unfolding put_u32 put_u16
  byte_2 = ground (arith, entry_at-head a e m (a + 2))

  byte_3 : put_entry a e m (a + 3) ≡ e.inode / 16777216 % 256
  unfolding put_u32 put_u16
  byte_3 = ground (arith, entry_at-head a e m (a + 3))

  inode-put_entry : u32 (put_entry a e m) a ≡ e.inode
  unfolding u32
  inode-put_entry = omega (arith, s.inode, byte_0, byte_1, byte_2, byte_3)

  rec_len-put_entry : u16 (put_entry a e m) (a + 4) ≡ e.rec_len
  unfolding u16 put_u32 put_u16
  rec_len-put_entry =
      ground (arith, s.rec_len, entry_at-head a e m (a + 4), entry_at-head a e m (a + 4 + 1))

  name_len-put_entry : put_entry a e m (a + 6) ≡ length e.name
  unfolding put_u32 put_u16
  name_len-put_entry = ground (arith, s.name, entry_at-head a e m (a + 6))

  file_type-put_entry : put_entry a e m (a + 7) ≡ e.file_type
  file_type-put_entry = ground (arith, entry_at-head a e m (a + 7))

  name-put_entry : get_bytes (put_entry a e m (a + 6)) (a + 8) (put_entry a e m) ≡ e.name
  name-put_entry =
      rw name_len-put_entry
        (unfold put_entry in get_bytes-put_bytes (a + 8) e.name (head_put a e m))

  -- An entry that fits its fields is read back as it was written.
  pub entry_at-put_entry : entry_at (put_entry a e m) a ≡ e
  unfolding entry_at
  entry_at-put_entry =
      ground (arith, inode-put_entry, rec_len-put_entry, file_type-put_entry, name-put_entry)

-- A new length of the record, and nothing else of the entry.
pub entry_at-set_rec_len :
    (a v : ℕ) (m : Bytes)
    → v < 2 ^ 16
    → entry_at (set_rec_len a v m) a ≡ record (entry_at m a) { rec_len = v }
unfolding entry_at set_rec_len put_u16 u16 u32
entry_at-set_rec_len a v m small =
    ground
      (arith, get_bytes-agree (m (a + 6)) (a + 8) m (set_rec_len a v m) (λ i lo hi. ground arith))

pub set_rec_len_outside :
    (a v : ℕ) (m : Bytes) (i : ℕ) → (i < a + 4) ⊎ (a + 6 ≤ i) → set_rec_len a v m i ≡ m i
unfolding set_rec_len put_u16
set_rec_len_outside a v m i h = ground arith
