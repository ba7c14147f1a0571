-- ===== src/Paging/PageTable/Tables.antt =====
-- a2/starter/pagetable.c: the page directory and its second-level tables.
use csc369group.Prelude.{
  ℕ, zero, suc, ◌+◌, ◌*◌, ◌/◌, ◌%◌, ◌≤◌, ◌<◌, ◌≡◌, ◌≢◌, refl, true, false, some, arith, ◌⊎◌, inl,
  inr, eq_or_ne, Bool-cases, ap, ◌∙◌, sym, subst, update, ◌==◌,
}
use csc369group.Bits.{bit, set_bit}
use csc369group.Bits.Laws.{bit-set_bit}
use csc369group.Paging.Machine.{Pte, is_valid, is_onswap, Memalign, Machine}
use csc369group.Paging.Machine.Flags.{set_bit-frame}
use csc369group.Paging.PageTable.{fresh_pte, init_entries}
use csc369group.Paging.PageTable.Coherent.{IsCoherent}

-- What posix_memalign promises of the tables: whole pages, which do not overlap.
pub record IsAligned (memalign : Memalign) : Type 0 where
  pub aligned : (k b : ℕ) → memalign k ≡ some b → b % 4096 ≡ 0
  pub apart :
      (i j b b' r r' : ℕ)
      → i ≢ j
      → memalign i ≡ some b
      → memalign j ≡ some b'
      → r < 4096
      → r' < 4096
      → b + r * 16 ≢ b' + r' * 16

-- Where a page directory entry leads to.
abbrev pub table_of : ℕ → ℕ
table_of pde = pde / 4096 * 4096

-- An entry that is neither valid nor swapped out.
abbrev pub IsQuiet : Pte → Type 0
IsQuiet e = (is_valid e ≡ false) × (is_onswap e ≡ false)

fresh_pte-IsQuiet : IsQuiet fresh_pte
unfolding fresh_pte bit
fresh_pte-IsQuiet = (refl, refl)

-- An entry of the new table is fresh, and every other one is as before.
init_entries-cases :
    (n base : ℕ) (ptes : ℕ → Pte) (q : ℕ)
    → ((r : ℕ) × (r < n) × (q ≡ base + r * 16) × (init_entries n base ptes q ≡ fresh_pte))
      ⊎ (init_entries n base ptes q ≡ ptes q)
unfolding init_entries
init_entries-cases zero base ptes q = inr refl
init_entries-cases (suc n) base ptes q = elim (Bool-cases (q == base + n * 16)) [
  | inl here ↦ inl (n, omega arith, ground arith, rw here refl)
  | inr later ↦ elim (init_entries-cases n base ptes q) [
    | inl (r, lt, at, fresh) ↦ inl (r, omega arith, at, rw later fresh)
    | inr same ↦ inr (rw later same)
  ]
]

module _ {F : Type 0} (memalign : Memalign) where
  -- Every directory entry in use leads to a table of its own that was made before, and the memory of
  -- the tables that are still to be made holds no entry that is valid or swapped out.
  pub record IsTabled (m : Machine F) : Type 0 where
    pub tabled :
        (i : ℕ)
        → bit 0 (m.pgdir i) ≡ true
        → (k : ℕ) × (k < m.tables) × (memalign k ≡ some (table_of (m.pgdir i)))
    pub separate :
        (i j : ℕ)
        → i ≢ j
        → bit 0 (m.pgdir i) ≡ true
        → bit 0 (m.pgdir j) ≡ true
        → table_of (m.pgdir i) ≢ table_of (m.pgdir j)
    pub unmade :
        (k b r : ℕ) → m.tables ≤ k → memalign k ≡ some b → r < 4096 → IsQuiet (m.ptes (b + r * 16))

-- Entries that are neither valid nor swapped out may change to others of that kind.
pub IsCoherent-quiet :
    {F : Type 0} {m m' : Machine F}
    → m'.memsize ≡ m.memsize
    → m'.coremap ≡ m.coremap
    → m'.swapmap ≡ m.swapmap
    → ((q : ℕ) → (m'.ptes q ≡ m.ptes q) ⊎ (IsQuiet (m.ptes q) × IsQuiet (m'.ptes q)))
    → IsCoherent (λ _. false) m
    → IsCoherent (λ _. false) m'
IsCoherent-quiet {m} {m'} size frames map entries v = record {
  small = rw size v.small;
  framed = λ i lt u. elim (entries (m'.coremap i).pte) [
    | inl same ↦ ground (arith, size, frames, same, v.framed i)
    | inr (q, q') ↦ absurd (ground (arith, size, frames, q.0, v.framed i))
  ];
  owned = λ q h. elim (entries q) [
    | inl same ↦ ground (arith, size, frames, same, v.owned q)
    | inr (quiet, quiet') ↦ absurd (ground (arith, quiet'.0))
  ];
  saved = λ q h. elim (entries q) [
    | inl same ↦ ground (arith, same, v.saved q)
    | inr (quiet, quiet') ↦ absurd (ground (arith, quiet'.1))
  ];
  swap_valid = rw map v.swap_valid;
}

table_of-base : (base : ℕ) → base % 4096 ≡ 0 → table_of (set_bit 0 base) ≡ base
table_of-base base h = ap (λ z. z * 4096) (set_bit-frame 0 base (omega arith)) ∙ omega arith

pub set_bit-present : (base : ℕ) → bit 0 (set_bit 0 base) ≡ true
set_bit-present base = ground (arith, bit-set_bit 0 0 base)

pub update-same : {A : Type 0} (f : ℕ → A) (i j : ℕ) (v : A) → j ≡ i → update f i v j ≡ v
update-same f i j v e = ground (arith, e)

update-other : {A : Type 0} (f : ℕ → A) (i j : ℕ) (v : A) → j ≢ i → update f i v j ≡ f j
update-other f i j v ne = ground (arith, ne)

module _ {F : Type 0} (memalign : Memalign) (good : IsAligned memalign) (m : Machine F)
    (t : IsTabled memalign m) (idx base : ℕ) (found : memalign m.tables ≡ some base) where
  -- The state after a new table has been linked at `idx`.
  abbrev pub extended : Machine F
  extended = record m {
    ptes = init_entries 4096 base m.ptes;
    tables = suc m.tables;
    pgdir = update m.pgdir idx (set_bit 0 base);
  }

  new_table : table_of (set_bit 0 base) ≡ base
  new_table = table_of-base base (good.aligned m.tables base found)

  base-ne-table : (j : ℕ) → bit 0 (m.pgdir j) ≡ true → base ≢ table_of (m.pgdir j)
  base-ne-table j h e =
      let (k, lt, at) = t.tabled j h in
      good.apart m.tables k base (table_of (m.pgdir j)) 0 0 (λ q. omega (arith, q)) found at
        (omega arith) (omega arith) (ap (λ z. z + 0 * 16) e)

  extended-tabled :
      (i : ℕ)
      → bit 0 (extended.pgdir i) ≡ true
      → (k : ℕ) × (k < suc m.tables) × (memalign k ≡ some (table_of (extended.pgdir i)))
  extended-tabled i h = elim (eq_or_ne i idx) [
    | inl here ↦ (
      m.tables,
      omega arith,
      found
          ∙ ap some
              (sym new_table ∙ ap table_of (sym (update-same m.pgdir idx i (set_bit 0 base) here))),
    )
    | inr other ↦
        let same = update-other m.pgdir idx i (set_bit 0 base) other in
        let (k, lt, at) = t.tabled i (sym (ap (bit 0) same) ∙ h) in
        (k, omega arith, at ∙ ap (λ z. some (table_of z)) (sym same))
  ]

  extended-separate :
      (i j : ℕ)
      → i ≢ j
      → bit 0 (extended.pgdir i) ≡ true
      → bit 0 (extended.pgdir j) ≡ true
      → table_of (extended.pgdir i) ≢ table_of (extended.pgdir j)
  extended-separate i j ne h h' = elim (eq_or_ne i idx) [
    | inl here ↦
        let other : j ≢ idx = λ e. ne (here ∙ sym e) in
        let same = update-other m.pgdir idx j (set_bit 0 base) other in
        λ e. base-ne-table j (sym (ap (bit 0) same) ∙ h') (
          sym new_table
          ∙ ap table_of (sym (update-same m.pgdir idx i (set_bit 0 base) here))
          ∙ e
          ∙ ap table_of same)
    | inr other ↦ elim (eq_or_ne j idx) [
      | inl here ↦
          let same = update-other m.pgdir idx i (set_bit 0 base) other in
          λ e. base-ne-table i (sym (ap (bit 0) same) ∙ h) (
            sym new_table
            ∙ ap table_of (sym (update-same m.pgdir idx j (set_bit 0 base) here))
            ∙ sym e
            ∙ ap table_of same)
      | inr later ↦
          let same = update-other m.pgdir idx i (set_bit 0 base) other in
          let same' = update-other m.pgdir idx j (set_bit 0 base) later in
          λ e.
            t.separate i j ne (sym (ap (bit 0) same) ∙ h) (sym (ap (bit 0) same') ∙ h')
              (sym (ap table_of same) ∙ e ∙ ap table_of same')
    ]
  ]

  extended-unmade :
      (k b r : ℕ)
      → suc m.tables ≤ k
      → memalign k ≡ some b
      → r < 4096
      → IsQuiet (extended.ptes (b + r * 16))
  extended-unmade k b r le at lt = elim (init_entries-cases 4096 base m.ptes (b + r * 16)) [
    | inl (r', lt', e, fresh) ↦
        absurd (good.apart k m.tables b base r r' (λ q. omega (arith, q)) at found lt lt' e)
    | inr same ↦ subst IsQuiet (sym same) (t.unmade k b r (omega arith) at lt)
  ]

  pub extended-entries :
      (q : ℕ) → (extended.ptes q ≡ m.ptes q) ⊎ (IsQuiet (m.ptes q) × IsQuiet (extended.ptes q))
  extended-entries q = elim (init_entries-cases 4096 base m.ptes q) [
    | inl (r, lt, e, fresh) ↦ inr (
      subst (λ z. IsQuiet (m.ptes z)) (sym e) (t.unmade m.tables base r (omega arith) found lt),
      subst IsQuiet (sym fresh) fresh_pte-IsQuiet,
    )
    | inr same ↦ inl same
  ]

  pub extended-IsTabled : IsTabled memalign extended
  extended-IsTabled = record {
    tabled = extended-tabled;
    separate = extended-separate;
    unmade = extended-unmade;
  }
