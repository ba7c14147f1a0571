-- ===== src/Paging/PageTable/Eviction.antt =====
-- a2/starter/pagetable.c and swap.c: a frame is taken from its page.
use csc369group.Prelude.{
  ℕ, ◌*◌, ◌%◌, ◌<◌, ◌≡◌, ◌≢◌, refl, true, false, Option, none, some, ℤ, int_of_word, arith, update,
  Bool-cases, inl, inr, ap, ◌∙◌, Option-cases,
}
use csc369group.Bits.{set_bit}
use csc369group.Bits.Laws.{bit-set_bit, bit-toggle_bit}
use csc369group.Outcome
use csc369group.Outcome.{Outcome, ok, exit, abort, ◌>>=◌}
use csc369group.Paging.Bitmap.{Bitmap}
use csc369group.Paging.Bitmap.Alloc
use csc369group.Paging.Bitmap.Alloc.{Allocates, bitmap_alloc-Allocates}
use csc369group.Paging.Machine.{Pte, is_valid, is_dirty, SwapFile, Machine, Functions}
use csc369group.Paging.Swap.{
  State, is_invalid_swap, take_slot, swap_slot, write_page, store_page, swap_pageout,
}
use csc369group.Paging.PageTable.{swapped_out, count_eviction, evict_page}
use csc369group.Paging.PageTable.Coherent.{
  Safe, returns, exits, bind, IsCoherent, IsVacant, IsSteady,
}

-- Only the swap file and its bitmap have changed.
record IsSwapped {F : Type 0} (m m' : Machine F) : Type 0 where
  memsize : m'.memsize ≡ m.memsize
  coremap : m'.coremap ≡ m.coremap
  ptes : m'.ptes ≡ m.ptes
  directory : m'.pgdir ≡ m.pgdir
  tables : m'.tables ≡ m.tables
  swap_valid : Alloc.IsValid m'.swapmap

aligned_place : (idx : ℕ) → is_invalid_swap (int_of_word (idx * 16 % 4294967296)) ≡ false
aligned_place idx = ground arith

-- A place in the swap file, if there is one, is not INVALID_SWAP.
abbrev IsPlace : Option ℤ → Type 0
IsPlace none = Unit {0}
IsPlace (some slot) = is_invalid_swap slot ≡ false

module _ (S : SwapFile) (m : State S) (swap_valid : Alloc.IsValid m.swapmap) where
  abbrev Placed : Option ℤ × State S → Type 0
  Placed (slot, m') = IsSwapped m m' × IsPlace slot

  take_slot-Placed :
      (found : Option (ℕ × Bitmap)) → Allocates m.swapmap found → Placed (take_slot S found m)
  unfolding Allocates take_slot
  take_slot-Placed none a = (
    record {
      memsize = refl;
      coremap = refl;
      ptes = refl;
      directory = refl;
      tables = refl;
      swap_valid = swap_valid;
    },
    tt,
  )
  take_slot-Placed (some (idx, b)) a = (
    record {
      memsize = refl;
      coremap = refl;
      ptes = refl;
      directory = refl;
      tables = refl;
      swap_valid = a.5;
    },
    aligned_place idx,
  )

  Safe-of_Returns :
      {A B : Type 0} {P : A → Type 0} {Q : B → Type 0} {r : Outcome A} (f : A → B)
      → Outcome.Returns P r
      → ((a : A) → P a → Q (f a))
      → Safe Q (r >>= λ a. ok (f a))
  Safe-of_Returns f (Outcome.returns p) h = returns (h _ p)

  swap_slot-Placed : (off : ℤ) → Safe Placed (swap_slot S off m)
  unfolding swap_slot
  swap_slot-Placed off = elim (Bool-cases (is_invalid_swap off)) [
    | inl unplaced ↦ rw unplaced (
        Safe-of_Returns (λ found. take_slot S found m) (bitmap_alloc-Allocates swap_valid)
          take_slot-Placed)
    | inr placed ↦ rw placed (
        returns (
          record {
            memsize = refl;
            coremap = refl;
            ptes = refl;
            directory = refl;
            tables = refl;
            swap_valid = swap_valid;
          },
          placed,
        ))
  ]

module _ (S : SwapFile) {m m1 : State S} (w : IsSwapped m m1) where
  write_page-IsSwapped : (f : ℕ) (off : ℤ) → IsSwapped m (write_page S f off m1).1
  unfolding write_page
  write_page-IsSwapped f off = elim (Option-cases (S.lseek m1.swapfile off)) [
    | inl moved ↦
        rw (moved, write_page)
          (record {
            memsize = w.memsize;
            coremap = w.coremap;
            ptes = w.ptes;
            directory = w.directory;
            tables = w.tables;
            swap_valid = w.swap_valid;
          })
    | inr (errno, failed) ↦ rw (failed, write_page) w
  ]

  store_page-IsSwapped :
      (f : ℕ) (slot : Option ℤ)
      → IsPlace slot
      → Safe (λ r. IsSwapped m r.1) (store_page S f slot m1)
  unfolding store_page
  store_page-IsSwapped f none h = returns w
  store_page-IsSwapped f (some off) h = rw h (returns (write_page-IsSwapped f off))

-- `swap_pageout` on a valid bitmap: no assertion fails, and page tables and coremap stay.
swap_pageout-IsSwapped :
    (S : SwapFile) (m : State S) (f : ℕ) (off : ℤ)
    → Alloc.IsValid m.swapmap
    → Safe (λ r. IsSwapped m r.1) (swap_pageout S f off m)
unfolding swap_pageout
swap_pageout-IsSwapped S m f off v =
    bind (swap_slot-Placed S m v off) λ (slot, m1) (w, place). store_page-IsSwapped S w f slot place

swapped_out-valid : (off : ℤ) (e : Pte) → is_valid (swapped_out off e) ≡ false
unfolding swapped_out
swapped_out-valid off e =
    ground (arith, bit-toggle_bit 0 0 (set_bit 3 e.frame), bit-set_bit 0 3 e.frame)

swapped_out-place : (off : ℤ) (e : Pte) → (swapped_out off e).swap_off ≡ off
unfolding swapped_out
swapped_out-place off e = refl

module _ {F : Type 0} {m m' : Machine F} (v : IsCoherent (λ _. false) m) (w : IsSwapped m m')
    (f : ℕ) (inside : f < m.memsize) (used : (m.coremap f).in_use ≡ true) (off : ℤ)
    (place : is_invalid_swap off ≡ false) where
  abbrev emptied : Machine F
  emptied =
      let q = (m.coremap f).pte in
      record m' { ptes = update m'.ptes q (swapped_out off (m'.ptes q)) }

  emptied-IsVacant : IsVacant f emptied
  emptied-IsVacant =
      let q = (m.coremap f).pte in
      record {
        small = rw w.memsize v.small;
        inside = rw w.memsize inside;
        framed = λ i lt ne u. ground (arith, w.memsize, w.coremap, w.ptes, v.framed i, v.framed f);
        owned = λ r h. ground (
          arith,
          w.memsize,
          w.coremap,
          w.ptes,
          v.owned r,
          v.framed f,
          swapped_out-valid off (m'.ptes q),
        );
        saved = λ r h. ground (arith, w.ptes, v.saved r, place, swapped_out-place off (m'.ptes q));
        swap_valid = w.swap_valid;
      }

update_other : {A : Type 0} (f : ℕ → A) (i : ℕ) (v : A) (r : ℕ) → r ≢ i → update f i v r ≡ f r
update_other f i v r ne = ground (arith, ne)

module _ (S : SwapFile) {A : Type 0} (fns : Functions S.File A) where
  count_eviction-IsSwapped :
      (e : Pte) (m : State S) → Alloc.IsValid m.swapmap → IsSwapped m (count_eviction S fns e m)
  unfolding count_eviction
  count_eviction-IsSwapped e m v = elim (Bool-cases (is_dirty e)) [
    | inl d ↦ rw d (record {
      memsize = refl;
      coremap = refl;
      ptes = refl;
      directory = refl;
      tables = refl;
      swap_valid = v;
    })
    | inr d ↦ rw d (record {
      memsize = refl;
      coremap = refl;
      ptes = refl;
      directory = refl;
      tables = refl;
      swap_valid = v;
    })
  ]

  -- In a state where the coremap and the valid entries are inverse to each other,
  -- `allocate_frame` takes a frame `f` in use from its page: no assertion fails. Either it exits
  -- because the page could not be written to swap, or no valid entry names the frame any more,
  -- every other frame and entry correspond as before, every entry on swap has a place there, and
  -- `memsize`, the coremap, the page directory and all entries but that
  -- page's are as before.
  pub evict_page-IsVacant :
      (m : State S) (f : ℕ)
      → IsCoherent (λ _. false) m
      → f < m.memsize
      → (m.coremap f).in_use ≡ true
      → Safe
          (λ m'.
            IsVacant f m'
            × IsSteady m m'
            × ((r : ℕ) → r ≢ (m.coremap f).pte → m'.ptes r ≡ m.ptes r))
          (evict_page S fns f m)
  unfolding evict_page
  evict_page-IsVacant m f v inside used =
      let q = (m.coremap f).pte in
      let mc = count_eviction S fns (m.ptes q) m in
      let c = count_eviction-IsSwapped (m.ptes q) m v.swap_valid in
      bind (swap_pageout-IsSwapped S mc f (mc.ptes q).swap_off c.swap_valid) λ (off, m') w.
        let w2 : IsSwapped m m' = record {
          memsize = w.memsize ∙ c.memsize;
          coremap = w.coremap ∙ c.coremap;
          ptes = w.ptes ∙ c.ptes;
          directory = w.directory ∙ c.directory;
          tables = w.tables ∙ c.tables;
          swap_valid = w.swap_valid;
        } in
        elim (Bool-cases (is_invalid_swap off)) [
          | inl bad ↦ rw bad (exits 1)
          | inr good ↦ rw good (
              returns (
                emptied-IsVacant v w2 f inside used off good,
                record {
                  memsize = w2.memsize;
                  coremap = w2.coremap;
                  directory = w2.directory;
                  tables = w2.tables;
                },
                λ r ne.
                    update_other (m'.ptes) q (swapped_out off (m'.ptes q)) r ne
                    ∙ ap (λ g. g r) w2.ptes,
              ))
        ]
