-- ===== src/Paging/PageTable/Policy.antt =====
-- a2/starter/pagetable.h: `struct functions`, the replacement algorithms as `find_physpage` uses them.
use csc369group.Prelude.{ℕ, ◌<◌, ◌≡◌, ◌≢◌, true, false, ◌∙◌}
use csc369group.Paging.Machine.{is_valid, is_onswap, frame_of, Machine, Functions}
use csc369group.Paging.PageTable.Coherent.{Safe, IsCoherent, IsSameMap}
use csc369group.Paging.PageTable.Fill.{only}

module _ {F : Type 0} where
  -- The frames, but frame `f`, are used as before, and the links of all are as before.
  pub record IsSameFrames (f : ℕ) (m m' : Machine F) : Type 0 where
    pub memsize : m'.memsize ≡ m.memsize
    pub prev : (i : ℕ) → (m'.coremap i).prev ≡ (m.coremap i).prev
    pub next : (i : ℕ) → (m'.coremap i).next ≡ (m.coremap i).next
    pub used : (i : ℕ) → i ≢ f → (m'.coremap i).in_use ≡ (m.coremap i).in_use

  -- A reference through entry `p` leaves the page directory alone, and makes no other entry valid or
  -- swapped out that was neither.
  pub record IsKept (p : ℕ) (m m' : Machine F) : Type 0 where
    pub memsize : m'.memsize ≡ m.memsize
    pub directory : m'.pgdir ≡ m.pgdir
    pub tables : m'.tables ≡ m.tables
    pub quiet :
        (q : ℕ)
        → q ≢ p
        → is_valid (m.ptes q) ≡ false
        → is_onswap (m.ptes q) ≡ false
        → (is_valid (m'.ptes q) ≡ false) × (is_onswap (m'.ptes q) ≡ false)

  pub IsKept-same : (p : ℕ) {m m' : Machine F} → IsSameMap m m' → IsKept p m m'
  IsKept-same p s = record {
    memsize = s.memsize;
    directory = s.directory;
    tables = s.tables;
    quiet = λ q ne v o. (s.valid q ∙ v, s.onswap q ∙ o);
  }

  pub IsKept-trans :
      {p : ℕ} {m1 m2 m3 : Machine F} → IsKept p m1 m2 → IsKept p m2 m3 → IsKept p m1 m3
  IsKept-trans s t = record {
    memsize = t.memsize ∙ s.memsize;
    directory = t.directory ∙ s.directory;
    tables = t.tables ∙ s.tables;
    quiet = λ q ne v o. let (v', o') = s.quiet q ne v o in t.quiet q ne v' o';
  }

-- What `find_physpage` asks of a replacement algorithm. Its own data satisfies `Inv` between references;
-- `Taken f` holds from the choice of frame `f` until the reference that it is for.
pub record IsPolicy {F A : Type 0} (fns : Functions F A) (Inv : Machine F → A → Type 0)
    (Taken : ℕ → Machine F → A → Type 0) : Type 0 where
  pub evicts :
      (m : Machine F) (a : A)
      → Inv m a
      → IsCoherent (λ _. false) m
      → ((i : ℕ) → i < m.memsize → (m.coremap i).in_use ≡ true)
      → Safe (λ (f, m', a'). (f < m.memsize) × IsSameMap m m' × Taken f m' a') (fns.evict m a)
  pub takes :
      (f : ℕ) (m : Machine F) (a : A)
      → Inv m a
      → f < m.memsize
      → (m.coremap f).in_use ≡ false
      → Taken f m a
  pub enters :
      (p : ℕ) (m : Machine F) (a : A)
      → Taken (frame_of (m.ptes p)) m a
      → is_valid (m.ptes p) ≡ false
      → IsCoherent (only p) m
      → Safe (λ (m', a'). IsSameMap m m' × Inv m' a') (fns.ref p m a)
  pub refs :
      (p : ℕ) (m : Machine F) (a : A)
      → Inv m a
      → is_valid (m.ptes p) ≡ true
      → IsCoherent (only p) m
      → Safe (λ (m', a'). IsSameMap m m' × Inv m' a') (fns.ref p m a)
  pub stays :
      (m m' : Machine F) (a : A)
      → m'.memsize ≡ m.memsize
      → m'.coremap ≡ m.coremap
      → Inv m a
      → Inv m' a
  pub waits : (f : ℕ) (m m' : Machine F) (a : A) → IsSameFrames f m m' → Taken f m a → Taken f m' a
