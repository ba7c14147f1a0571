-- ===== src/Paging/PageTable/Coherent.antt =====
-- a2/starter/pagetable.c: the coremap and the page tables are inverse to each other.
use csc369group.Prelude.{ℕ, ◌^◌, ◌<◌, ◌≡◌, ◌≢◌, refl, Bool, true, false, ◌||◌, arith, ◌∙◌}
use csc369group.Outcome
use csc369group.Outcome.{Outcome, ok, exit, ◌>>=◌}
use csc369group.Paging.Machine.{is_valid, is_onswap, frame_of, Machine}
use csc369group.Paging.Bitmap.Alloc
use csc369group.Paging.Swap.{is_invalid_swap}

-- No assertion fails and no array is left: the function returns with `P`, or the program exits.
pub data Safe {A : Type 0} (P : A → Type 0) : Outcome A → Type 0 where
  returns : {a : A} → P a → Safe P (ok a)
  exits : (status : ℕ) → Safe P (exit status)

pub bind :
    {A B : Type 0} {P : A → Type 0} {Q : B → Type 0} {m : Outcome A} {f : A → Outcome B}
    → Safe P m
    → ((a : A) → P a → Safe Q (f a))
    → Safe Q (m >>= f)
bind (returns p) next = next _ p
bind (exits n) next = exits n

pub of_Returns : {A : Type 0} {P : A → Type 0} {m : Outcome A} → Outcome.Returns P m → Safe P m
of_Returns (Outcome.returns p) = returns p

pub imply :
    {A : Type 0} {P Q : A → Type 0} {m : Outcome A} → Safe P m → ((a : A) → P a → Q a) → Safe Q m
imply (returns p) h = returns (h _ p)
imply (exits n) h = exits n

module _ {F : Type 0} where
  -- An entry counts as present if it is valid, or if it is the one named by `extra`, which is about
  -- to be marked so.
  abbrev pub present : (ℕ → Bool) → Machine F → ℕ → Bool
  present extra m q = is_valid (m.ptes q) || extra q

  -- Frames and present entries correspond, and what lies in swap has a place there.
  pub record IsCoherent (extra : ℕ → Bool) (m : Machine F) : Type 0 where
    pub small : m.memsize < 2 ^ 20
    pub framed :
        (i : ℕ)
        → i < m.memsize
        → (m.coremap i).in_use ≡ true
        → (frame_of (m.ptes (m.coremap i).pte) ≡ i) × (present extra m (m.coremap i).pte ≡ true)
    pub owned :
        (q : ℕ)
        → present extra m q ≡ true
        → (frame_of (m.ptes q) < m.memsize)
          × ((m.coremap (frame_of (m.ptes q))).in_use ≡ true)
          × ((m.coremap (frame_of (m.ptes q))).pte ≡ q)
    pub saved : (q : ℕ) → is_onswap (m.ptes q) ≡ true → is_invalid_swap (m.ptes q).swap_off ≡ false
    pub swap_valid : Alloc.IsValid m.swapmap

  -- Frame `f` belongs to no present entry; all else corresponds.
  pub record IsVacant (f : ℕ) (m : Machine F) : Type 0 where
    pub small : m.memsize < 2 ^ 20
    pub inside : f < m.memsize
    pub framed :
        (i : ℕ)
        → i < m.memsize
        → i ≢ f
        → (m.coremap i).in_use ≡ true
        → (frame_of (m.ptes (m.coremap i).pte) ≡ i) × (is_valid (m.ptes (m.coremap i).pte) ≡ true)
    pub owned :
        (q : ℕ)
        → is_valid (m.ptes q) ≡ true
        → (frame_of (m.ptes q) < m.memsize)
          × (frame_of (m.ptes q) ≢ f)
          × ((m.coremap (frame_of (m.ptes q))).in_use ≡ true)
          × ((m.coremap (frame_of (m.ptes q))).pte ≡ q)
    pub saved : (q : ℕ) → is_onswap (m.ptes q) ≡ true → is_invalid_swap (m.ptes q).swap_off ≡ false
    pub swap_valid : Alloc.IsValid m.swapmap

  -- What a replacement algorithm may change of the machine: reference flags and links.
  pub record IsSameMap (m m' : Machine F) : Type 0 where
    pub memsize : m'.memsize ≡ m.memsize
    pub swapmap : m'.swapmap ≡ m.swapmap
    pub directory : m'.pgdir ≡ m.pgdir
    pub tables : m'.tables ≡ m.tables
    pub used : (i : ℕ) → (m'.coremap i).in_use ≡ (m.coremap i).in_use
    pub entry : (i : ℕ) → (m'.coremap i).pte ≡ (m.coremap i).pte
    pub valid : (q : ℕ) → is_valid (m'.ptes q) ≡ is_valid (m.ptes q)
    pub onswap : (q : ℕ) → is_onswap (m'.ptes q) ≡ is_onswap (m.ptes q)
    pub frame : (q : ℕ) → frame_of (m'.ptes q) ≡ frame_of (m.ptes q)
    pub place : (q : ℕ) → (m'.ptes q).swap_off ≡ (m.ptes q).swap_off

  -- What stays when no replacement algorithm runs and no frame changes hands.
  pub record IsSteady (m m' : Machine F) : Type 0 where
    pub memsize : m'.memsize ≡ m.memsize
    pub coremap : m'.coremap ≡ m.coremap
    pub directory : m'.pgdir ≡ m.pgdir
    pub tables : m'.tables ≡ m.tables

  pub IsSameMap-refl : (m : Machine F) → IsSameMap m m
  IsSameMap-refl m = record {
    memsize = refl;
    swapmap = refl;
    directory = refl;
    tables = refl;
    used = λ i. refl;
    entry = λ i. refl;
    valid = λ q. refl;
    onswap = λ q. refl;
    frame = λ q. refl;
    place = λ q. refl;
  }

  pub IsSameMap-trans : {m1 m2 m3 : Machine F} → IsSameMap m1 m2 → IsSameMap m2 m3 → IsSameMap m1 m3
  IsSameMap-trans s t = record {
    memsize = t.memsize ∙ s.memsize;
    swapmap = t.swapmap ∙ s.swapmap;
    directory = t.directory ∙ s.directory;
    tables = t.tables ∙ s.tables;
    used = λ i. t.used i ∙ s.used i;
    entry = λ i. t.entry i ∙ s.entry i;
    valid = λ q. t.valid q ∙ s.valid q;
    onswap = λ q. t.onswap q ∙ s.onswap q;
    frame = λ q. t.frame q ∙ s.frame q;
    place = λ q. t.place q ∙ s.place q;
  }

  pub IsCoherent-same :
      {extra : ℕ → Bool} {m m' : Machine F}
      → IsSameMap m m'
      → IsCoherent extra m
      → IsCoherent extra m'
  IsCoherent-same {extra} {m} {m'} s v = record {
    small = rw s.memsize v.small;
    framed = λ i lt u. ground (
      arith,
      s.memsize,
      s.used i,
      s.entry i,
      s.frame (m'.coremap i).pte,
      s.valid (m'.coremap i).pte,
      v.framed i,
    );
    owned = λ q h. ground (
      arith,
      s.memsize,
      s.frame q,
      s.valid q,
      v.owned q,
      s.used (frame_of (m.ptes q)),
      s.entry (frame_of (m.ptes q)),
    );
    saved = λ q h. ground (arith, s.onswap q, s.place q, v.saved q);
    swap_valid = rw s.swapmap v.swap_valid;
  }
