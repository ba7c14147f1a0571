-- ===== src/Paging/PageTable/Fill.antt =====
-- a2/starter/pagetable.c: a vacant frame is given to a page, and its entry is marked.
use csc369group.Prelude.{ℕ, ◌/◌, ◌<◌, ◌≡◌, Bool, true, false, arith, ◌==◌, ==_refl, ◌∙◌}
use csc369group.Bits.{bit, set_bit}
use csc369group.Bits.Laws.{bit-set_bit}
use csc369group.Paging.Machine.{is_valid, SwapFile, Functions}
use csc369group.Paging.Machine.Flags.{set_bit-frame, shifted-onswap, shifted-frame}
use csc369group.Paging.Swap.{State}
use csc369group.Paging.PageTable.{claim_frame, set_frame, mark_access, mark_present}
use csc369group.Paging.PageTable.Coherent.{IsCoherent, IsVacant, IsSameMap}

-- The entry that `find_physpage` is about.
abbrev pub only : ℕ → ℕ → Bool
only p q = q == p

module _ (S : SwapFile) {A : Type 0} (fns : Functions S.File A) where
  pub unused-IsVacant :
      {m : State S} (f : ℕ)
      → IsCoherent (λ _. false) m
      → f < m.memsize
      → (m.coremap f).in_use ≡ false
      → IsVacant f m
  unused-IsVacant {m} f v inside unused = record {
    small = v.small;
    inside = inside;
    framed = λ i lt ne u. ground (arith, v.framed i lt u);
    owned = λ q h. ground (arith, v.owned q, h, unused);
    saved = v.saved;
    swap_valid = v.swap_valid;
  }

  abbrev pub filled : ℕ → ℕ → State S → State S
  filled p f m = set_frame S fns p f (claim_frame S fns p f m)

  pub filled-IsCoherent :
      {m : State S} (p f : ℕ)
      → IsVacant f m
      → is_valid (m.ptes p) ≡ false
      → IsCoherent (only p) (filled p f m)
  unfolding set_frame claim_frame
  filled-IsCoherent {m} p f v invalid = record {
    small = v.small;
    framed = λ i lt u.
        ground (arith, v.framed i, invalid, shifted-frame f, v.inside, v.small, ==_refl p);
    owned = λ q h. ground (arith, v.owned q, v.inside, v.small, shifted-frame f, ==_refl p);
    saved = λ q h. ground (arith, v.saved q, shifted-onswap f);
    swap_valid = v.swap_valid;
  }

  pub weaken :
      {m : State S} (p : ℕ)
      → is_valid (m.ptes p) ≡ true
      → IsCoherent (λ _. false) m
      → IsCoherent (only p) m
  weaken {m} p valid v = record {
    small = v.small;
    framed = λ i lt u. ground (arith, v.framed i);
    owned = λ q h. ground (arith, v.owned q);
    saved = v.saved;
    swap_valid = v.swap_valid;
  }

  pub mark_access-IsSameMap : (p type : ℕ) (m : State S) → IsSameMap m (mark_access S fns p type m)
  unfolding mark_access
  mark_access-IsSameMap p type m = record {
    memsize = ground (arith);
    swapmap = ground (arith);
    directory = ground (arith);
    tables = ground (arith);
    used = λ i. ground (arith);
    entry = λ i. ground (arith);
    valid = λ q. ground (arith, bit-set_bit 0 1 (m.ptes p).frame);
    onswap = λ q. ground (arith, bit-set_bit 3 1 (m.ptes p).frame);
    frame = λ q. ground (arith, set_bit-frame 1 (m.ptes p).frame);
    place = λ q. ground (arith);
  }

  pub mark_access-coremap :
      (p type : ℕ) (m : State S) → (mark_access S fns p type m).coremap ≡ m.coremap
  unfolding mark_access
  mark_access-coremap p type m = ground (arith)

  pub mark_present-valid : (p : ℕ) (m : State S) → is_valid ((mark_present S fns p m).ptes p) ≡ true
  unfolding mark_present
  mark_present-valid p m = ground (
    arith,
    ==_refl p,
    bit-set_bit 0 2 (set_bit 0 (m.ptes p).frame),
    bit-set_bit 0 0 (m.ptes p).frame,
  )

  pub mark_present-IsCoherent :
      {m : State S} (p : ℕ)
      → IsCoherent (only p) m
      → IsCoherent (λ _. false) (mark_present S fns p m)
  unfolding mark_present
  mark_present-IsCoherent {m} p v =
      let w = (m.ptes p).frame in
      let frame_same : set_bit 2 (set_bit 0 w) / 4096 ≡ w / 4096 =
        set_bit-frame 2 (set_bit 0 w) (omega arith) ∙ set_bit-frame 0 w (omega arith) in
      let valid : bit 0 (set_bit 2 (set_bit 0 w)) ≡ true =
        ground (arith, bit-set_bit 0 2 (set_bit 0 w), bit-set_bit 0 0 w) in
      let onswap : bit 3 (set_bit 2 (set_bit 0 w)) ≡ bit 3 w =
        ground (arith, bit-set_bit 3 2 (set_bit 0 w), bit-set_bit 3 0 w) in
      record {
        small = v.small;
        framed = λ i lt u. ground (arith, v.framed i, frame_same, valid);
        owned = λ q h. ground (arith, v.owned q, frame_same, valid);
        saved = λ q h. ground (arith, v.saved q, onswap);
        swap_valid = v.swap_valid;
      }
