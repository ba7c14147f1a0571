-- ===== src/Paging/PageTable/Allocation.antt =====
-- a2/starter/pagetable.c: allocate_frame and the two branches of a miss, under any replacement algorithm.
use csc369group.Prelude.{
  ℕ, ◌<◌, ◌≡◌, ◌≢◌, refl, true, false, is, arith, Option-cases, subst, Bool-cases, inl, inr, ap,
  ◌∙◌, ==_refl,
}
use csc369group.Outcome.{ok, ◌>>=◌}
use csc369group.Paging.Machine.{is_valid, is_onswap, frame_of, SwapFile, Machine, Functions}
use csc369group.Paging.Machine.Flags.{shifted-valid, shifted-frame}
use csc369group.Paging.Swap.{State, is_invalid_swap}
use csc369group.Paging.PageTable.{
  find_free, allocate_frame, claim_frame, set_frame, init_frame, bring_in, evict_page,
}
use csc369group.Paging.PageTable.Coherent.{
  Safe, returns, exits, bind, IsCoherent, IsSameMap, IsSteady, IsCoherent-same,
}
use csc369group.Paging.PageTable.Eviction.{evict_page-IsVacant}
use csc369group.Paging.PageTable.Fill.{only, unused-IsVacant, filled-IsCoherent}
use csc369group.Paging.PageTable.Policy.{IsSameFrames, IsKept, IsKept-same, IsKept-trans, IsPolicy}
use csc369group.Paging.PageTable.Steps.{
  IsFree, find_free-IsFree, init_frame-IsSameMap, set_frame-place, swap_pagein-IsSameMap,
}

pub IsSameFrames-steady :
    {F : Type 0} (f : ℕ) {m m' : Machine F}
    → m'.memsize ≡ m.memsize
    → m'.coremap ≡ m.coremap
    → IsSameFrames f m m'
IsSameFrames-steady f size same = record {
  memsize = size;
  prev = λ i. ap (λ c. (c i).prev) same;
  next = λ i. ap (λ c. (c i).next) same;
  used = λ i ne. ap (λ c. (c i).in_use) same;
}

module _ (S : SwapFile) {A : Type 0} (fns : Functions S.File A) where
  claim_frame-IsSameFrames : (p f : ℕ) (m : State S) → IsSameFrames f m (claim_frame S fns p f m)
  unfolding claim_frame
  claim_frame-IsSameFrames p f m = record {
    memsize = refl;
    prev = λ i. ground arith;
    next = λ i. ground arith;
    used = λ i ne. ground (arith, ne);
  }

  claim_frame-IsKept : (p f : ℕ) (m : State S) → IsKept p m (claim_frame S fns p f m)
  unfolding claim_frame
  claim_frame-IsKept p f m = record {
    memsize = refl;
    directory = refl;
    tables = refl;
    quiet = λ q ne v o. (v, o);
  }

  claim_frame-place :
      (p f : ℕ) (m : State S) → ((claim_frame S fns p f m).ptes p).swap_off ≡ (m.ptes p).swap_off
  unfolding claim_frame
  claim_frame-place p f m = refl

  set_frame-IsKept : (p f : ℕ) (m : State S) → IsKept p m (set_frame S fns p f m)
  unfolding set_frame
  set_frame-IsKept p f m = record {
    memsize = refl;
    directory = refl;
    tables = refl;
    quiet = λ q ne v o. (ground arith, ground arith);
  }

  -- The entry after `set_frame`.
  set_frame-frame :
      (p f : ℕ) (m : State S) → f < 1048576 → frame_of ((set_frame S fns p f m).ptes p) ≡ f
  unfolding set_frame
  set_frame-frame p f m h = ground (arith, ==_refl p, shifted-frame f h)

  set_frame-memsize : (p f : ℕ) (m : State S) → (set_frame S fns p f m).memsize ≡ m.memsize
  unfolding set_frame
  set_frame-memsize p f m = refl

  set_frame-coremap : (p f : ℕ) (m : State S) → (set_frame S fns p f m).coremap ≡ m.coremap
  unfolding set_frame
  set_frame-coremap p f m = refl

  init_frame-coremap :
      (f vaddr : ℕ) (m : State S) → (init_frame S fns f vaddr m).coremap ≡ m.coremap
  unfolding init_frame
  init_frame-coremap f vaddr m = refl

  set_frame-valid : (p f : ℕ) (m : State S) → is_valid ((set_frame S fns p f m).ptes p) ≡ false
  unfolding set_frame
  set_frame-valid p f m = ground (arith, ==_refl p, shifted-valid f)

  -- The pages of the other frames stay as they are while a frame is evicted.
  evicted-IsKept :
      (p f : ℕ) {m m' : State S}
      → IsCoherent (λ _. false) m
      → f < m.memsize
      → (m.coremap f).in_use ≡ true
      → IsSteady m m'
      → ((r : ℕ) → r ≢ (m.coremap f).pte → m'.ptes r ≡ m.ptes r)
      → IsKept p m m'
  evicted-IsKept p f {m} {m'} v inside used steady others = record {
    memsize = steady.memsize;
    directory = steady.directory;
    tables = steady.tables;
    quiet = λ q ne invalid away.
        let differs : q ≢ (m.coremap f).pte =
          λ e. ground (arith, v.framed f inside used, invalid, e) in
        let same = others q differs in (ap is_valid same ∙ invalid, ap is_onswap same ∙ away);
  }

module _ (S : SwapFile) {A : Type 0} (fns : Functions S.File A) {Inv : State S → A → Type 0}
    {Taken : ℕ → State S → A → Type 0} (policy : IsPolicy fns Inv Taken) where
  -- The frame is the page's once `set_frame` has written it to the entry.
  IsAllocated : (p : ℕ) (m : State S) → ℕ × State S × A → Type 0
  IsAllocated p m (f, m', a') =
      IsCoherent (only p) (set_frame S fns p f m')
      × ((m'.ptes p).swap_off ≡ (m.ptes p).swap_off)
      × (f < 1048576)
      × Taken f m' a'
      × IsKept p m m'

  allocated-place :
      (p f : ℕ) (m m' : State S) (a : A)
      → IsAllocated p m (f, m', a)
      → (m'.ptes p).swap_off ≡ (m.ptes p).swap_off
  unfolding IsAllocated
  allocated-place p f m m' a got = got.1

  allocate_evicted :
      (p f : ℕ) (m m1 : State S) (a1 : A)
      → IsCoherent (λ _. false) m
      → is_valid (m.ptes p) ≡ false
      → f < m.memsize
      → (m.coremap f).in_use ≡ true
      → IsSameMap m m1
      → Taken f m1 a1
      → Safe (IsAllocated p m) (do m ← evict_page S fns f m1; ok (f, claim_frame S fns p f m, a1))
  unfolding IsAllocated
  allocate_evicted p f m m1 a1 v invalid inside used same taken =
      let v1 = IsCoherent-same same v in
      let inside1 : f < m1.memsize = rw same.memsize inside in
      let used1 : (m1.coremap f).in_use ≡ true = same.used f ∙ used in
      bind (evict_page-IsVacant S fns m1 f v1 inside1 used1) λ m2 (vacant, steady, others).
        let differs : p ≢ (m1.coremap f).pte =
          λ e. ground (arith, v1.framed f inside1 used1, same.valid p, invalid, e) in
        let kept =
          IsKept-trans (IsKept-same p same)
            (evicted-IsKept S fns p f v1 inside1 used1 steady others) in
        returns (
          filled-IsCoherent S fns p f vacant
              (ap is_valid (others p differs) ∙ same.valid p ∙ invalid),
          claim_frame-place S fns p f m2 ∙ ap (λ e. e.swap_off) (others p differs) ∙ same.place p,
          omega (arith, vacant.inside, vacant.small),
          policy.waits f m2 (claim_frame S fns p f m2) a1 (claim_frame-IsSameFrames S fns p f m2)
              (policy.waits f m1 m2 a1 (IsSameFrames-steady f steady.memsize steady.coremap) taken),
          IsKept-trans kept (claim_frame-IsKept S fns p f m2),
        )

  allocate_frame-IsAllocated :
      (p : ℕ) (m : State S) (a : A)
      → IsCoherent (λ _. false) m
      → is_valid (m.ptes p) ≡ false
      → Inv m a
      → Safe (IsAllocated p m) (allocate_frame S fns p m a)
  unfolding allocate_frame IsAllocated
  allocate_frame-IsAllocated p m a v invalid inv =
      let free : IsFree m.coremap 0 m.memsize (find_free m.memsize 0 m.coremap) =
        subst (λ b. IsFree m.coremap 0 b (find_free m.memsize 0 m.coremap)) (omega arith)
          (find_free-IsFree m.memsize 0 m.coremap) in
      elim (Option-cases (find_free m.memsize 0 m.coremap)) [
        | inl none_free ↦
            let all = subst (IsFree m.coremap 0 m.memsize) none_free free in
            rw (none_free, allocate_frame)
              (bind (policy.evicts m a inv v (λ i lt. all i (omega arith) lt))
                λ (f, m1, a1) (inside, same, taken).
                  allocate_evicted p f m m1 a1 v invalid inside (all f (omega arith) inside) same
                    taken)
        | inr (f, found) ↦
            let unused = subst (IsFree m.coremap 0 m.memsize) found free in
            rw (found, allocate_frame)
              (returns (
                filled-IsCoherent S fns p f (unused-IsVacant S fns f v unused.0 unused.1) invalid,
                claim_frame-place S fns p f m,
                omega (arith, unused.0, v.small),
                policy.waits f m (claim_frame S fns p f m) a (claim_frame-IsSameFrames S fns p f m)
                    (policy.takes f m a inv unused.0 unused.1),
                claim_frame-IsKept S fns p f m,
              ))
      ]

  unfoldable pub IsMapped : (p : ℕ) (m : State S) → State S × A → Type 0
  IsMapped p m (m', a') =
      IsCoherent (only p) m'
      × Taken (frame_of (m'.ptes p)) m' a'
      × (is_valid (m'.ptes p) ≡ false)
      × IsKept p m m'

  -- The page is written to the frame, or read into it, and the entry has the frame's number already.
  filled-IsMapped :
      (p f : ℕ) (m m1 m2 : State S) (a : A)
      → IsAllocated p m (f, m1, a)
      → IsSameMap (set_frame S fns p f m1) m2
      → m2.coremap ≡ (set_frame S fns p f m1).coremap
      → IsMapped p m (m2, a)
  unfolding IsAllocated IsMapped
  filled-IsMapped p f m m1 m2 a (v1, place, small, taken, kept) same frames =
      let ready = set_frame S fns p f m1 in
      let number : frame_of (m2.ptes p) ≡ f = same.frame p ∙ set_frame-frame S fns p f m1 small in
      let size : m2.memsize ≡ m1.memsize = same.memsize ∙ set_frame-memsize S fns p f m1 in
      (
        IsCoherent-same same v1,
        rw number (
            policy.waits f m1 m2 a
              (IsSameFrames-steady f size (frames ∙ set_frame-coremap S fns p f m1)) taken),
        same.valid p ∙ set_frame-valid S fns p f m1,
        IsKept-trans kept (IsKept-trans (set_frame-IsKept S fns p f m1) (IsKept-same p same)),
      )

  pub bring_in-IsMapped :
      (p vaddr : ℕ) (m : State S) (a : A)
      → IsCoherent (λ _. false) m
      → is_valid (m.ptes p) ≡ false
      → Inv m a
      → Safe (IsMapped p m) (bring_in S fns p vaddr m a)
  unfolding bring_in
  bring_in-IsMapped p vaddr m a v invalid inv = elim (Bool-cases (is_onswap (m.ptes p))) [
    | inl away ↦ rw away (
        bind (allocate_frame-IsAllocated p m a v invalid inv) λ (f, m1, a1) got.
          let ready = set_frame S fns p f m1 in
          let placed : is_invalid_swap (ready.ptes p).swap_off ≡ false =
            ap is_invalid_swap (set_frame-place S fns p f m1 ∙ allocated-place p f m m1 a1 got)
            ∙ v.saved p away in
          bind (swap_pagein-IsSameMap S f (ready.ptes p).swap_off ready placed)
            λ (status, m2) (same, frames). elim (Bool-cases (is status 0)) [
              | inl good ↦ rw good (returns (filled-IsMapped p f m m1 m2 a1 got same frames))
              | inr bad ↦ rw bad (exits 1)
            ])
    | inr fresh ↦ rw fresh (
        bind (allocate_frame-IsAllocated p m a v invalid inv) λ (f, m1, a1) got.
          let ready = set_frame S fns p f m1 in
          returns (
            filled-IsMapped p f m m1 (init_frame S fns f vaddr ready) a1 got
              (init_frame-IsSameMap S fns f vaddr ready) (init_frame-coremap S fns f vaddr ready)))
  ]
