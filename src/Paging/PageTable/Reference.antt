-- ===== src/Paging/PageTable/Reference.antt =====
-- a2/starter/pagetable.c: `find_physpage` from the entry on keeps coremap and page tables inverse to
-- each other, under any replacement algorithm that meets the interface.
use csc369group.Prelude.{
  ℕ, ◌<◌, ◌≡◌, refl, Bool, true, false, arith, Bool-cases, inl, inr, ◌⊎◌, ◌∙◌, subst, sym,
}
use csc369group.Outcome.{ok, ◌>>=◌}
use csc369group.Paging.Machine.{is_valid, frame_of, SwapFile, Functions}
use csc369group.Paging.Swap.{State}
use csc369group.Paging.PageTable.{count, mark_access, mark_present, reference}
use csc369group.Paging.PageTable.Coherent.{
  Safe, returns, bind, IsCoherent, IsSameMap, IsCoherent-same,
}
use csc369group.Paging.PageTable.Fill.{
  only, weaken, mark_access-IsSameMap, mark_access-coremap, mark_present-valid,
  mark_present-IsCoherent,
}
use csc369group.Paging.PageTable.Policy.{IsKept, IsKept-same, IsKept-trans, IsPolicy}
use csc369group.Paging.PageTable.Allocation.{IsMapped, bring_in-IsMapped, IsSameFrames-steady}

module _ (S : SwapFile) {A : Type 0} (fns : Functions S.File A) {Inv : State S → A → Type 0}
    {Taken : ℕ → State S → A → Type 0} (policy : IsPolicy fns Inv Taken) where
  -- The entry has a frame, which the algorithm knows or is about to be told of.
  IsReady : (p : ℕ) (m : State S) → State S × A → Type 0
  IsReady p m (m', a') =
      IsCoherent (only p) m'
      × IsKept p m m'
      × (((is_valid (m'.ptes p) ≡ true) × Inv m' a')
          ⊎ ((is_valid (m'.ptes p) ≡ false) × Taken (frame_of (m'.ptes p)) m' a'))

  counted :
      (hits misses refs : ℕ) {m : State S} {extra : ℕ → Bool}
      → IsCoherent extra m
      → IsCoherent extra (record m { hit_count = hits; miss_count = misses; ref_count = refs })
  counted hits misses refs v = record {
    small = v.small;
    framed = v.framed;
    owned = v.owned;
    saved = v.saved;
    swap_valid = v.swap_valid;
  }

  counted-IsKept :
      (hits misses refs p : ℕ) (m m' : State S)
      → IsKept p m m'
      → IsKept p m (record m' { hit_count = hits; miss_count = misses; ref_count = refs })
  counted-IsKept hits misses refs p m m' k = record {
    memsize = k.memsize;
    directory = k.directory;
    tables = k.tables;
    quiet = k.quiet;
  }

  hit-IsReady :
      (hits misses refs p : ℕ) (m : State S) (a : A)
      → IsCoherent (λ _. false) m
      → is_valid (m.ptes p) ≡ true
      → Inv m a
      → IsReady p m (record m { hit_count = hits; miss_count = misses; ref_count = refs }, a)
  unfolding IsReady
  hit-IsReady hits misses refs p m a v hit inv = (
    counted hits misses refs (weaken S fns p hit v),
    record { memsize = refl; directory = refl; tables = refl; quiet = λ q ne w o. (w, o) },
    inl (hit, policy.stays m _ a refl refl inv),
  )

  miss-IsReady :
      (hits misses refs p : ℕ) (m m' : State S) (a : A)
      → IsMapped S fns policy p m (m', a)
      → IsReady p m (record m' { hit_count = hits; miss_count = misses; ref_count = refs }, a)
  unfolding IsReady IsMapped
  miss-IsReady hits misses refs p m m' a (v, taken, invalid, kept) = (
    counted hits misses refs v,
    counted-IsKept hits misses refs p m m' kept,
    inr (
      invalid,
      policy.waits (frame_of (m'.ptes p)) m' _ a (IsSameFrames-steady _ refl refl) taken,
    ),
  )

  -- The result is the frame that `find_physpage` returns; `m` is the state before.
  unfoldable pub IsReferenced : (p : ℕ) (m : State S) → ℕ × State S × A → Type 0
  IsReferenced p m (f, m', a') =
      IsCoherent (λ _. false) m'
      × (f < m'.memsize)
      × ((m'.coremap f).pte ≡ p)
      × (frame_of (m'.ptes p) ≡ f)
      × (is_valid (m'.ptes p) ≡ true)
      × Inv m' a'
      × IsKept p m m'

  mark_present-IsKept : (p : ℕ) (m : State S) → IsKept p m (mark_present S fns p m)
  unfolding mark_present
  mark_present-IsKept p m = record {
    memsize = refl;
    directory = refl;
    tables = refl;
    quiet = λ q ne v o. (ground arith, ground arith);
  }

  mark_present-stays : (p : ℕ) (m : State S) (a : A) → Inv m a → Inv (mark_present S fns p m) a
  unfolding mark_present
  mark_present-stays p m a inv = policy.stays m _ a refl refl inv

  present-IsReferenced :
      (p : ℕ) (m0 m : State S) (a : A)
      → IsCoherent (only p) m
      → Inv m a
      → IsKept p m0 m
      → IsReferenced p m0 (frame_of ((mark_present S fns p m).ptes p), mark_present S fns p m, a)
  unfolding IsReferenced
  present-IsReferenced p m0 m a v inv kept =
      let w = mark_present-IsCoherent S fns p v in
      let valid = mark_present-valid S fns p m in
      let own = w.owned p (ground (arith, valid)) in
      (
        w,
        own.0,
        own.2,
        refl,
        valid,
        mark_present-stays p m a inv,
        IsKept-trans kept (mark_present-IsKept p m),
      )

  -- The call of the algorithm's `ref`.
  told :
      (p type : ℕ) (m : State S) (a : A)
      → IsCoherent (only p) m
      → ((is_valid (m.ptes p) ≡ true) × Inv m a)
        ⊎ ((is_valid (m.ptes p) ≡ false) × Taken (frame_of (m.ptes p)) m a)
      → Safe
          (λ (m', a'). IsSameMap (mark_access S fns p type m) m' × Inv m' a')
          (fns.ref p (mark_access S fns p type m) a)
  told p type m a v (inl (hit, inv)) =
      let same = mark_access-IsSameMap S fns p type m in
      policy.refs p (mark_access S fns p type m) a
        (policy.stays m _ a same.memsize (mark_access-coremap S fns p type m) inv)
        (same.valid p ∙ hit) (IsCoherent-same same v)
  told p type m a v (inr (miss, taken)) =
      let same = mark_access-IsSameMap S fns p type m in
      policy.enters p (mark_access S fns p type m) a
        (subst (λ f. Taken f (mark_access S fns p type m) a) (sym (same.frame p))
          (policy.waits (frame_of (m.ptes p)) m _ a
            (IsSameFrames-steady _ same.memsize (mark_access-coremap S fns p type m)) taken))
        (same.valid p ∙ miss) (IsCoherent-same same v)

  finish :
      (p type : ℕ) (m0 m : State S) (a : A)
      → IsReady p m0 (m, a)
      → Safe (IsReferenced p m0) (
          fns.ref p (mark_access S fns p type m) a >>= λ (m, a).
          ok (frame_of ((mark_present S fns p m).ptes p), mark_present S fns p m, a))
  unfolding IsReady
  finish p type m0 m a (v, kept, ready) =
      let same = mark_access-IsSameMap S fns p type m in
      bind (told p type m a v ready) λ (m1, a1) (same1, inv1). returns (
        present-IsReferenced p m0 m1 a1 (IsCoherent-same same1 (IsCoherent-same same v)) inv1
          (IsKept-trans kept (IsKept-trans (IsKept-same p same) (IsKept-same p same1))))

  -- A reference through an entry, under an algorithm that meets `IsPolicy`, in a state where the
  -- coremap and the valid entries are inverse to each other: no assertion fails and no array is
  -- left. Either the program exits, or coremap and entries are so again, the result is a frame
  -- below `memsize` that the coremap gives to this entry, which is valid and names the frame, the algorithm's own
  -- invariant holds again, the page directory is as before, and no other entry that was neither
  -- valid nor swapped out is so now.
  pub reference-IsReferenced :
      (p vaddr type : ℕ) (m : State S) (a : A)
      → IsCoherent (λ _. false) m
      → Inv m a
      → Safe (IsReferenced p m) (reference S fns p vaddr type m a)
  unfolding reference
  reference-IsReferenced p vaddr type m a v inv = elim (Bool-cases (is_valid (m.ptes p))) [
    | inl hit ↦
        rw (hit, reference)
          (finish p type m
            (record m { hit_count = count m.hit_count; ref_count = count m.ref_count }) a
            (hit-IsReady (count m.hit_count) m.miss_count (count m.ref_count) p m a v hit inv))
    | inr miss ↦
        rw (miss, reference)
          (bind
            (bind {Q = λ (m1, a1). IsReady p m (record m1 { ref_count = count m1.ref_count }, a1)}
              (bring_in-IsMapped S fns policy p vaddr m a v miss inv)
              λ (m1, a1) got. returns (
                miss-IsReady m1.hit_count (count m1.miss_count) (count m1.ref_count) p m m1 a1 got))
            λ (m1, a1) ready.
              finish p type m (record m1 { ref_count = count m1.ref_count }) a1 ready)
  ]
