-- ===== src/Paging/Policies.antt =====
-- a2/starter/fifo.c, rand.c and clock.c: the algorithms as `find_physpage` needs them.
use csc369group.Prelude.{
  ℕ, zero, suc, ◌+◌, ◌%◌, ◌≤◌, ◌<◌, ◌≡◌, ◌≢◌, refl, true, false, arith, eq_or_ne, subst, ==_refl,
  Bool-cases, inl, inr, ap, ◌∙◌,
}
use native.Mathlib.Nat.{mod-add-mod, mod-eq_of_lt, add-mod_right}
use csc369group.Bits.{bit}
use csc369group.Bits.Laws.{bit-set_bit, bit-toggle_bit}
use csc369group.Outcome
use csc369group.Outcome.{Outcome, ok, exit, abort, ◌>>=◌}
use csc369group.Paging.Machine.{Pte, is_valid, is_ref, set_flag, toggle_flag, frame_of, Machine}
use csc369group.Paging.Machine.Flags.{set_bit-frame, toggle_bit-frame}
use csc369group.Paging.Fifo.{fifo_evict, fifo_ref, fifo, rand_evict, rand_ref, rand}
use csc369group.Paging.Clock.{at_hand, put_pte, clock_loop, clock_evict, clock_ref, clock}
use csc369group.Paging.PageTable.Coherent.{
  Safe, returns, IsSameMap, IsSameMap-refl, IsSameMap-trans,
}
use csc369group.Paging.PageTable.Policy.{IsPolicy}

-- An index of a frame.
abbrev pub IsFrame : ℕ → ℕ → Type 0
IsFrame memsize i = i < memsize

-- The data of fifo.c and clock.c points at a frame, whatever frame has been chosen.
abbrev pub IsFrameOf : {F : Type 0} → Machine F → ℕ → Type 0
IsFrameOf m i = IsFrame m.memsize i

abbrev pub IsTakenOf : {F : Type 0} → ℕ → Machine F → ℕ → Type 0
IsTakenOf f m i = IsFrame m.memsize i

abbrev pub HasFrames : {F : Type 0} → Machine F → ℕ → Type 0
HasFrames m calls = 0 < m.memsize

abbrev pub HasFramesFor : {F : Type 0} → ℕ → Machine F → ℕ → Type 0
HasFramesFor f m calls = 0 < m.memsize

mod-lt_self : (a n : ℕ) → 0 < n → a % n < n
mod-lt_self a n h = grind arith

next-IsFrame : (n i : ℕ) → IsFrame n i → IsFrame n ((i + 1) % n)
next-IsFrame n i h = omega arith

module _ {F : Type 0} where
  -- fifo.c meets `IsPolicy`: with its front below `memsize`, eviction and reference return,
  -- eviction gives a frame below `memsize`, both leave the mapping of pages to frames and swap
  -- places alone, and the front stays below `memsize`.
  pub fifo-IsPolicy : IsPolicy {F = F} fifo IsFrameOf IsTakenOf
  unfolding fifo_evict fifo_ref
  fifo-IsPolicy = record {
    evicts = λ m front inside v all.
        returns (inside, IsSameMap-refl m, next-IsFrame m.memsize front inside);
    takes = λ f m front inside lt unused. inside;
    enters = λ p m front inside invalid v. returns (IsSameMap-refl m, inside);
    refs = λ p m front inside valid v. returns (IsSameMap-refl m, inside);
    stays = λ m m' front size frames inside. rw size inside;
    waits = λ f m m' front s inside. rw s.memsize inside;
  }

  -- Writing back an entry of which only PG_REF has changed.
  put_flag-IsSameMap :
      (m : Machine F) (p : ℕ) (e : Pte)
      → ((k : ℕ) → k ≢ 2 → bit k e.frame ≡ bit k (m.ptes p).frame)
      → frame_of e ≡ frame_of (m.ptes p)
      → e.swap_off ≡ (m.ptes p).swap_off
      → IsSameMap m (put_pte m p e)
  put_flag-IsSameMap m p e bits frame place = record {
    memsize = refl;
    swapmap = refl;
    directory = refl;
    tables = refl;
    used = λ i. refl;
    entry = λ i. refl;
    valid = λ q. ground (arith, bits 0);
    onswap = λ q. ground (arith, bits 3);
    frame = λ q. ground (arith, frame);
    place = λ q. ground (arith, place);
  }

  toggled-IsSameMap : (m : Machine F) (p : ℕ) → IsSameMap m (put_pte m p (toggle_flag 2 (m.ptes p)))
  toggled-IsSameMap m p =
      put_flag-IsSameMap m p (toggle_flag 2 (m.ptes p))
        (λ k h. ground (arith, bit-toggle_bit k 2 (m.ptes p).frame, h))
        (toggle_bit-frame 2 (m.ptes p).frame (omega arith)) refl

  set-IsSameMap : (m : Machine F) (p : ℕ) → IsSameMap m (put_pte m p (set_flag 2 (m.ptes p)))
  set-IsSameMap m p =
      put_flag-IsSameMap m p (set_flag 2 (m.ptes p))
        (λ k h. ground (arith, bit-set_bit k 2 (m.ptes p).frame, h))
        (set_bit-frame 2 (m.ptes p).frame (omega arith)) refl

  -- The frame that the hand stops at: it has not been referenced since the hand was here last.
  unfoldable pub IsVictim : (m : Machine F) → ℕ × Machine F × ℕ → Type 0
  IsVictim m (f, m', hand) =
      (f < m.memsize) × (hand ≡ f) × (is_ref (m'.ptes (m'.coremap f).pte) ≡ false) × IsSameMap m m'

  -- The hand started at `start` and has passed `k` frames, each of which is unreferenced now.
  IsPassed : (start k : ℕ) → Machine F → Type 0
  IsPassed start k m =
      (j : ℕ) → j < k → is_ref (m.ptes (m.coremap ((start + j) % m.memsize)).pte) ≡ false

  IsPassed-step :
      (start k : ℕ) (m : Machine F)
      → IsPassed start k m
      → let p = at_hand m ((start + k) % m.memsize) in
        is_ref (m.ptes p) ≡ true → IsPassed start (suc k) (put_pte m p (toggle_flag 2 (m.ptes p)))
  unfolding IsPassed
  IsPassed-step start k m passed seen j h =
      let p = at_hand m ((start + k) % m.memsize) in
      elim (eq_or_ne j k) [
        | inl same ↦ rw same (ground (arith, ==_refl p, bit-toggle_bit 2 2 (m.ptes p).frame, seen))
        | inr differ ↦
            ground (arith, passed j (omega arith), bit-toggle_bit 2 2 (m.ptes p).frame, seen)
      ]

  -- A hand that has passed every frame is back at its start, which is unreferenced.
  not_round :
      (start k : ℕ) (m : Machine F)
      → start < m.memsize
      → k ≤ m.memsize
      → IsPassed start k m
      → is_ref (m.ptes (at_hand m ((start + k) % m.memsize))) ≡ true
      → k < m.memsize
  unfolding IsPassed
  not_round start k m inside le passed seen = elim (eq_or_ne k m.memsize) [
    | inl full ↦
        let back : (start + k) % m.memsize ≡ (start + 0) % m.memsize =
          rw full (add-mod_right start m.memsize ∙ ap (λ s. s % m.memsize) (omega arith)) in
        absurd (ground (arith, passed 0 (omega arith), back, seen))
    | inr differ ↦ omega arith
  ]

  none-IsPassed : (start : ℕ) (m : Machine F) → IsPassed start 0 m
  unfolding IsPassed
  none-IsPassed start m j h = absurd (omega arith)

  IsVictim-here :
      (m : Machine F) (hand : ℕ)
      → hand < m.memsize
      → is_ref (m.ptes (at_hand m hand)) ≡ false
      → IsVictim m (hand, m, hand)
  unfolding IsVictim
  IsVictim-here m hand inside unseen = (inside, refl, unseen, IsSameMap-refl m)

  IsVictim-same :
      (m m1 : Machine F)
      → IsSameMap m m1
      → (f : ℕ) (m2 : Machine F) (h : ℕ) → IsVictim m1 (f, m2, h)
      → IsVictim m (f, m2, h)
  unfolding IsVictim
  IsVictim-same m m1 s f m2 h (inside, at, unseen, same) =
      (subst (λ n. f < n) s.memsize inside, at, unseen, IsSameMap-trans s same)

  clock_loop-IsVictim :
      (r start k : ℕ) (m : Machine F)
      → start < m.memsize
      → k + r ≡ m.memsize + 1
      → k ≤ m.memsize
      → IsPassed start k m
      → Outcome.Returns (IsVictim m) (clock_loop r m ((start + k) % m.memsize))
  unfolding clock_loop
  clock_loop-IsVictim zero start k m inside fuel le passed = absurd (omega arith)
  clock_loop-IsVictim (suc r) start k m inside fuel le passed =
      let hand = (start + k) % m.memsize in
      let p = at_hand m hand in
      elim (Bool-cases (is_ref (m.ptes p))) [
        | inl seen ↦
            let m1 = put_pte m p (toggle_flag 2 (m.ptes p)) in
            let short_of : k < m.memsize = not_round start k m inside le passed seen in
            let next : (hand + 1) % m.memsize ≡ (start + suc k) % m.memsize =
              mod-add-mod (start + k) m.memsize 1 ∙ ap (λ s. s % m.memsize) (omega arith) in
            rw (seen, next)
              (Outcome.imply
                (clock_loop-IsVictim r start (suc k) m1 inside (omega arith) (omega arith)
                  (IsPassed-step start k m passed seen))
                λ (f, m2, h) v. IsVictim-same m m1 (toggled-IsSameMap m p) f m2 h v)
        | inr unseen ↦ rw unseen (Outcome.returns (IsVictim-here m hand (omega arith) unseen))
      ]

  -- With the hand below `memsize`, `clock_evict` returns: `memsize` + 1 rounds of its loop are
  -- enough. The frame it gives is below `memsize`, the hand is there, and its page is not
  -- referenced any more. The size of the memory, the swap bitmap, the use and the page of each
  -- frame, and the flags PG_VALID and PG_ONSWAP, the frame and the place of each entry are as
  -- before.
  pub clock_evict-IsVictim :
      (m : Machine F) (hand : ℕ)
      → hand < m.memsize
      → Outcome.Returns (IsVictim m) (clock_evict m hand)
  unfolding clock_evict
  clock_evict-IsVictim m hand inside =
      let start : (hand + 0) % m.memsize ≡ hand =
        ap (λ s. s % m.memsize) (omega arith) ∙ mod-eq_of_lt inside in
      subst (λ h. Outcome.Returns (IsVictim m) (clock_loop (m.memsize + 1) m h)) start
        (clock_loop-IsVictim (m.memsize + 1) hand 0 m inside (omega arith) (omega arith)
          (none-IsPassed hand m))

  evicts_of_victim :
      (m : Machine F) (hand : ℕ) {r : Outcome (ℕ × Machine F × ℕ)}
      → Outcome.Returns (IsVictim m) r
      → Safe (λ (f, m', h). (f < m.memsize) × IsSameMap m m' × IsFrame m'.memsize h) r
  unfolding IsVictim
  evicts_of_victim m hand (Outcome.returns (inside, at, unseen, same)) =
      returns (inside, same, rw (at, same.memsize) inside)

  clock_ref_lem :
      (p : ℕ) (m : Machine F) (hand : ℕ)
      → IsFrame m.memsize hand
      → Safe (λ (m', h). IsSameMap m m' × IsFrame m'.memsize h) (clock_ref p m hand)
  unfolding clock_ref
  clock_ref_lem p m hand inside = elim (Bool-cases (is_valid (m.ptes p))) [
    | inl valid ↦ elim (Bool-cases (is_ref (m.ptes p))) [
      | inl seen ↦ rw (valid, seen) (returns (IsSameMap-refl m, inside))
      | inr unseen ↦ rw (valid, unseen) (returns (set-IsSameMap m p, inside))
    ]
    | inr invalid ↦ elim (Bool-cases (is_ref (m.ptes (at_hand m hand)))) [
      | inl seen ↦ rw (invalid, seen) (returns (IsSameMap-refl m, inside))
      | inr unseen ↦
          rw (invalid, unseen)
            (returns (set-IsSameMap m (at_hand m hand), next-IsFrame m.memsize hand inside))
    ]
  ]

  -- clock.c meets `IsPolicy`: with its hand below `memsize`, eviction and reference return,
  -- eviction gives a frame below `memsize`, both leave the mapping of pages to frames and swap
  -- places alone, and the hand stays below `memsize`.
  pub clock-IsPolicy : IsPolicy {F = F} clock IsFrameOf IsTakenOf
  clock-IsPolicy = record {
    evicts = λ m hand inside v all. evicts_of_victim m hand (clock_evict-IsVictim m hand inside);
    takes = λ f m hand inside lt unused. inside;
    enters = λ p m hand inside invalid v. clock_ref_lem p m hand inside;
    refs = λ p m hand inside valid v. clock_ref_lem p m hand inside;
    stays = λ m m' hand size frames inside. rw size inside;
    waits = λ f m m' hand s inside. rw s.memsize inside;
  }

  -- rand.c meets `IsPolicy` where there is a frame at all, whatever `random` gives.
  pub rand-IsPolicy : (random : ℕ → ℕ) → IsPolicy {F = F} (rand random) HasFrames HasFramesFor
  unfolding rand_evict rand_ref
  rand-IsPolicy random = record {
    evicts = λ m calls some_frame v all.
        returns (mod-lt_self (random calls) m.memsize some_frame, IsSameMap-refl m, some_frame);
    takes = λ f m calls some_frame lt unused. some_frame;
    enters = λ p m calls some_frame invalid v. returns (IsSameMap-refl m, some_frame);
    refs = λ p m calls some_frame valid v. returns (IsSameMap-refl m, some_frame);
    stays = λ m m' calls size frames some_frame. rw size some_frame;
    waits = λ f m m' calls s some_frame. rw s.memsize some_frame;
  }
