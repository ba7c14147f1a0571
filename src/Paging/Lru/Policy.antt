-- ===== src/Paging/Lru/Policy.antt =====
-- a2/starter/lru.c: the algorithm as `find_physpage` needs it, in a memory of one frame or of more.
use csc369group.Prelude.{
  ℕ, ◌<◌, ◌≤◌, ◌≡◌, ◌≢◌, refl, Bool, true, false, Option, none, some, List, [], ◌∷◌, eq_or_ne,
  arith, ◌==◌, if◌then◌else◌, inl, inr, ◌⊎◌, ap, ◌∙◌, sym, subst,
}
use csc369group.Outcome
use csc369group.Outcome.{Outcome, ok, ◌>>=◌}
use csc369group.Paging.Machine.{is_valid, frame_of, Machine}
use csc369group.Paging.PageTable.Coherent
use csc369group.Paging.PageTable.Coherent.{Safe, returns, IsSameMap, IsSameMap-refl, IsCoherent}
use csc369group.Paging.PageTable.Policy.{IsPolicy, IsSameFrames}
use csc369group.Paging.PageTable.Fill.{only}
use csc369group.Paging.Lru.{
  Stack, Frames, points, touch, push_new, lru_ref, lru_evict, lru, lru_init,
}
use csc369group.Paging.Lru.Links.{has}
use csc369group.Paging.Lru.Order.{IsOrder, moved, IsRelinked}
use csc369group.Paging.Lru.Replacement.{touch-IsMoved}
use csc369group.Paging.Lru.Ranks.{
  IsRanked, two_frames, has-first, lru_evict-IsRanked, moved-IsRanked, IsOrder-same,
  IsRelinked-IsSameMap, of_Returns, points-same,
}

-- A memory of one frame: the stack is empty or has the frame.
pub record IsLone (full : Bool) (s : Stack) : Type 0 where
  pub size : s.size ≡ (if full then 1 else 0)
  pub top : full ≡ true → s.top ≡ some 0

points-other : (f i : ℕ) → points (some f) i ≡ false → i ≢ f
points-other f i h e = ground (arith, e)

-- In a memory of one frame lru_evict never unlinks it.
touch-IsLone :
    (full present : Bool) (c : Frames) (s : Stack)
    → IsLone full s
    → Outcome.Returns (λ (c', s'). IsLone true s' × IsRelinked c c') (touch 1 0 present c s)
unfolding touch push_new
touch-IsLone false present c s l = rw l.size (
    Outcome.returns (
      record { size = ground (arith, l.size); top = λ h. refl },
      λ i. (ground arith, ground arith),
    ))
touch-IsLone true true c s l =
    rw (l.size, l.top refl)
      (Outcome.returns (record { size = refl; top = λ h. refl }, λ i. (refl, refl)))
touch-IsLone true false c s l =
    rw (l.size, l.top refl)
      (Outcome.returns (record { size = refl; top = λ h. refl }, λ i. (ground arith, ground arith)))

touch_alone :
    (n f : ℕ) (full present : Bool) (c : Frames) (s : Stack)
    → n ≡ 1
    → f ≡ 0
    → IsLone full s
    → Outcome.Returns (λ (c', s'). IsLone true s' × IsRelinked c c') (touch n f present c s)
touch_alone n f full present c s one zeroth l =
    let P : Outcome (Frames × Stack) → Type 0 =
      Outcome.Returns (λ (c', s'). IsLone true s' × IsRelinked c c') in
    subst (λ k. P (touch k f present c s)) (sym one)
      (subst (λ k. P (touch 1 k present c s)) (sym zeroth) (touch-IsLone full present c s l))

module _ {F : Type 0} where
  -- Between references the stack is a list of the frames in use. A memory of one frame has no list.
  pub IsStacked : Machine F → Stack → Type 0
  IsStacked m s =
      ((m.memsize ≡ 1) × IsLone (m.coremap 0).in_use s)
      ⊎ ((2 ≤ m.memsize) × (xs : List ℕ) × IsRanked none m s xs)

  -- Frame `f` has been chosen for a page that is about to be referenced.
  pub IsChosen : ℕ → Machine F → Stack → Type 0
  IsChosen f m s =
      ((m.memsize ≡ 1) × (f ≡ 0) × (full : Bool) × IsLone full s)
      ⊎ ((2 ≤ m.memsize) × (xs : List ℕ) × IsRanked (some f) m s xs)

  evicts-IsChosen :
      (m : Machine F) (s : Stack)
      → IsStacked m s
      → IsCoherent (λ _. false) m
      → ((i : ℕ) → i < m.memsize → (m.coremap i).in_use ≡ true)
      → Safe (λ (f, m', s'). (f < m.memsize) × IsSameMap m m' × IsChosen f m' s') (lru_evict m s)
  unfolding lru_evict IsStacked IsChosen
  evicts-IsChosen m s (inl (one, l)) v all =
      let size : s.size ≡ 1 = l.size ∙ ap (λ b. if b then 1 else 0) (all 0 (omega arith)) in
      let single : (s.size == 1) ≡ true = ground arith in
      rw single (returns (omega arith, IsSameMap-refl m, inl (one, refl, (m.coremap 0).in_use, l)))
  evicts-IsChosen m s (inr (le, xs, r)) v all =
      let (b, n, rest, e) = two_frames m s xs r le all in
      let r' : IsRanked none m s (b ∷ n ∷ rest) = subst (IsRanked none m s) e r in
      Coherent.imply (lru_evict-IsRanked m s b n rest r' v) λ (f, m', s') (number, same, ranked). (
        rw number (r'.within b (has-first b (n ∷ rest))),
        same,
        inr (
          rw same.memsize le,
          n ∷ rest,
          subst (λ z. IsRanked (some z) m' s' (n ∷ rest)) (sym number) ranked,
        ),
      )

  -- A reference through `p` whose frame is the chosen one or in the order.
  lru_ref-IsMoved :
      (o : Option ℕ) (p : ℕ) (m : Machine F) (s : Stack) (xs : List ℕ)
      → IsRanked o m s xs
      → ((i : ℕ) → (i == frame_of (m.ptes p)) ≡ false → points o i ≡ false)
      → 2 ≤ m.memsize
      → is_valid (m.ptes p) ≡ has (frame_of (m.ptes p)) xs
      → IsCoherent (only p) m
      → Safe
          (λ (m', s'). IsSameMap m m' × IsRanked none m' s' (moved (frame_of (m.ptes p)) xs))
          (lru_ref p m s)
  unfolding lru_ref
  lru_ref-IsMoved o p m s xs r others le present v =
      let f = frame_of (m.ptes p) in
      let own = v.owned p (ground arith) in
      rw present (
        Coherent.bind (of_Returns (touch-IsMoved m.memsize f m.coremap s xs r.order)) λ (c, s') got.
          returns (
            IsRelinked-IsSameMap m c got.1,
            moved-IsRanked o f m s s' c xs r others own.0 own.1 le got,
          ))

  lru_ref-IsStacked :
      (o : Option ℕ) (p : ℕ) (m : Machine F) (s : Stack) (xs : List ℕ)
      → IsRanked o m s xs
      → ((i : ℕ) → (i == frame_of (m.ptes p)) ≡ false → points o i ≡ false)
      → 2 ≤ m.memsize
      → is_valid (m.ptes p) ≡ has (frame_of (m.ptes p)) xs
      → IsCoherent (only p) m
      → Safe (λ (m', s'). IsSameMap m m' × IsStacked m' s') (lru_ref p m s)
  unfolding IsStacked
  lru_ref-IsStacked o p m s xs r others le present v =
      Coherent.imply (lru_ref-IsMoved o p m s xs r others le present v) λ (m', s') (same, ranked).
        (same, inr (rw same.memsize le, moved (frame_of (m.ptes p)) xs, ranked))

  lru_ref-IsLone :
      (full : Bool) (p : ℕ) (m : Machine F) (s : Stack)
      → m.memsize ≡ 1
      → IsLone full s
      → IsCoherent (only p) m
      → Safe (λ (m', s'). IsSameMap m m' × IsStacked m' s') (lru_ref p m s)
  unfolding lru_ref IsStacked
  lru_ref-IsLone full p m s one l v =
      let own = v.owned p (ground arith) in
      let here : frame_of (m.ptes p) ≡ 0 = omega (arith, own.0, one) in
      let used : (m.coremap 0).in_use ≡ true =
        subst (λ f. (m.coremap f).in_use ≡ true) here own.1 in
      Coherent.bind
        (of_Returns (
          touch_alone m.memsize (frame_of (m.ptes p)) full (is_valid (m.ptes p)) m.coremap s one
            here l))
        λ (c, s') (l', links). returns (
          IsRelinked-IsSameMap m c links,
          inl (one, subst (λ b. IsLone b s') (sym ((links 0).0 ∙ used)) l'),
        )

  enters-IsStacked :
      (p : ℕ) (m : Machine F) (s : Stack)
      → IsChosen (frame_of (m.ptes p)) m s
      → is_valid (m.ptes p) ≡ false
      → IsCoherent (only p) m
      → Safe (λ (m', s'). IsSameMap m m' × IsStacked m' s') (lru_ref p m s)
  unfolding IsChosen
  enters-IsStacked p m s (inl (one, zeroth, full, l)) invalid v = lru_ref-IsLone full p m s one l v
  enters-IsStacked p m s (inr (le, xs, r)) invalid v =
      let f = frame_of (m.ptes p) in
      lru_ref-IsStacked (some f) p m s xs r (λ i ne. ground arith) le
        (invalid ∙ sym (r.absent f (ground arith)).0) v

  refs-IsStacked :
      (p : ℕ) (m : Machine F) (s : Stack)
      → IsStacked m s
      → is_valid (m.ptes p) ≡ true
      → IsCoherent (only p) m
      → Safe (λ (m', s'). IsSameMap m m' × IsStacked m' s') (lru_ref p m s)
  unfolding IsStacked
  refs-IsStacked p m s (inl (one, l)) valid v = lru_ref-IsLone (m.coremap 0).in_use p m s one l v
  refs-IsStacked p m s (inr (le, xs, r)) valid v =
      let own = v.owned p (ground arith) in
      lru_ref-IsStacked none p m s xs r (λ i ne. refl) le
        (valid ∙ sym own.1 ∙ r.used (frame_of (m.ptes p)) own.0 refl) v

  takes-IsChosen :
      (f : ℕ) (m : Machine F) (s : Stack)
      → IsStacked m s
      → f < m.memsize
      → (m.coremap f).in_use ≡ false
      → IsChosen f m s
  unfolding IsStacked IsChosen
  takes-IsChosen f m s (inl (one, l)) lt unused = inl (one, omega arith, (m.coremap 0).in_use, l)
  takes-IsChosen f m s (inr (le, xs, r)) lt unused = inr (
    le,
    xs,
    record {
      order = r.order;
      counted = r.counted;
      within = r.within;
      used = λ i lt ne. r.used i lt refl;
      absent = λ i h.
          subst (λ z. (has z xs ≡ false) × (z < m.memsize)) (points-same f i h)
            (sym (r.used f lt refl) ∙ unused, lt);
    },
  )

  stays-IsStacked :
      (m m' : Machine F) (s : Stack)
      → m'.memsize ≡ m.memsize
      → m'.coremap ≡ m.coremap
      → IsStacked m s
      → IsStacked m' s
  unfolding IsStacked
  stays-IsStacked m m' s size frames (inl (one, l)) =
      inl (size ∙ one, subst (λ c. IsLone (c 0).in_use s) (sym frames) l)
  stays-IsStacked m m' s size frames (inr (le, xs, r)) = inr (
    rw size le,
    xs,
    record {
      order = subst (λ c. IsOrder c s xs) (sym frames) r.order;
      counted = r.counted;
      within = λ i h. rw size (r.within i h);
      used = λ i lt ne. ap (λ c. (c i).in_use) frames ∙ r.used i (subst (λ k. i < k) size lt) ne;
      absent = λ i h. ((r.absent i h).0, rw size (r.absent i h).1);
    },
  )

  waits-IsChosen :
      (f : ℕ) (m m' : Machine F) (s : Stack)
      → IsSameFrames f m m'
      → IsChosen f m s
      → IsChosen f m' s
  unfolding IsChosen
  waits-IsChosen f m m' s k (inl (one, zeroth, full, l)) = inl (k.memsize ∙ one, zeroth, full, l)
  waits-IsChosen f m m' s k (inr (le, xs, r)) = inr (
    rw k.memsize le,
    xs,
    record {
      order = IsOrder-same m.coremap m'.coremap k.prev k.next r.order;
      counted = r.counted;
      within = λ i h. rw k.memsize (r.within i h);
      used =
          λ i lt ne. k.used i (points-other f i ne) ∙ r.used i (subst (λ n. i < n) k.memsize lt) ne;
      absent = λ i h. ((r.absent i h).0, rw k.memsize (r.absent i h).1);
    },
  )

  pub lru_init-IsStacked :
      (m : Machine F)
      → 0 < m.memsize
      → ((i : ℕ) → (m.coremap i).in_use ≡ false)
      → IsStacked m lru_init
  unfolding IsStacked
  lru_init-IsStacked m pos unused = elim (eq_or_ne m.memsize 1) [
    | inl one ↦ inl (one, rw (unused 0) (record { size = refl; top = λ h. absurd (ground arith) }))
    | inr more ↦ inr (
      omega arith,
      [],
      record {
        order = record { linked = tt; distinct = tt; bottom = refl; top = refl; sized = refl };
        counted = λ h. absurd (ground arith);
        within = λ i h. absurd (ground arith);
        used = λ i lt ne. unused i;
        absent = λ i h. absurd (ground arith);
      },
    )
  ]

  -- lru.c meets `IsPolicy` for a memory of one frame or of more.
  pub lru-IsPolicy : IsPolicy {F = F} lru IsStacked IsChosen
  lru-IsPolicy = record {
    evicts = evicts-IsChosen;
    takes = takes-IsChosen;
    enters = enters-IsStacked;
    refs = refs-IsStacked;
    stays = stays-IsStacked;
    waits = waits-IsChosen;
  }

-- What a least-recently-used policy is, for frames `xs` that are linked from the one that has waited
-- longest to the latest: a hit moves the frame to the end, a page that is new in the chosen frame puts
-- it there, and eviction takes the first frame away.
pub record IsLeastRecent (F : Type 0) : Type 0 where
  pub policy : IsPolicy {F = F} lru IsStacked IsChosen
  pub hits :
      (p : ℕ) (m : Machine F) (s : Stack) (xs : List ℕ)
      → 2 ≤ m.memsize
      → IsRanked none m s xs
      → is_valid (m.ptes p) ≡ true
      → IsCoherent (only p) m
      → Safe
          (λ (m', s'). IsSameMap m m' × IsRanked none m' s' (moved (frame_of (m.ptes p)) xs))
          (lru_ref p m s)
  pub misses :
      (p : ℕ) (m : Machine F) (s : Stack) (xs : List ℕ)
      → 2 ≤ m.memsize
      → IsRanked (some (frame_of (m.ptes p))) m s xs
      → is_valid (m.ptes p) ≡ false
      → IsCoherent (only p) m
      → Safe
          (λ (m', s'). IsSameMap m m' × IsRanked none m' s' (moved (frame_of (m.ptes p)) xs))
          (lru_ref p m s)
  pub oldest :
      (m : Machine F) (s : Stack) (b n : ℕ) (rest : List ℕ)
      → IsRanked none m s (b ∷ n ∷ rest)
      → IsCoherent (λ _. false) m
      → Safe
          (λ (f, m', s'). (f ≡ b) × IsSameMap m m' × IsRanked (some b) m' s' (n ∷ rest))
          (lru_evict m s)

-- lru.c meets `IsPolicy` for a memory of one frame or of more, and in a memory of two frames or more
-- it keeps the frames in use linked in the order of their last references: a reference moves its frame
-- to the end, whether it was a hit or its page is new there, and eviction takes the frame that has
-- waited longest. Both functions return and leave the mapping of pages to frames and swap places alone.
pub lru-IsLeastRecent : (F : Type 0) → IsLeastRecent F
lru-IsLeastRecent F = record {
  policy = lru-IsPolicy;
  hits = λ p m s xs le r valid v.
      let own = v.owned p (ground arith) in
      lru_ref-IsMoved none p m s xs r (λ i ne. refl) le
        (valid ∙ sym own.1 ∙ r.used (frame_of (m.ptes p)) own.0 refl) v;
  misses = λ p m s xs le r invalid v.
      lru_ref-IsMoved (some (frame_of (m.ptes p))) p m s xs r (λ i ne. ground arith) le
        (invalid ∙ sym (r.absent (frame_of (m.ptes p)) (ground arith)).0) v;
  oldest = lru_evict-IsRanked;
}
