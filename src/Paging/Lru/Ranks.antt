-- ===== src/Paging/Lru/Ranks.antt =====
-- a2/starter/lru.c: the stack and the frames in use.
use csc369group.Prelude.{
  ℕ, ◌<◌, ◌≤◌, ◌≡◌, refl, Bool, true, false, ◌||◌, Option, none, some, List, [], ◌∷◌, arith, ◌==◌,
  Bool-cases, inl, inr, ap, ◌∙◌, sym, subst,
}
use csc369group.Outcome
use csc369group.Outcome.{Outcome, ok, ◌>>=◌}
use csc369group.Paging.Machine.{frame_of, Machine}
use csc369group.Paging.PageTable.Coherent
use csc369group.Paging.PageTable.Coherent.{Safe, returns, IsSameMap, IsSameMap-refl, IsCoherent}
use csc369group.Paging.Lru.{Stack, Frames, points, lru_evict}
use csc369group.Paging.Lru.Links.{has, Linked-same, erase}
use csc369group.Paging.Lru.Order.{IsOrder, moved, IsRelinked, has-push, is_empty}
use csc369group.Paging.Lru.Touch.{IsMoved}
use csc369group.Paging.Lru.Replacement.{pop_bottom-IsPopped, grown}

abbrev pub is_plural : List ℕ → Bool
is_plural [] = false
is_plural (x ∷ []) = false
is_plural (x ∷ y ∷ ys) = true

is_plural-moved :
    (f : ℕ) (xs : List ℕ) → has f xs ≡ true → is_plural (moved f xs) ≡ true → is_plural xs ≡ true
unfolding erase
is_plural-moved f [] h e = cc
is_plural-moved f (x ∷ []) h e = ground arith
is_plural-moved f (x ∷ y ∷ ys) h e = refl

has-moved : (i f : ℕ) (xs : List ℕ) → has i (moved f xs) ≡ (has i xs || (i == f))
unfolding erase
has-moved i f [] = ground arith
has-moved i f (x ∷ xs) = ground (arith, has-moved i f xs, has-push i f xs)

has-moved_self : (f : ℕ) (xs : List ℕ) → has f (moved f xs) ≡ true
has-moved_self f xs = ground (arith, has-moved f f xs)

has-moved_other : (i f : ℕ) (xs : List ℕ) → (i == f) ≡ false → has i (moved f xs) ≡ has i xs
has-moved_other i f xs h = ground (arith, has-moved i f xs)

-- `size` of a reference is not 1 where two or more frames are linked then.
grown-plural :
    (n size f : ℕ) (xs : List ℕ)
    → 2 ≤ n
    → (is_plural xs ≡ true → (size == 1) ≡ false)
    → (size == 0) ≡ is_empty xs
    → is_plural (moved f xs) ≡ true
    → (grown n (has f xs) size == 1) ≡ false
unfolding erase
grown-plural n size f [] le counted sized e = absurd (ground arith)
grown-plural n size f (x ∷ []) le counted sized e = ground arith
grown-plural n size f (x ∷ y ∷ ys) le counted sized e = ground (arith, counted refl)

has-other : (i b : ℕ) (xs : List ℕ) → (b == i) ≡ false → has i (b ∷ xs) ≡ has i xs
has-other i b xs h = ground arith

pub has-first : (b : ℕ) (xs : List ℕ) → has b (b ∷ xs) ≡ true
has-first b xs = ground arith

has-later : (i b : ℕ) (xs : List ℕ) → has i xs ≡ true → has i (b ∷ xs) ≡ true
has-later i b xs h = ground arith

pub points-same : (b i : ℕ) → points (some b) i ≡ true → b ≡ i
points-same b i h = ground arith

pub of_Returns : {A : Type 0} {P : A → Type 0} {r : Outcome A} → Outcome.Returns P r → Safe P r
of_Returns (Outcome.returns p) = returns p

pub IsOrder-same :
    (c c' : Frames) {s : Stack} {xs : List ℕ}
    → ((i : ℕ) → (c' i).prev ≡ (c i).prev)
    → ((i : ℕ) → (c' i).next ≡ (c i).next)
    → IsOrder c s xs
    → IsOrder c' s xs
IsOrder-same c c' {s} {xs} prev next o = record {
  linked = Linked-same c c' none none xs (λ i h. (prev i, next i)) o.linked;
  distinct = o.distinct;
  bottom = o.bottom;
  top = o.top;
  sized = o.sized;
}

module _ {F : Type 0} where
  pub IsRelinked-IsSameMap :
      (m : Machine F) (c : Frames) → IsRelinked m.coremap c → IsSameMap m (record m { coremap = c })
  IsRelinked-IsSameMap m c r = record {
    memsize = refl;
    swapmap = refl;
    directory = refl;
    tables = refl;
    used = λ i. (r i).0;
    entry = λ i. (r i).1;
    valid = λ q. refl;
    onswap = λ q. refl;
    frame = λ q. refl;
    place = λ q. refl;
  }

  -- The frames in use, but the frame that `f` points at, linked in the order of `xs`.
  pub record IsRanked (f : Option ℕ) (m : Machine F) (s : Stack) (xs : List ℕ) : Type 0 where
    pub order : IsOrder m.coremap s xs
    pub counted : is_plural xs ≡ true → (s.size == 1) ≡ false
    pub within : (i : ℕ) → has i xs ≡ true → i < m.memsize
    pub used : (i : ℕ) → i < m.memsize → points f i ≡ false → (m.coremap i).in_use ≡ has i xs
    pub absent : (i : ℕ) → points f i ≡ true → (has i xs ≡ false) × (i < m.memsize)

  pub two_frames :
      (m : Machine F) (s : Stack) (xs : List ℕ)
      → IsRanked none m s xs
      → 2 ≤ m.memsize
      → ((i : ℕ) → i < m.memsize → (m.coremap i).in_use ≡ true)
      → (b : ℕ) × (n : ℕ) × (rest : List ℕ) × (xs ≡ b ∷ n ∷ rest)
  two_frames m s [] r le all = absurd (ground (arith, r.used 0, all 0))
  two_frames m s (x ∷ []) r le all = absurd (ground (arith, r.used 0, all 0, r.used 1, all 1))
  two_frames m s (b ∷ n ∷ rest) r le all = (b, n, rest, refl)

  popped-IsRanked :
      (m : Machine F) (s s' : Stack) (c : Frames) (b n : ℕ) (rest : List ℕ)
      → IsRanked none m s (b ∷ n ∷ rest)
      → IsOrder c s' (n ∷ rest)
      → IsRelinked m.coremap c
      → s'.size ≡ s.size
      → IsRanked (some b) (record m { coremap = c }) s' (n ∷ rest)
  popped-IsRanked m s s' c b n rest r o links size = record {
    order = o;
    counted = λ h. ap (λ k. k == 1) size ∙ r.counted refl;
    within = λ i h. r.within i (has-later i b (n ∷ rest) h);
    used = λ i lt ne. (links i).0 ∙ r.used i lt refl ∙ has-other i b (n ∷ rest) ne;
    absent = λ i h.
        let e = points-same b i h in
        subst (λ z. (has z (n ∷ rest) ≡ false) × (z < m.memsize)) e
          (r.order.distinct.0, r.within b (has-first b (n ∷ rest)));
  }

  pub lru_evict-IsRanked :
      (m : Machine F) (s : Stack) (b n : ℕ) (rest : List ℕ)
      → IsRanked none m s (b ∷ n ∷ rest)
      → IsCoherent (λ _. false) m
      → Safe
          (λ (f, m', s'). (f ≡ b) × IsSameMap m m' × IsRanked (some b) m' s' (n ∷ rest))
          (lru_evict m s)
  unfolding lru_evict
  lru_evict-IsRanked m s b n rest r v =
      let inside : b < m.memsize = r.within b (has-first b (n ∷ rest)) in
      let used : (m.coremap b).in_use ≡ true = r.used b inside refl ∙ has-first b (n ∷ rest) in
      rw (r.counted refl) (
        Coherent.bind (of_Returns (pop_bottom-IsPopped m.coremap s b n rest r.order))
          λ (b', c, s') (bottom, o, links, size).
            let number : frame_of (m.ptes (m.coremap b').pte) ≡ b =
              rw bottom (v.framed b inside used).0 in
            returns (
              number,
              IsRelinked-IsSameMap m c links,
              popped-IsRanked m s s' c b n rest r o links size,
            ))

  -- A reference to a frame in use that is in the order, or to the chosen one.
  pub moved-IsRanked :
      (o : Option ℕ) (f : ℕ) (m : Machine F) (s s' : Stack) (c : Frames) (xs : List ℕ)
      → IsRanked o m s xs
      → ((i : ℕ) → (i == f) ≡ false → points o i ≡ false)
      → f < m.memsize
      → (m.coremap f).in_use ≡ true
      → 2 ≤ m.memsize
      → IsMoved f m.coremap xs (grown m.memsize (has f xs) s.size) (c, s')
      → IsRanked none (record m { coremap = c }) s' (moved f xs)
  moved-IsRanked o f m s s' c xs r others inside used le (order, links, size) = record {
    order = order;
    counted = λ h.
        ap (λ k. k == 1) size ∙ grown-plural m.memsize s.size f xs le r.counted r.order.sized h;
    within = λ i h. elim (Bool-cases (i == f)) [
      | inl here ↦ let e : f ≡ i = ground arith in subst (λ z. z < m.memsize) e inside
      | inr other ↦ r.within i (sym (has-moved_other i f xs other) ∙ h)
    ];
    used = λ i lt ne. elim (Bool-cases (i == f)) [
      | inl here ↦
          let e : f ≡ i = ground arith in
          subst (λ z. (c z).in_use ≡ has z (moved f xs)) e
            ((links f).0 ∙ used ∙ sym (has-moved_self f xs))
      | inr other ↦ (links i).0 ∙ r.used i lt (others i other) ∙ sym (has-moved_other i f xs other)
    ];
    absent = λ i h. cc;
  }
