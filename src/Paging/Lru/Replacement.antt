-- ===== src/Paging/Lru/Replacement.antt =====
-- a2/starter/lru.c: lru_ref and lru_evict against the order of the last references.
use csc369group.Prelude.{
  ℕ, ◌+◌, ◌≡◌, refl, Bool, true, false, Option, none, some, List, [], ◌∷◌, arith, ◌==◌,
  if◌then◌else◌, ltb, Bool-cases, inl, inr, ap, ◌∙◌, sym, subst,
}
use csc369group.Outcome
use csc369group.Outcome.{Outcome, ok, ◌>>=◌}
use csc369group.Paging.Lru.{
  Stack, Frames, set_next, set_prev, points, push_new, raise_bottom, raise_middle, touch,
  pop_bottom,
}
use csc369group.Paging.Lru.Links.{has, IsDistinct, last, Linked, Linked-same, erase}
use csc369group.Paging.Lru.Order.{IsOrder, IsRelinked, last-some, moved-last, next-some, prev-some}
use csc369group.Paging.Lru.Touch.{IsMoved, deref-some, push_new-IsMoved}
use csc369group.Paging.Lru.Raise.{not_top_differs, raise_bottom-IsMoved, raise_middle-IsMoved}

-- A frame of the order that is not on top.
raise-IsMoved :
    (c : Frames) (s : Stack) (f x : ℕ) (xs : List ℕ)
    → IsOrder c s (x ∷ xs)
    → has f (x ∷ xs) ≡ true
    → points s.top f ≡ false
    → Outcome.Returns
        (IsMoved f c (x ∷ xs) s.size)
        (if points s.bottom f then raise_bottom f c s else raise_middle f c s)
raise-IsMoved c s f x [] o inside below = absurd (ground (arith, o.top))
raise-IsMoved c s f x (y ∷ ys) o inside below =
    let (t, end) = last-some y ys in
    let top : s.top ≡ some t = o.top ∙ end in
    elim (Bool-cases (f == x)) [
      | inl here ↦
          let e : x ≡ f = ground arith in
          let at : points s.bottom f ≡ true = ground (arith, o.bottom) in
          rw at (
            subst (λ z. Outcome.Returns (IsMoved z c (x ∷ y ∷ ys) s.size) (raise_bottom z c s)) e
              (raise_bottom-IsMoved c s x y t ys o.linked o.distinct top end o.sized))
      | inr later ↦
          let off : points s.bottom f ≡ false = ground (arith, o.bottom) in
          let within : has f (y ∷ ys) ≡ true = ground arith in
          let (n, on) =
            next-some c f x none (y ∷ ys) o.linked inside
              (ap (λ z. points z f) (sym o.top) ∙ below) in
          let (p, back) = prev-some c f x none (y ∷ ys) o.linked.2 within in
          rw off (
            raise_middle-IsMoved c s f x n p t (y ∷ ys) o.linked o.distinct o.bottom top end o.sized
              within later (not_top_differs s.top f t below top) on back)
    ]

push-IsMoved :
    (memsize : ℕ) (c : Frames) (s : Stack) (f x : ℕ) (xs : List ℕ)
    → IsOrder c s (x ∷ xs)
    → has f (x ∷ xs) ≡ false
    → Outcome.Returns
        (IsMoved f c (x ∷ xs) (if ltb s.size memsize then s.size + 1 else s.size))
        (push_new f c (if ltb s.size memsize then record s { size = s.size + 1 } else s))
push-IsMoved memsize c s f x xs o out = elim (Bool-cases (ltb s.size memsize)) [
  | inl grows ↦ rw grows (
      push_new-IsMoved c f x xs o.linked o.distinct (record s { size = s.size + 1 }) out o.bottom
        o.top (ground arith))
  | inr full ↦ rw full (push_new-IsMoved c f x xs o.linked o.distinct s out o.bottom o.top o.sized)
]

only_links : (c : Frames) (f : ℕ) → Linked (set_next f none (set_prev f none c)) none none (f ∷ [])
only_links c f = (ground arith, ground arith, tt)

points-some : (o : Option ℕ) (f : ℕ) → points o f ≡ true → o ≡ some f
points-some none f h = absurd (ground arith)
points-some (some j) f h = ground arith

-- The second frame becomes the first one.
popped_links :
    (c : Frames) (b n : ℕ) (xs : List ℕ)
    → has b (n ∷ xs) ≡ false
    → IsDistinct (n ∷ xs)
    → Linked c (some b) none (n ∷ xs)
    → Linked (set_next b none (set_prev n none c)) none none (n ∷ xs)
popped_links c b n xs out d l = (
  ground arith,
  ground (arith, l.1),
  Linked-same c (set_next b none (set_prev n none c)) (some n) none xs
      (λ i h. (ground (arith, d.0), ground arith)) l.2,
)

-- `size` grows with each frame that is new until it is `memsize`.
abbrev pub grown : (memsize : ℕ) (present : Bool) (size : ℕ) → ℕ
grown memsize present size =
    if size == 0 then 1 else if present then size else if ltb size memsize then size + 1 else size

-- With the frames in use linked in the order of their last references, and PG_VALID set exactly for a
-- frame that is linked, lru_ref returns for every frame, the first one of an empty list included. It
-- takes the frame out of the order, if it is there, and links it behind all others; all links, `bottom`
-- and `top` agree with the new order, `size` grows with a new frame up to `memsize`, and nothing of the
-- coremap but links is written.
pub touch-IsMoved :
    (memsize f : ℕ) (c : Frames) (s : Stack) (xs : List ℕ)
    → IsOrder c s xs
    → Outcome.Returns
        (IsMoved f c xs (grown memsize (has f xs) s.size))
        (touch memsize f (has f xs) c s)
unfolding touch erase
touch-IsMoved memsize f c s [] o = rw o.sized (
    Outcome.returns (
      record {
        linked = only_links c f;
        distinct = (refl, tt);
        bottom = refl;
        top = refl;
        sized = ground arith;
      },
      λ i. (ground arith, ground arith),
      ground arith,
    ))
touch-IsMoved memsize f c s (x ∷ xs) o = elim (Bool-cases (has f (x ∷ xs))) [
  | inr out ↦ rw (o.sized, out) (push-IsMoved memsize c s f x xs o out)
  | inl inside ↦ elim (Bool-cases (points s.top f)) [
    | inl above ↦
        let e : last (some x) xs ≡ some f = sym o.top ∙ points-some s.top f above in
        rw (o.sized, inside, above)
          (Outcome.returns (rw (moved-last f x xs o.distinct e) o, λ i. (refl, refl), refl))
    | inr below ↦ rw (o.sized, inside, below) (raise-IsMoved c s f x xs o inside below)
  ]
]

pop_bottom_lem :
    (c : Frames) (s : Stack) (b n : ℕ)
    → s.bottom ≡ some b
    → (c b).next ≡ some n
    → pop_bottom c s ≡ ok (b, set_next b none (set_prev n none c), record s { bottom = some n })
unfolding pop_bottom
pop_bottom_lem c s b n at on = deref-some s.bottom b _ at ∙ deref-some (c b).next n _ on

-- What lru_evict leaves when it takes the bottom frame `b`.
abbrev pub IsPopped : (b : ℕ) (c : Frames) (xs : List ℕ) (n : ℕ) → ℕ × Frames × Stack → Type 0
IsPopped b c xs n (b', c', s') = (b' ≡ b) × IsOrder c' s' xs × IsRelinked c c' × (s'.size ≡ n)

-- With two or more frames linked in the order of their last references, lru_evict on the links returns.
-- It gives the frame that has waited longest, the others stay linked in their order, `size` stays,
-- and nothing of the coremap but links is written.
pub pop_bottom-IsPopped :
    (c : Frames) (s : Stack) (b n : ℕ) (xs : List ℕ)
    → IsOrder c s (b ∷ n ∷ xs)
    → Outcome.Returns (IsPopped b c (n ∷ xs) s.size) (pop_bottom c s)
pop_bottom-IsPopped c s b n xs o =
    subst (Outcome.Returns (IsPopped b c (n ∷ xs) s.size))
      (sym (pop_bottom_lem c s b n o.bottom o.linked.1))
      (Outcome.returns (
        refl,
        record {
          linked = popped_links c b n xs o.distinct.0 o.distinct.1 o.linked.2;
          distinct = o.distinct.1;
          bottom = refl;
          top = o.top;
          sized = o.sized;
        },
        λ i. (ground arith, ground arith),
        refl,
      ))
