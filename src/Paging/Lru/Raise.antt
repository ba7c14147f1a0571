-- ===== src/Paging/Lru/Raise.antt =====
-- a2/starter/lru.c: a frame that is already linked goes to the top, from the bottom or from the middle.
use csc369group.Prelude.{
  ℕ, ◌≡◌, refl, true, false, Option, none, some, List, [], ◌∷◌, arith, ◌==◌, Bool-cases, inl, inr,
  ap, ◌∙◌, sym,
}
use csc369group.Outcome
use csc369group.Outcome.{Outcome, ok, ◌>>=◌}
use csc369group.Paging.Lru.{Stack, Frames, set_next, set_prev, points, raise_bottom, raise_middle}
use csc369group.Paging.Lru.Links.{has, IsDistinct, last, Linked, erase, has-last, separate}
use csc369group.Paging.Lru.Order.{IsRelinked, last-erase}
use csc369group.Paging.Lru.Touch.{
  IsMoved, bottom_links, middle_links, unlink_bottom, unlink_middle, raise_bottom_lem,
  raise_middle_lem, raised-IsOrder,
}

pub not_top_differs : (o : Option ℕ) (f t : ℕ) → points o f ≡ false → o ≡ some t → (f == t) ≡ false
not_top_differs o f t out e =
    let h : points (some t) f ≡ false = ap (λ o. points o f) (sym e) ∙ out in ground arith

-- The predecessor of a frame is another frame.
prev-ne_self :
    (c : Frames) (f p x : ℕ) (q : Option ℕ) (xs : List ℕ)
    → Linked c (some x) q xs
    → IsDistinct (x ∷ xs)
    → has f xs ≡ true
    → (c f).prev ≡ some p
    → (p == f) ≡ false
prev-ne_self c f p x q [] l d h back = absurd (ground arith)
prev-ne_self c f p x q (y ∷ ys) l d h back = elim (Bool-cases (f == y)) [
  | inl here ↦ ground (arith, l.0, d.0)
  | inr later ↦ prev-ne_self c f p y q ys l.2 d.1 (ground arith) back
]

IsRelinked-bottom :
    (c : Frames) (f n t : ℕ) (o : Option ℕ)
    → IsRelinked c (set_prev f o (set_next t (some f) (set_next f none (set_prev n none c))))
IsRelinked-bottom c f n t o i = (ground arith, ground arith)

IsRelinked-middle :
    (c : Frames) (f n p t : ℕ) (o r q : Option ℕ)
    → IsRelinked c
        (set_next f none (set_next t (some f) (set_prev f o (set_prev n q (set_next p r c)))))
IsRelinked-middle c f n p t o r q i = (ground arith, ground arith)

next-kept :
    (c : Frames) (f n : ℕ) (o : Option ℕ) → (c f).next ≡ some n → (set_prev n o c f).next ≡ some n
next-kept c f n o e = ground arith

next-other :
    (c : Frames) (f p n : ℕ) (o : Option ℕ)
    → (p == f) ≡ false
    → (c f).next ≡ some n
    → (set_next p o c f).next ≡ some n
next-other c f p n o differs e = ground arith

erase-first : (x : ℕ) (xs : List ℕ) → erase x (x ∷ xs) ≡ xs
unfolding erase
erase-first x xs = ground arith

erase-later : (f x : ℕ) (xs : List ℕ) → (f == x) ≡ false → erase f (x ∷ xs) ≡ x ∷ erase f xs
unfolding erase
erase-later f x xs h = rw h

==-swap : (a b : ℕ) → (a == b) ≡ false → (b == a) ≡ false
==-swap a b h = ground arith

-- The frame is the bottom of a longer list.
pub raise_bottom-IsMoved :
    (c : Frames) (s : Stack) (x y t : ℕ) (ys : List ℕ)
    → Linked c none none (x ∷ y ∷ ys)
    → IsDistinct (x ∷ y ∷ ys)
    → s.top ≡ some t
    → last (some y) ys ≡ some t
    → (s.size == 0) ≡ false
    → Outcome.Returns (IsMoved x c (x ∷ y ∷ ys) s.size) (raise_bottom x c s)
raise_bottom-IsMoved c s x y t ys l d top end used =
    let differs : (x == t) ≡ false = separate x t (y ∷ ys) (has-last y t ys end) d.0 in
    rw (raise_bottom_lem c s x y t l.1 top) (
      Outcome.returns (
        raised-IsOrder c (set_prev y none c) _ s x t y (x ∷ y ∷ ys) ys _
            (unlink_bottom c x y l.0 l.1) (bottom_links (set_prev y none c) t x s.top top differs) l
            d (ground arith) (erase-first x (y ∷ ys)) end (next-kept c x y none l.1) used,
        IsRelinked-bottom c x y t s.top,
        refl,
      ))

-- The frame is in the middle.
pub raise_middle-IsMoved :
    (c : Frames) (s : Stack) (f x n p t : ℕ) (xs : List ℕ)
    → Linked c none none (x ∷ xs)
    → IsDistinct (x ∷ xs)
    → s.bottom ≡ some x
    → s.top ≡ some t
    → last (some x) xs ≡ some t
    → (s.size == 0) ≡ false
    → has f xs ≡ true
    → (f == x) ≡ false
    → (f == t) ≡ false
    → (c f).next ≡ some n
    → (c f).prev ≡ some p
    → Outcome.Returns (IsMoved f c (x ∷ xs) s.size) (raise_middle f c s)
raise_middle-IsMoved c s f x n p t xs l d bottom top end used inside later differs on back =
    let apart = prev-ne_self c f p x none xs l.2 d inside back in
    let q = (set_next p (c f).next c f).prev in
    let c2 : Frames = set_prev n q (set_next p (c f).next c) in
    rw (raise_middle_lem c s f p n t back (next-other c f p n (c f).next apart on) top) (
      Outcome.returns (
        raised-IsOrder c c2 _ s f t x (x ∷ xs) (erase f xs) s.bottom
            (unlink_middle c f p n back on apart) (middle_links c2 t f s.top top differs) l d
            (ground arith) (erase-later f x xs later)
            (last-erase f t x xs end (==-swap f t differs) (==-swap f x later)) bottom used,
        IsRelinked-middle c f n p t s.top (c f).next q,
        refl,
      ))
