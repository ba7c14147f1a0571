-- ===== src/Paging/Lru/Links.antt =====
-- a2/starter/lru.c: frames that are linked in both directions, as a list of their indices.
use csc369group.Prelude.{
  ℕ, ◌≡◌, Bool, true, false, ◌||◌, Option, none, some, List, [], ◌∷◌, ◌++◌, arith, ◌==◌,
  if◌then◌else◌, Bool-cases, inl, inr, ap, ◌∙◌, subst,
}
use csc369group.Paging.Lru.{Frames, points}

abbrev pub has : ℕ → List ℕ → Bool
has a [] = false
has a (x ∷ xs) = (a == x) || has a xs

abbrev pub IsDistinct : List ℕ → Type 0
IsDistinct [] = Unit {0}
IsDistinct (x ∷ xs) = (has x xs ≡ false) × IsDistinct xs

abbrev pub first : List ℕ → Option ℕ → Option ℕ
first [] q = q
first (x ∷ xs) q = some x

abbrev pub last : Option ℕ → List ℕ → Option ℕ
last p [] = p
last p (x ∷ xs) = last (some x) xs

-- The frames of the list are linked to one another in its order, the first one back to `p` and the last one
-- on to `q`.
abbrev pub Linked : Frames → (p q : Option ℕ) → List ℕ → Type 0
Linked c p q [] = Unit {0}
Linked c p q (x ∷ xs) = ((c x).prev ≡ p) × ((c x).next ≡ first xs q) × Linked c (some x) q xs

-- A pointer does not lead into the list.
abbrev pub IsOutside : Option ℕ → List ℕ → Type 0
IsOutside p xs = (i : ℕ) → points p i ≡ true → has i xs ≡ false

-- The list without its first `f`.
unfoldable pub erase : ℕ → List ℕ → List ℕ
erase f [] = []
erase f (x ∷ xs) = if f == x then xs else x ∷ erase f xs

-- `c'` is `c` with the links round frame `f` joined.
abbrev pub IsUnlinked : (f : ℕ) → Frames → Frames → Type 0
IsUnlinked f c c' =
    (i : ℕ)
    → ((c' i).next ≡ (if points (c f).prev i then (c f).next else (c i).next))
      × ((c' i).prev ≡ (if points (c f).next i then (c f).prev else (c i).prev))

-- `c'` is `c` with frame `f` linked behind frame `t`.
abbrev pub IsPushed : (t f : ℕ) → Frames → Frames → Type 0
IsPushed t f c c' =
    ((c' f).prev ≡ some t)
    × ((c' f).next ≡ none)
    × ((c' t).next ≡ some f)
    × ((i : ℕ) → (i == f) ≡ false → (c' i).prev ≡ (c i).prev)
    × ((i : ℕ) → (i == f) ≡ false → (i == t) ≡ false → (c' i).next ≡ (c i).next)

-- The links of a frame of the list lead into the list or to its ends.
next_outside :
    (c : Frames) (p q : Option ℕ) (xs : List ℕ) (f i : ℕ)
    → Linked c p q xs
    → has f xs ≡ true
    → has i xs ≡ false
    → points q i ≡ false
    → points (c f).next i ≡ false
next_outside c p q [] f i l h out e = absurd (ground arith)
next_outside c p q (x ∷ []) f i l h out e = ground arith
next_outside c p q (x ∷ y ∷ ys) f i l h out e =
    ground (arith, next_outside c (some x) q (y ∷ ys) f i l.2)

pub prev_outside :
    (c : Frames) (q : Option ℕ) (x : ℕ) (xs : List ℕ) (f i : ℕ)
    → Linked c (some x) q xs
    → has f xs ≡ true
    → has i (x ∷ xs) ≡ false
    → points (c f).prev i ≡ false
prev_outside c q x [] f i l h out = absurd (ground arith)
prev_outside c q x (y ∷ ys) f i l h out = ground (arith, prev_outside c q y ys f i l.2)

-- A change of other frames leaves the list linked.
pub Linked-same :
    (c c' : Frames) (p q : Option ℕ) (xs : List ℕ)
    → ((i : ℕ) → has i xs ≡ true → ((c' i).prev ≡ (c i).prev) × ((c' i).next ≡ (c i).next))
    → Linked c p q xs
    → Linked c' p q xs
Linked-same c c' p q [] same l = tt
Linked-same c c' p q (x ∷ xs) same l =
    let here = same x (ground arith) in
    (here.0 ∙ l.0, here.1 ∙ l.1, Linked-same c c' (some x) q xs (λ i h. same i (ground arith)) l.2)

-- The frame in front of the list is unlinked.
unlink_front :
    (c c' : Frames) (x : ℕ) (p q : Option ℕ) (xs : List ℕ)
    → IsUnlinked x c c'
    → (c x).prev ≡ p
    → (c x).next ≡ first xs q
    → Linked c (some x) q xs
    → IsDistinct xs
    → IsOutside p xs
    → Linked c' p q xs
unlink_front c c' x p q [] un back on l d op = tt
unlink_front c c' x p q (y ∷ ys) un back on l d op = (
  ground (arith, un y),
  ground (arith, un y, op y),
  Linked-same c c' (some y) q ys (λ i h. ground (arith, un i, op i)) l.2,
)

IsOutside-tail : (q : Option ℕ) (x : ℕ) (xs : List ℕ) → IsOutside q (x ∷ xs) → IsOutside q xs
IsOutside-tail q x xs o i h = ground (arith, o i)

IsOutside-self : (x : ℕ) (xs : List ℕ) → has x xs ≡ false → IsOutside (some x) xs
IsOutside-self x xs out i h = ground arith

-- What the frame `x` in front of the unlinked frame leads on to.
unlink_next :
    (c c' : Frames) (f x : ℕ) (q : Option ℕ) (y : ℕ) (ys : List ℕ)
    → IsUnlinked f c c'
    → (c x).next ≡ some y
    → Linked c (some x) q (y ∷ ys)
    → has x (y ∷ ys) ≡ false
    → has f (y ∷ ys) ≡ true
    → (c' x).next ≡ first (erase f (y ∷ ys)) q
unfolding erase
unlink_next c c' f x q y ys un on l out h = elim (Bool-cases (f == y)) [
  | inl here ↦ rw here (ground (arith, un x))
  | inr later ↦ rw later (ground (arith, un x, prev_outside c q y ys f x l.2))
]

-- Unlinking a frame gives the list without it.
pub Linked-unlink :
    (c c' : Frames) (f : ℕ) (p q : Option ℕ) (xs : List ℕ)
    → IsUnlinked f c c'
    → Linked c p q xs
    → IsDistinct xs
    → IsOutside p xs
    → IsOutside q xs
    → has f xs ≡ true
    → Linked c' p q (erase f xs)
unfolding erase
Linked-unlink c c' f p q [] un l d op oq h = absurd (ground arith)
Linked-unlink c c' f p q (x ∷ []) un l d op oq h =
    let here : (f == x) ≡ true = ground arith in rw here tt
Linked-unlink c c' f p q (x ∷ y ∷ ys) un l d op oq h = elim (Bool-cases (f == x)) [
  | inl here ↦
      let e : f ≡ x = ground arith in
      rw here (
        unlink_front c c' x p q (y ∷ ys) (subst (λ z. IsUnlinked z c c') e un) l.0 l.1 l.2 d.1
          (λ i h. ground (arith, op i)))
  | inr later ↦
      let inside : has f (y ∷ ys) ≡ true = ground arith in
      rw later (
        ground (arith, un x, next_outside c (some x) q (y ∷ ys) f x l.2, oq x),
        unlink_next c c' f x q y ys un l.1 l.2 d.0 inside,
        Linked-unlink c c' f (some x) q (y ∷ ys) un l.2 d.1 (IsOutside-self x (y ∷ ys) d.0)
            (IsOutside-tail q x (y ∷ ys) oq) inside,
      )
]

pub separate : (x t : ℕ) (xs : List ℕ) → has t xs ≡ true → has x xs ≡ false → (x == t) ≡ false
separate x t xs inside out = ground arith

pub has-last : (y t : ℕ) (ys : List ℕ) → last (some y) ys ≡ some t → has t (y ∷ ys) ≡ true
has-last y t [] e = ground arith
has-last y t (z ∷ zs) e = ground (arith, has-last z t zs)

-- A frame that is not in the list is linked behind the last one.
pub Linked-push :
    (c c' : Frames) (t f x : ℕ) (p : Option ℕ) (xs : List ℕ)
    → IsPushed t f c c'
    → Linked c p none (x ∷ xs)
    → IsDistinct (x ∷ xs)
    → has f (x ∷ xs) ≡ false
    → last (some x) xs ≡ some t
    → Linked c' p none (x ∷ xs ++ f ∷ [])
Linked-push c c' t f x p [] pushed l d out end =
    let (back, on, next, prevs, nexts) = pushed in
    let e : t ≡ x = ground arith in
    (
      prevs x (ground arith) ∙ l.0,
      subst (λ z. (c' z).next ≡ some f) e next,
      (back ∙ ap some e, on, tt),
    )
Linked-push c c' t f x p (y ∷ ys) pushed l d out end =
    let (back, on, next, prevs, nexts) = pushed in
    let differs : (x == t) ≡ false = separate x t (y ∷ ys) (has-last y t ys end) d.0 in
    let here : (x == f) ≡ false = ground arith in
    (
      prevs x here ∙ l.0,
      nexts x here differs ∙ l.1,
      Linked-push c c' t f y (some x) ys pushed l.2 d.1 (ground arith) end,
    )
