-- ===== src/Paging/Lru/Order.antt =====
-- a2/starter/lru.c: the linked frames are the frames in use, in the order of their last references.
use csc369group.Prelude.{
  ℕ, ◌≡◌, refl, Bool, true, false, ◌||◌, Option, none, some, List, [], ◌∷◌, ◌++◌, arith, ◌==◌,
  Bool-cases, inl, inr, ap, sym,
}
use csc369group.Paging.Lru.{Stack, Frames, points}
use csc369group.Paging.Lru.Links.{
  has, IsDistinct, first, last, Linked, erase, IsPushed, Linked-push, has-last, separate,
}

abbrev pub is_empty : List ℕ → Bool
is_empty [] = true
is_empty (x ∷ xs) = false

-- The frames of the list are the stack, bottom first.
pub record IsOrder (c : Frames) (s : Stack) (xs : List ℕ) : Type 0 where
  pub linked : Linked c none none xs
  pub distinct : IsDistinct xs
  pub bottom : s.bottom ≡ first xs none
  pub top : s.top ≡ last none xs
  pub sized : (s.size == 0) ≡ is_empty xs

-- A frame that is referenced goes behind all others.
abbrev pub moved : ℕ → List ℕ → List ℕ
moved f xs = erase f xs ++ f ∷ []

-- Only links differ.
abbrev pub IsRelinked : Frames → Frames → Type 0
IsRelinked c c' = (i : ℕ) → ((c' i).in_use ≡ (c i).in_use) × ((c' i).pte ≡ (c i).pte)

pub last-some : (x : ℕ) (xs : List ℕ) → (t : ℕ) × (last (some x) xs ≡ some t)
last-some x [] = (x, refl)
last-some x (y ∷ ys) = last-some y ys

pub erase-absent : (f : ℕ) (xs : List ℕ) → has f xs ≡ false → erase f xs ≡ xs
unfolding erase
erase-absent f [] h = refl
erase-absent f (x ∷ xs) h = ground (arith, erase-absent f xs)

last-push : (p : Option ℕ) (xs : List ℕ) (f : ℕ) → last p (xs ++ f ∷ []) ≡ some f
last-push p [] f = refl
last-push p (x ∷ xs) f = last-push (some x) xs f

pub has-push : (i f : ℕ) (xs : List ℕ) → has i (xs ++ f ∷ []) ≡ (has i xs || (i == f))
has-push i f [] = ground arith
has-push i f (x ∷ xs) = ground (arith, has-push i f xs)

has-erase : (i f : ℕ) (xs : List ℕ) → has i xs ≡ false → has i (erase f xs) ≡ false
unfolding erase
has-erase i f [] h = refl
has-erase i f (x ∷ xs) h = ground (arith, has-erase i f xs)

pub erased : (f : ℕ) (xs : List ℕ) → IsDistinct xs → has f (erase f xs) ≡ false
unfolding erase
erased f [] d = refl
erased f (x ∷ xs) d = ground (arith, erased f xs)

pub IsDistinct-erase : (f : ℕ) (xs : List ℕ) → IsDistinct xs → IsDistinct (erase f xs)
unfolding erase
IsDistinct-erase f [] d = tt
IsDistinct-erase f (x ∷ xs) d = elim (Bool-cases (f == x)) [
  | inl here ↦ rw here d.1
  | inr later ↦ rw later (has-erase x f xs d.0, IsDistinct-erase f xs d.1)
]

IsDistinct-push :
    (f : ℕ) (xs : List ℕ) → IsDistinct xs → has f xs ≡ false → IsDistinct (xs ++ f ∷ [])
IsDistinct-push f [] d out = (refl, tt)
IsDistinct-push f (x ∷ xs) d out =
    (ground (arith, has-push x f xs, d.0), IsDistinct-push f xs d.1 (ground arith))

pub last-erase :
    (f t x : ℕ) (xs : List ℕ)
    → last (some x) xs ≡ some t
    → (t == f) ≡ false
    → (x == f) ≡ false
    → last (some x) (erase f xs) ≡ some t
unfolding erase
last-erase f t x [] e nt nx = e
last-erase f t x (y ∷ []) e nt nx = ground arith
last-erase f t x (y ∷ z ∷ zs) e nt nx = elim (Bool-cases (f == y)) [
  | inl here ↦ rw here e
  | inr later ↦ rw later (last-erase f t y (z ∷ zs) e nt (ground arith))
]

pub moved-last :
    (f x : ℕ) (xs : List ℕ)
    → IsDistinct (x ∷ xs)
    → last (some x) xs ≡ some f
    → moved f (x ∷ xs) ≡ x ∷ xs
unfolding erase
moved-last f x [] d e = ground arith
moved-last f x (y ∷ ys) d e =
    let differs : (f == x) ≡ false =
      ground (arith, separate x f (y ∷ ys) (has-last y f ys e) d.0) in
    rw differs (ap (λ l. x ∷ l) (moved-last f y ys d.1 e))

-- A frame of the list that is not the last one has a successor, and one that is not the first has a
-- predecessor.
pub next-some :
    (c : Frames) (f x : ℕ) (p : Option ℕ) (xs : List ℕ)
    → Linked c p none (x ∷ xs)
    → has f (x ∷ xs) ≡ true
    → points (last (some x) xs) f ≡ false
    → (n : ℕ) × ((c f).next ≡ some n)
next-some c f x p [] l h e = absurd (ground arith)
next-some c f x p (y ∷ ys) l h e = elim (Bool-cases (f == x)) [
  | inl here ↦ (y, ground (arith, l.1))
  | inr later ↦ next-some c f y (some x) ys l.2 (ground arith) e
]

pub prev-some :
    (c : Frames) (f x : ℕ) (q : Option ℕ) (xs : List ℕ)
    → Linked c (some x) q xs
    → has f xs ≡ true
    → (p : ℕ) × ((c f).prev ≡ some p)
prev-some c f x q [] l h = absurd (ground arith)
prev-some c f x q (y ∷ ys) l h = elim (Bool-cases (f == y)) [
  | inl here ↦ (x, ground (arith, l.0))
  | inr later ↦ prev-some c f y q ys l.2 (ground arith)
]

-- The frame is linked behind the last one of a list without it.
pub pushed-IsOrder :
    (c c' : Frames) (s : Stack) (t f x : ℕ) (xs : List ℕ)
    → IsPushed t f c c'
    → Linked c none none (x ∷ xs)
    → IsDistinct (x ∷ xs)
    → has f (x ∷ xs) ≡ false
    → last (some x) xs ≡ some t
    → (b : Option ℕ) (size : ℕ) → b ≡ some x
    → (size == 0) ≡ false
    → IsOrder c' (record { bottom = b; top = some f; size = size }) (x ∷ xs ++ f ∷ [])
pushed-IsOrder c c' s t f x xs pushed l d out end b size at used = record {
  linked = Linked-push c c' t f x none xs pushed l d out end;
  distinct = IsDistinct-push f (x ∷ xs) d out;
  bottom = at;
  top = sym (last-push none (x ∷ xs) f);
  sized = used;
}
