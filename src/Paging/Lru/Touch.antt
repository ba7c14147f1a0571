-- ===== src/Paging/Lru/Touch.antt =====
-- a2/starter/lru.c: a reference moves its frame to the top, and the bottom is taken for eviction.
use csc369group.Prelude.{
  ℕ, ◌≡◌, refl, true, false, Option, none, some, List, ◌∷◌, arith, ◌==◌, ap, ◌∙◌, subst,
}
use csc369group.Outcome
use csc369group.Outcome.{Outcome, ok, ◌>>=◌}
use csc369group.Paging.Lru.{
  Stack, Frames, deref, set_next, set_prev, push_new, raise_bottom, raise_middle,
}
use csc369group.Paging.Lru.Links.{
  has, IsDistinct, last, Linked, erase, IsUnlinked, IsPushed, Linked-unlink, has-last, separate,
}
use csc369group.Paging.Lru.Order.{
  IsOrder, moved, IsRelinked, last-some, erase-absent, pushed-IsOrder, erased, IsDistinct-erase,
}

-- The frame is the last one in the order now, only links have changed, and `size` is `n`.
abbrev pub IsMoved : (f : ℕ) (c : Frames) (xs : List ℕ) (n : ℕ) → Frames × Stack → Type 0
IsMoved f c xs n (c', s') = IsOrder c' s' (moved f xs) × IsRelinked c c' × (s'.size ≡ n)

-- The three writes that put a frame on top, in the orders of the branches.
module _ (c : Frames) (t f : ℕ) (o : Option ℕ) (top : o ≡ some t) (differs : (f == t) ≡ false) where
  new_links : IsPushed t f c (set_next f none (set_prev f o (set_next t (some f) c)))
  new_links = (ground arith, ground arith, ground arith, ground arith, ground arith)

  pub bottom_links : IsPushed t f c (set_prev f o (set_next t (some f) (set_next f none c)))
  bottom_links = (ground arith, ground arith, ground arith, ground arith, ground arith)

  pub middle_links : IsPushed t f c (set_next f none (set_next t (some f) (set_prev f o c)))
  middle_links = (ground arith, ground arith, ground arith, ground arith, ground arith)

-- The writes that take a frame out of the links.
pub unlink_bottom :
    (c : Frames) (f n : ℕ)
    → (c f).prev ≡ none
    → (c f).next ≡ some n
    → IsUnlinked f c (set_prev n none c)
unlink_bottom c f n back on i = (ground arith, ground arith)

pub unlink_middle :
    (c : Frames) (f p n : ℕ)
    → (c f).prev ≡ some p
    → (c f).next ≡ some n
    → (p == f) ≡ false
    → IsUnlinked f c (set_prev n (set_next p (c f).next c f).prev (set_next p (c f).next c))
unlink_middle c f p n back on differs i = (ground arith, ground arith)

pub IsRelinked-next : (c : Frames) (i : ℕ) (q : Option ℕ) → IsRelinked c (set_next i q c)
IsRelinked-next c i q j = ground arith

pub IsRelinked-prev : (c : Frames) (i : ℕ) (q : Option ℕ) → IsRelinked c (set_prev i q c)
IsRelinked-prev c i q j = ground arith

pub IsRelinked-trans : (c c1 c2 : Frames) → IsRelinked c c1 → IsRelinked c1 c2 → IsRelinked c c2
IsRelinked-trans c c1 c2 r r' i = ((r' i).0 ∙ (r i).0, (r' i).1 ∙ (r i).1)

-- Following a pointer that is not NULL.
pub deref-some :
    {B : Type 0} (o : Option ℕ) (i : ℕ) (k : ℕ → Outcome B) → o ≡ some i → (deref o >>= k) ≡ k i
deref-some o i k e = ap (λ o. deref o >>= k) e

pub raise_bottom_lem :
    (c : Frames) (s : Stack) (f n t : ℕ)
    → (c f).next ≡ some n
    → s.top ≡ some t
    → raise_bottom f c s
      ≡ ok (
        set_prev f s.top (set_next t (some f) (set_next f none (set_prev n none c))),
        record s { bottom = (set_prev n none c f).next; top = some f },
      )
unfolding raise_bottom
raise_bottom_lem c s f n t on end = deref-some (c f).next n _ on ∙ deref-some s.top t _ end

pub raise_middle_lem :
    (c : Frames) (s : Stack) (f p n t : ℕ)
    → (c f).prev ≡ some p
    → (set_next p (c f).next c f).next ≡ some n
    → s.top ≡ some t
    → let c2 = set_prev n (set_next p (c f).next c f).prev (set_next p (c f).next c) in
      raise_middle f c s
      ≡ ok (set_next f none (set_next t (some f) (set_prev f s.top c2)), record s { top = some f })
unfolding raise_middle
raise_middle_lem c s f p n t back on end =
    deref-some (c f).prev p _ back
    ∙ (deref-some (set_next p (c f).next c f).next n _ on ∙ deref-some s.top t _ end)

module _ (c : Frames) (f x : ℕ) (xs : List ℕ) (l : Linked c none none (x ∷ xs))
    (d : IsDistinct (x ∷ xs)) where
  -- The frame is not in the list.
  pub push_new-IsMoved :
      (s : Stack)
      → has f (x ∷ xs) ≡ false
      → s.bottom ≡ some x
      → s.top ≡ last (some x) xs
      → (s.size == 0) ≡ false
      → Outcome.Returns (IsMoved f c (x ∷ xs) s.size) (push_new f c s)
  unfolding push_new
  push_new-IsMoved s out bottom top used =
      let (t, end) = last-some x xs in
      let differs : (f == t) ≡ false = separate f t (x ∷ xs) (has-last x t xs end) out in
      rw (top ∙ end) (
        Outcome.returns (
          rw (erase-absent f (x ∷ xs) out) (
              pushed-IsOrder c _ s t f x xs (new_links c t f (some t) refl differs) l d out end
                s.bottom s.size bottom used),
          λ i. ground arith,
          refl,
        ))

-- A frame that has been taken out is put on top.
pub raised-IsOrder :
    (c c2 c' : Frames) (s : Stack) (f t y : ℕ) (xs ys : List ℕ) (b : Option ℕ)
    → IsUnlinked f c c2
    → IsPushed t f c2 c'
    → Linked c none none xs
    → IsDistinct xs
    → has f xs ≡ true
    → erase f xs ≡ y ∷ ys
    → last (some y) ys ≡ some t
    → b ≡ some y
    → (s.size == 0) ≡ false
    → IsOrder c' (record { bottom = b; top = some f; size = s.size }) (moved f xs)
raised-IsOrder c c2 c' s f t y xs ys b un pushed l d inside left end at used =
    let l2 =
      Linked-unlink c c2 f none none xs un l d (λ i h. ground arith) (λ i h. ground arith) inside in
    let gone = erased f xs d in
    rw left (
      pushed-IsOrder c2 c' s t f y ys pushed (subst (Linked c2 none none) left l2)
        (subst IsDistinct left (IsDistinct-erase f xs d)) (subst (λ z. has f z ≡ false) left gone)
        end b s.size at used)
