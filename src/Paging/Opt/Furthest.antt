-- ===== src/Paging/Opt/Furthest.antt =====
-- a2/starter/opt.c: the frame that the loop of `opt_evict` finds.
use csc369group.Prelude.{
  ℕ, zero, suc, ◌+◌, ◌/◌, ◌<◌, ◌≤◌, ◌≡◌, refl, Option, none, some, List, [], ◌∷◌, arith,
  if◌then◌else◌, ltb, Bool-cases, inl, inr, ◌⊎◌, ap, subst, eq_or_ne,
}
use csc369group.Outcome.{ok, Returns, returns}
use csc369group.Paging.Machine.{Machine}
use csc369group.Paging.Opt.{Entry, Table, find_index, exceeds_max, evict_loop}

abbrev pub soonest : List ℕ → Option ℕ
soonest [] = none
soonest (t ∷ ts) = some t

-- Frame `f` is one of the first `n`, and its page is never used again, or all pages are, and none of
-- them later than its page.
abbrev pub IsFurthest : (next : ℕ → List ℕ) (n f : ℕ) → Type 0
IsFurthest next n f =
    (f < n)
    × ((soonest (next f) ≡ none)
        ⊎ ((last : ℕ) × (soonest (next f) ≡ some last)
            × ((j : ℕ) → j < n → (t : ℕ) × (soonest (next j) ≡ some t) × (t ≤ last))))

-- The best of the first `i` frames.
unfoldable pub IsBest : (next : ℕ → List ℕ) (i : ℕ) → (best max_trace : Option ℕ) → Type 0
IsBest next i none none = i ≡ 0
IsBest next i none (some t) = ⊥
IsBest next i (some b) none = ⊥
IsBest next i (some b) (some last) =
    (b < i)
    × (soonest (next b) ≡ some last)
    × ((j : ℕ) → j < i → (t : ℕ) × (soonest (next j) ≡ some t) × (t ≤ last))

module _ {F : Type 0} (m : Machine F) (t : Table) (next : ℕ → List ℕ) where
  -- The table has an entry for the page in frame `i`, with its next uses.
  abbrev pub IsUsed : ℕ → Type 0
  IsUsed i =
      (index : ℕ) × (e : Entry) × (find_index ((m.physmem i).vaddr / 4096) t ≡ ok (some index))
      × (t index ≡ some e)
      × (e.nodes ≡ next i)

  IsBest-step :
      (i now : ℕ) (best max_trace : Option ℕ)
      → IsBest next i best max_trace
      → soonest (next i) ≡ some now
      → IsBest next
          (suc i)
          (if exceeds_max max_trace now then some i else best)
          (if exceeds_max max_trace now then some now else max_trace)
  unfolding IsBest
  IsBest-step i now none none b h = (
    omega arith,
    h,
    λ j lt. (now, subst (λ z. soonest (next z) ≡ some now) (omega (arith, b)) h, omega arith),
  )
  IsBest-step i now none (some l) b h = absurd b
  IsBest-step i now (some f) none b h = absurd b
  IsBest-step i now (some f) (some last) (lt, at, all) h = elim (Bool-cases (ltb last now)) [
    | inl later ↦ rw later (
      omega arith,
      h,
      λ j lt'. elim (eq_or_ne j i) [
        | inl same ↦ (now, rw same h, omega arith)
        | inr differ ↦ let (u, at', le) = all j (omega arith) in (u, at', ground arith)
      ],
    )
    | inr sooner ↦ rw sooner (
      omega arith,
      at,
      λ j lt'. elim (eq_or_ne j i) [
        | inl same ↦ (now, rw same h, ground arith)
        | inr differ ↦ all j (omega arith)
      ],
    )
  ]

  -- One frame: its page is never used again, or the search goes on.
  visit :
      (r i n : ℕ) (best max_trace : Option ℕ) (ns : List ℕ)
      → next i ≡ ns
      → i < n
      → ((now : ℕ)
          → soonest (next i) ≡ some now
          → Returns (IsFurthest next n) (
              evict_loop r
                (suc i)
                (if exceeds_max max_trace now then some i else best)
                (if exceeds_max max_trace now then some now else max_trace)
                m
                t))
      → Returns (IsFurthest next n) (elim ns [
        | [] ↦ ok i
        | trace ∷ later ↦
            let further = exceeds_max max_trace trace in
            evict_loop r
              (suc i)
              (if further then some i else best)
              (if further then some trace else max_trace)
              m
              t
      ])
  visit r i n best max_trace [] h lt rest = returns (lt, inl (ap soonest h))
  visit r i n best max_trace (now ∷ later) h lt rest = rest now (ap soonest h)

  pub evict_loop-IsFurthest :
      (r i n : ℕ) (best max_trace : Option ℕ)
      → i + r ≡ n
      → 0 < n
      → ((j : ℕ) → j < n → IsUsed j)
      → IsBest next i best max_trace
      → Returns (IsFurthest next n) (evict_loop r i best max_trace m t)
  unfolding evict_loop IsBest
  evict_loop-IsFurthest zero i n none none e pos used b = absurd (omega (arith, e, b, pos))
  evict_loop-IsFurthest zero i n none (some l) e pos used b = absurd b
  evict_loop-IsFurthest zero i n (some f) none e pos used b = absurd b
  evict_loop-IsFurthest zero i n (some f) (some last) e pos used (lt, at, all) =
      returns (omega arith, inr (last, at, λ j lt'. all j (omega arith)))
  evict_loop-IsFurthest (suc r) i n best max_trace e pos used b =
      let (index, entry, found, there, nodes) = used i (omega arith) in
      rw (found, there, nodes)
        (visit r i n best max_trace (next i) refl (omega arith) λ now h.
          evict_loop-IsFurthest r (suc i) n _ _ (omega arith) pos used
            (IsBest-step i now best max_trace b h))
