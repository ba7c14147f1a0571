-- ===== src/Paging/PageTable/Printing/Rows.antt =====
-- a2/starter/pagetable.c: what the lines of print_pagetbl say of the entries of a table.
use mathlib.Core.List.{append-nil}
use csc369group.Prelude.{
  ℕ, zero, suc, ◌+◌, ◌*◌, ◌-◌, ◌≤◌, ◌≡◌, refl, Bool, true, false, not, ◌&&◌, none, some, List, [],
  ◌∷◌, ◌++◌, ℤ, arith, if◌then◌else◌, Bool-cases, inl, inr, ap, ◌∙◌, sym,
}
use csc369group.Outcome.{Returns, returns, bind, imply}
use csc369group.Paging.Machine.{Pte, is_valid, is_dirty, is_onswap, frame_of}
use csc369group.Paging.PageTable.Printing.{
  Row, invalid, valid, onswap, Pending, flush, extend, print_entry, print_loop, print_pagetbl,
}

-- Where the page of an entry is.
pub data Status : Type 0 where
  nowhere : Status
  in_memory : (dirty : Bool) (frame : ℕ) → Status
  in_swap : (offset : ℤ) → Status

unfoldable pub status : Pte → Status
status e =
    if is_valid e
    then in_memory (is_dirty e) (frame_of e)
    else if is_onswap e
    then in_swap e.swap_off
    else nowhere

-- The entries from `i` on, each by its index.
unfoldable pub statuses : (n i : ℕ) → (ℕ → Pte) → List (ℕ × Status)
statuses zero i pgtbl = []
statuses (suc n) i pgtbl = (i, status (pgtbl i)) ∷ statuses n (suc i) pgtbl

-- `n` entries from `first` on without a page.
unfoldable pub gap_from : (n first : ℕ) → List (ℕ × Status)
gap_from zero first = []
gap_from (suc n) first = (first, nowhere) ∷ gap_from n (suc first)

-- The entries that a line is about, by the indices that it prints.
unfoldable pub told : Row → List (ℕ × Status)
unfolding gap_from
told (invalid first last) = gap_from (last + 1 - first) first
told (valid index dirty frame) = (index, in_memory dirty frame) ∷ []
told (onswap index offset) = (index, in_swap offset) ∷ []

unfoldable pub read_rows : List Row → List (ℕ × Status)
read_rows [] = []
read_rows (row ∷ rows) = told row ++ read_rows rows

-- The entries that wait are the ones just before entry `i`.
IsPending : Pending → ℕ → Type 0
IsPending none i = Unit {0}
IsPending (some (first, last)) i = (first ≤ last) × (last + 1 ≡ i)

waiting : Pending → List (ℕ × Status)
waiting none = []
waiting (some (first, last)) = gap_from (last + 1 - first) first

read-flush :
    (pending : Pending) (rows : List Row)
    → read_rows (flush pending ++ rows) ≡ waiting pending ++ read_rows rows
unfolding read_rows flush waiting told
read-flush none rows = refl
read-flush (some (first, last)) rows = refl

gap_from-snoc :
    (n first i : ℕ) (rest : List (ℕ × Status))
    → first + n ≡ i
    → gap_from (suc n) first ++ rest ≡ gap_from n first ++ (i, nowhere) ∷ rest
unfolding gap_from
gap_from-snoc zero first i rest e =
    let same : first ≡ i = omega (arith, e) in ap (λ k. (k, nowhere) ∷ rest) same
gap_from-snoc (suc n) first i rest e =
    ap (λ l. (first, nowhere) ∷ l) (gap_from-snoc n (suc first) i rest (omega (arith, e)))

extend-IsPending :
    (pending : Pending) (i : ℕ) → IsPending pending i → IsPending (extend pending i) (suc i)
unfolding IsPending extend
extend-IsPending none i p = (omega arith, omega arith)
extend-IsPending (some (first, last)) i (le, at) = (omega arith, omega arith)

extend-waiting :
    (pending : Pending) (i : ℕ) (rest : List (ℕ × Status))
    → IsPending pending i
    → waiting (extend pending i) ++ rest ≡ waiting pending ++ (i, nowhere) ∷ rest
unfolding IsPending extend waiting gap_from
extend-waiting none i rest p = let one : i + 1 - i ≡ 1 = omega arith in rw one refl
extend-waiting (some (first, last)) i rest (le, at) =
    let longer : i + 1 - first ≡ suc (last + 1 - first) = omega arith in
    rw longer (gap_from-snoc (last + 1 - first) first i rest (omega (arith, le, at)))

-- The line of an entry that has one.
print_entry-status :
    (i : ℕ) (e : Pte)
    → (not (is_valid e) && not (is_onswap e)) ≡ false
    → Returns (λ row. told row ≡ (i, status e) ∷ []) (print_entry i e)
unfolding print_entry told status
print_entry-status i e h = elim (Bool-cases (is_valid e)) [
  | inl here ↦ rw here (returns refl)
  | inr away ↦
      let swapped : is_onswap e ≡ true = ground (arith, away, h) in
      rw (away, swapped) (returns refl)
]

status-nowhere : (e : Pte) → (not (is_valid e) && not (is_onswap e)) ≡ true → status e ≡ nowhere
unfolding status
status-nowhere e h = ground arith

-- A line with its entry, and the lines after it.
read-row :
    (row : Row) (rows : List Row) (s : ℕ × Status) (rest : List (ℕ × Status))
    → told row ≡ s ∷ []
    → read_rows rows ≡ rest
    → read_rows (row ∷ rows) ≡ s ∷ rest
unfolding read_rows
read-row row rows s rest one more = ap (λ l. l ++ read_rows rows) one ∙ ap (λ l. s ∷ l) more

print_loop-statuses :
    (r i : ℕ) (pending : Pending) (pgtbl : ℕ → Pte)
    → IsPending pending i
    → Returns
        (λ rows. read_rows rows ≡ waiting pending ++ statuses r i pgtbl)
        (print_loop r i pending pgtbl)
unfolding print_loop statuses
print_loop-statuses zero i pending pgtbl p = returns (
    ap read_rows (sym (append-nil (flush pending)))
    ∙ read-flush pending []
    ∙ (unfold read_rows in refl))
print_loop-statuses (suc r) i pending pgtbl p =
    elim (Bool-cases (not (is_valid (pgtbl i)) && not (is_onswap (pgtbl i)))) [
      | inl gap ↦ rw gap (
          imply
            (print_loop-statuses r (suc i) (extend pending i) pgtbl (extend-IsPending pending i p))
            λ rows e.
              e
              ∙ extend-waiting pending i (statuses r (suc i) pgtbl) p
              ∙ ap (λ s. waiting pending ++ (i, s) ∷ statuses r (suc i) pgtbl)
                  (sym (status-nowhere (pgtbl i) gap)))
      | inr used ↦ rw used (
          bind (print_entry-status i (pgtbl i) used) λ row one.
            bind (print_loop-statuses r (suc i) none pgtbl (unfold IsPending in tt)) λ rows rest.
              returns (
                read-flush pending (row ∷ rows)
                ∙ ap (λ l. waiting pending ++ l)
                    (read-row row rows (i, status (pgtbl i)) (statuses r (suc i) pgtbl) one
                      (rest ∙ (unfold waiting in refl)))))
    ]

-- print_pagetbl returns, its assertion holding, and its lines say of every entry of the table, from the
-- first to the last and by its index, whether its page is nowhere, in which frame it is and whether it is
-- dirty, or where in the swap file it is.
pub print_pagetbl-statuses :
    (base : ℕ) (ptes : ℕ → Pte)
    → Returns
        (λ rows. read_rows rows ≡ statuses 4096 0 (λ i. ptes (base + i * 16)))
        (print_pagetbl base ptes)
unfolding print_pagetbl
print_pagetbl-statuses base ptes =
    imply (print_loop-statuses 4096 0 none (λ i. ptes (base + i * 16)) (unfold IsPending in tt))
      λ rows e. e ∙ (unfold waiting in refl)
