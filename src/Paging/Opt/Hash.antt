-- ===== src/Paging/Opt/Hash.antt =====
-- a2/starter/opt.c: `hash` is injective on the page numbers of 36-bit addresses, so that a page is
-- always at its own slot.
use csc369group.Prelude.{
  ℕ, suc, ◌+◌, ◌%◌, ◌^◌, ◌<◌, ◌≡◌, refl, true, Option, none, some, List, [], ◌∷◌, ◌++◌, arith,
  if◌then◌else◌, ◌==◌, ==_refl, update, Bool-cases, inl, inr, ap, sym, ◌∙◌, Option-cases,
}
use csc369group.Outcome.{ok, Returns, returns, imply}
use csc369group.Paging.Opt.{hsize, Entry, Table, Opt, append, hash, new_entry, insert_loop, insert}

-- Two page numbers below 2 ^ 24 with the same hash are equal.
pub hash-injective : (a b : ℕ) → a < 2 ^ 24 → b < 2 ^ 24 → hash a ≡ hash b → a ≡ b
unfolding hash
hash-injective a b p q h = omega arith

-- Every entry of the table is that of a page, and stands at the slot of its page.
pub record IsDirect (t : Table) : Type 0 where
  pub page : (index : ℕ) (e : Entry) → t index ≡ some e → e.vaddr < 2 ^ 24
  pub slot : (index : ℕ) (e : Entry) → t index ≡ some e → hash e.vaddr ≡ index

-- The accesses to a page that the table records, in order.
abbrev pub uses_of : ℕ → Option Entry → List ℕ
uses_of page none = []
uses_of page (some e) = if e.vaddr == page then e.nodes else []

unfoldable pub uses : Table → ℕ → List ℕ
uses t page = uses_of page (t (hash page))

-- What `insert` does in a direct table.
pub record IsInserted (page : ℕ) (o o' : Opt) : Type 0 where
  pub direct : IsDirect o'.hash_table
  pub same_line : o'.current_trace ≡ o.current_trace
  pub recorded :
      (q : ℕ)
      → q < 2 ^ 24
      → uses o'.hash_table q
        ≡ (if q == page then uses o.hash_table q ++ o.current_trace ∷ [] else uses o.hash_table q)

module _ (page : ℕ) (small : page < 2 ^ 24) (o : Opt) (v : IsDirect o.hash_table) where
  abbrev pub written : List ℕ → Opt
  written nodes = record o {
    hash_table = update o.hash_table (hash page) (some (record { vaddr = page; nodes = nodes }));
  }

  pub written-IsDirect : (nodes : List ℕ) → IsDirect (written nodes).hash_table
  written-IsDirect nodes = record {
    page = λ index e h. ground (arith, v.page index e, small);
    slot = λ index e h. ground (arith, v.slot index e);
  }

  pub written-uses :
      (nodes : List ℕ) (q : ℕ)
      → q < 2 ^ 24
      → uses (written nodes).hash_table q ≡ (if q == page then nodes else uses o.hash_table q)
  unfolding uses
  written-uses nodes q h = elim (Bool-cases (q == page)) [
    | inl same ↦ ground (arith, ==_refl page)
    | inr differ ↦ ground (arith, hash-injective q page h small)
  ]

  uses-entry :
      (nodes : List ℕ)
      → o.hash_table (hash page) ≡ some (record { vaddr = page; nodes = nodes })
      → uses o.hash_table page ≡ nodes
  unfolding uses
  uses-entry nodes h = rw h (rw (==_refl page) refl)

  append-written :
      (nodes : List ℕ)
      → o.hash_table (hash page) ≡ some (record { vaddr = page; nodes = nodes })
      → append (hash page) o ≡ ok (written (nodes ++ o.current_trace ∷ []))
  unfolding append
  append-written nodes h = rw h refl

  appended-IsInserted :
      (nodes : List ℕ)
      → o.hash_table (hash page) ≡ some (record { vaddr = page; nodes = nodes })
      → Returns (IsInserted page o) (append (hash page) o)
  appended-IsInserted nodes h = rw (append-written nodes h) (
      returns (record {
        direct = written-IsDirect (nodes ++ o.current_trace ∷ []);
        same_line = refl;
        recorded = λ q lt.
            written-uses (nodes ++ o.current_trace ∷ []) q lt ∙ (elim (Bool-cases (q == page)) [
              | inl same ↦ rw same (
                  ap (λ l. l ++ o.current_trace ∷ [])
                    (sym (uses-entry nodes h) ∙ ap (uses o.hash_table) (ground (arith, same))))
              | inr differs ↦ rw differs refl
            ]);
      }))

hash-small : (page : ℕ) → hash page < 2 ^ 24
unfolding hash
hash-small page = omega arith

-- The first probe of `insert` finds the entry of the page.
insert_loop-first :
    (r page : ℕ) (o : Opt) (e : Entry)
    → o.hash_table (hash page) ≡ some e
    → e.vaddr ≡ page
    → insert_loop (suc r) 0 page o ≡ append (hash page) o
unfolding insert_loop
insert_loop-first r page o e h same =
    let at : (hash page + 0) % hsize ≡ hash page = omega (arith, hash-small page) in
    let held : (e.vaddr == page) ≡ true = ground (arith, same) in
    let there : o.hash_table ((hash page + 0) % hsize) ≡ some e = ap o.hash_table at ∙ h in
    rw (insert_loop, there) (rw held (ap (λ index. append index o) at))

-- A page without an entry gets one that records the current line.
new_entry-IsInserted :
    (page : ℕ) (o : Opt)
    → page < 2 ^ 24
    → IsDirect o.hash_table
    → o.hash_table (hash page) ≡ none
    → Returns (IsInserted page o) (new_entry (hash page) page o)
unfolding new_entry
new_entry-IsInserted page o small v empty =
    let made : Opt = written page small o v [] in
    let direct : IsDirect made.hash_table = written-IsDirect page small o v [] in
    let unused : uses o.hash_table page ≡ [] = unfold uses in rw empty refl in
    imply (appended-IsInserted page small made direct [] (ground (arith, ==_refl (hash page))))
      λ o' r. record {
        direct = r.direct;
        same_line = r.same_line;
        recorded = λ q lt. r.recorded q lt ∙ (elim (Bool-cases (q == page)) [
          | inl same ↦ rw same (
              ap (λ l. l ++ o.current_trace ∷ [])
                (written-uses page small o v [] q lt
                  ∙ rw same (sym (ap (uses o.hash_table) (ground (arith, same)) ∙ unused))))
          | inr differs ↦ rw differs (written-uses page small o v [] q lt ∙ rw differs refl)
        ]);
      }

-- `insert` in a direct table returns: it records the current line for this page, and for no other.
pub insert-IsInserted :
    (page : ℕ) (o : Opt)
    → page < 2 ^ 24
    → IsDirect o.hash_table
    → Returns (IsInserted page o) (insert page o)
unfolding insert
insert-IsInserted page o small v = elim (Option-cases (o.hash_table (hash page))) [
  | inl empty ↦ rw (insert, empty) (new_entry-IsInserted page o small v empty)
  | inr (e, there) ↦
      let same : e.vaddr ≡ page =
        hash-injective e.vaddr page (v.page (hash page) e there) small
          (v.slot (hash page) e there) in
      rw (insert, there)
        (rw (insert_loop-first 16777215 page o e there same) (
          appended-IsInserted page small o v e.nodes
            (there ∙ ap (λ a. some (record { vaddr = a; nodes = e.nodes })) same)))
]
