-- ===== src/Paging/Opt/Optimal.antt =====
-- a2/starter/opt.c: the table during the replay, and the frame that `opt_evict` chooses.
use csc369group.Prelude.{
  ℕ, ◌/◌, ◌^◌, ◌<◌, ◌≡◌, refl, true, none, some, List, [], arith, if◌then◌else◌, ◌==◌, ap, sym, ◌∙◌,
  subst, ==_refl,
}
use csc369group.Outcome.{Returns, returns, bind}
use csc369group.Paging.Machine.{Machine}
use csc369group.Paging.Opt.{Entry, Opt, hash, opt_evict}
use csc369group.Paging.Opt.Hash.{hash-injective, IsDirect, uses, uses_of}
use csc369group.Paging.Opt.Trace.{lines_of, find_index-direct}
use csc369group.Paging.Opt.Furthest.{IsFurthest, IsBest, evict_loop-IsFurthest}

-- The table holds, for each page, the lines from the current one on that access it. `rest` is the trace
-- from there on.
pub record IsAhead (o : Opt) (rest : List ℕ) : Type 0 where
  pub direct : IsDirect o.hash_table
  pub ahead : (q : ℕ) → q < 2 ^ 24 → uses o.hash_table q ≡ lines_of q o.current_trace rest

-- The table has an entry for a page.
abbrev pub IsKnown : Opt → ℕ → Type 0
IsKnown o q = (e : Entry) × (o.hash_table (hash q) ≡ some e)

pub entry_page :
    (o : Opt) (q : ℕ) (e : Entry)
    → IsDirect o.hash_table
    → q < 2 ^ 24
    → o.hash_table (hash q) ≡ some e
    → e.vaddr ≡ q
entry_page o q e v small there =
    hash-injective e.vaddr q (v.page (hash q) e there) small (v.slot (hash q) e there)

pub entry_nodes :
    (o : Opt) (q : ℕ) (e : Entry)
    → IsDirect o.hash_table
    → q < 2 ^ 24
    → o.hash_table (hash q) ≡ some e
    → e.nodes ≡ uses o.hash_table q
unfolding uses
entry_nodes o q e v small there =
    let own : (e.vaddr == q) ≡ true =
      subst (λ z. (z == q) ≡ true) (sym (entry_page o q e v small there)) (==_refl q) in
    sym (ap (uses_of q) there ∙ ap (λ b. if b then e.nodes else []) own)

module _ {F : Type 0} where
  -- The page of a frame, and the lines from the current one on that access it.
  abbrev pub page_of : Machine F → ℕ → ℕ
  page_of m i = (m.physmem i).vaddr / 4096

  abbrev pub next_uses : Machine F → Opt → List ℕ → ℕ → List ℕ
  next_uses m o rest i = lines_of (page_of m i) o.current_trace rest

  -- While the table holds the lines to come, and has an entry for the page in each of the one or more
  -- frames, opt_evict returns, and changes nothing. The page in the frame that it gives is not accessed
  -- by any line to come, or the page of every frame is, and none of them is accessed first by a line
  -- behind the first one for the page chosen.
  pub opt_evict-IsFurthest :
      (m : Machine F) (o : Opt) (rest : List ℕ)
      → IsAhead o rest
      → 0 < m.memsize
      → ((i : ℕ) → i < m.memsize → (page_of m i < 2 ^ 24) × IsKnown o (page_of m i))
      → Returns
          (λ (f, m', o'). IsFurthest (next_uses m o rest) m.memsize f × (m' ≡ m) × (o' ≡ o))
          (opt_evict m o)
  unfolding opt_evict IsBest
  opt_evict-IsFurthest m o rest a pos frames =
      bind
        (evict_loop-IsFurthest m o.hash_table (next_uses m o rest) m.memsize 0 m.memsize none none
          (omega arith) pos
          (λ i lt.
            let (small, (e, there)) = frames i lt in
            (
              hash (page_of m i),
              e,
              find_index-direct o.hash_table (page_of m i) e a.direct small there,
              there,
              entry_nodes o (page_of m i) e a.direct small there ∙ a.ahead (page_of m i) small,
            ))
          refl)
        λ f furthest. returns (furthest, refl, refl)
