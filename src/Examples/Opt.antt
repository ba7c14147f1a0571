-- ===== src/Examples/Opt.antt =====
-- a2/starter/opt.c at a trace of three lines.
use csc369group.Prelude.{
  ℕ, ◌<◌, ◌^◌, ◌≡◌, refl, none, some, List, [], ◌∷◌, arith, zero, suc, ◌+◌, ◌*◌, eq_or_ne, inl, inr,
  negsuc, if◌then◌else◌, ◌==◌,
}
use csc369group.Outcome.{Returns}
use csc369group.Paging.Swap.{State}
use csc369group.Paging.Opt.Furthest.{IsFurthest}
use csc369group.Paging.Opt.Optimal.{IsAhead, IsKnown, page_of, next_uses, opt_evict-IsFurthest}
use csc369group.Paging.Opt.Ahead.{opt_ref-IsAhead}
use csc369group.Examples.Paging.{last_page, machine}
use csc369group.Paging.Opt.{Entry, Table, Opt, hash, opt_init, opt_evict, opt_ref}
use csc369group.Paging.Opt.Hash.{IsDirect, uses}
use csc369group.Paging.Opt.Trace.{lines_of, AreAddresses, opt_init-lines}

abbrev trace : List ℕ
trace = 4096 ∷ 8192 ∷ 4100 ∷ []

trace-AreAddresses : AreAddresses trace
trace-AreAddresses = (omega arith, (omega arith, (omega arith, tt)))

init_opt_example :
    Returns
      (λ o.
        IsDirect o.hash_table
        × (o.current_trace ≡ 0)
        × ((q : ℕ) → q < 2 ^ 24 → uses o.hash_table q ≡ lines_of q 0 trace))
      (opt_init trace)
init_opt_example = opt_init-lines trace trace-AreAddresses

-- Page 1 is accessed by the lines 0 and 2.
lines_of-runs : lines_of 1 0 trace ≡ 0 ∷ 2 ∷ []
unfolding lines_of
lines_of-runs = refl

abbrev first : Entry
first = record { vaddr = 1; nodes = 0 ∷ 2 ∷ [] }

-- The table that holds page 1 only, which hashes to 16000057.
abbrev table : Table
table index = if index == 16000057 then some first else none

hash_1 : hash 1 ≡ 16000057
unfolding hash
hash_1 = refl

table-IsDirect : IsDirect table
table-IsDirect = record {
  page = λ index e h. ground arith;
  slot = λ index e h. ground (arith, hash_1);
}

at_hash : table (hash 1) ≡ some first
unfolding hash
at_hash = refl

-- At line 1 of the trace 4096, 8192, 4100 the table has one line for page 1 and one for page 2, which hash
-- to 16000057 and 15222898.
abbrev started : Opt
started = record {
  hash_table = λ index.
      if index == 16000057
      then some (record { vaddr = 1; nodes = 2 ∷ [] })
      else if index == 15222898
      then some (record { vaddr = 2; nodes = 1 ∷ [] })
      else none;
  current_trace = 1;
}

hash_2 : hash 2 ≡ 15222898
unfolding hash
hash_2 = refl

started-IsDirect : IsDirect started.hash_table
started-IsDirect = record {
  page = λ index e h. ground arith;
  slot = λ index e h. ground (arith, hash_1, hash_2);
}

started-IsAhead : IsAhead started (8192 ∷ 4100 ∷ [])
unfolding uses lines_of
started-IsAhead = record {
  direct = started-IsDirect;
  ahead = λ q lt. elim (eq_or_ne q 1) [
    | inl one ↦ rw (one, hash_1) refl
    | inr other ↦ elim (eq_or_ne q 2) [
      | inl two ↦ rw (two, hash_2) refl
      | inr neither ↦ ground (arith, other, neither)
    ]
  ];
}

-- Two frames, with the pages 1 and 2.
abbrev two_pages : State last_page
two_pages = record machine {
  memsize = 2;
  physmem = λ i. record { version = 0; vaddr = 4096 * (i + 1) };
}

page_1 : started.hash_table (hash 1) ≡ some (record { vaddr = 1; nodes = 2 ∷ [] })
page_1 = rw hash_1 refl

page_2 : started.hash_table (hash 2) ≡ some (record { vaddr = 2; nodes = 1 ∷ [] })
page_2 = rw hash_2 refl

two_pages-IsKnown :
    (i : ℕ) → i < 2 → (page_of two_pages i < 2 ^ 24) × IsKnown started (page_of two_pages i)
two_pages-IsKnown zero h = (omega arith, (_, page_1))
two_pages-IsKnown (suc zero) h = (omega arith, (_, page_2))
two_pages-IsKnown (suc (suc i)) h = absurd (omega arith)

opt_evict_example :
    Returns
      (λ (f, m', o').
        IsFurthest (next_uses two_pages started (8192 ∷ 4100 ∷ [])) 2 f
        × (m' ≡ two_pages)
        × (o' ≡ started))
      (opt_evict two_pages started)
opt_evict_example =
    opt_evict-IsFurthest two_pages started (8192 ∷ 4100 ∷ []) started-IsAhead (omega arith)
      two_pages-IsKnown

-- The entry at 16 is that of page 2, in frame 1.
abbrev second_valid : State last_page
second_valid = record two_pages { ptes = λ q. record { frame = 4097; swap_off = negsuc 0 } }

opt_ref_example :
    Returns
      (λ (m', o').
        (m' ≡ second_valid)
        × IsAhead o' (4100 ∷ [])
        × (o'.current_trace ≡ 2)
        × ((q : ℕ) → IsKnown started q → IsKnown o' q))
      (opt_ref 16 second_valid started)
opt_ref_example =
    opt_ref-IsAhead 16 second_valid started 8192 (4100 ∷ []) started-IsAhead (omega arith) refl
