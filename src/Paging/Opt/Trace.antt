-- ===== src/Paging/Opt/Trace.antt =====
-- a2/starter/opt.c: after `opt_init` the table says when each page is accessed, and `search` finds it.
use mathlib.Core.List.{append-nil, append_assoc}
use csc369group.Prelude.{
  ℕ, suc, ◌/◌, ◌^◌, ◌<◌, ◌≡◌, refl, true, false, none, some, List, [], ◌∷◌, ◌++◌, arith,
  if◌then◌else◌, ◌==◌, Bool-cases, inl, inr, ap, sym, ◌∙◌,
}
use csc369group.Outcome.{ok, Returns, returns, bind, imply}
use csc369group.Paging.Opt.{
  hsize, Entry, Table, Opt, hash, holds, search_loop, find_index, read_trace, opt_init,
}
use csc369group.Paging.Opt.Hash.{hash-injective, IsDirect, uses, insert-IsInserted}

-- The lines of a trace, counted from `i`, that access a page.
unfoldable pub lines_of : (page i : ℕ) → List ℕ → List ℕ
lines_of page i [] = []
lines_of page i (vaddr ∷ rest) =
    if vaddr / 4096 == page then i ∷ lines_of page (suc i) rest else lines_of page (suc i) rest

-- Addresses of 36 bits.
abbrev pub AreAddresses : List ℕ → Type 0
AreAddresses [] = Unit {0}
AreAddresses (vaddr ∷ rest) = (vaddr < 2 ^ 36) × AreAddresses rest

-- The table after a trace that was read from the state `o` on.
abbrev IsRead : List ℕ → Opt → Opt → Type 0
IsRead trace o o' =
    IsDirect o'.hash_table
    × ((q : ℕ)
        → q < 2 ^ 24
        → uses o'.hash_table q ≡ uses o.hash_table q ++ lines_of q o.current_trace trace)

-- One line more, at the front of the rest.
joined :
    (q vaddr i i1 : ℕ) (rest before after : List ℕ)
    → after ≡ (if q == vaddr / 4096 then before ++ i ∷ [] else before)
    → i1 ≡ i
    → after ++ lines_of q (suc i1) rest ≡ before ++ lines_of q i (vaddr ∷ rest)
unfolding lines_of
joined q vaddr i i1 rest before after recorded same_line = elim (Bool-cases (q == vaddr / 4096)) [
  | inl here ↦
      let back : (vaddr / 4096 == q) ≡ true = ground arith in
      rw (recorded, same_line, here, back) (append_assoc before (i ∷ []) (lines_of q (suc i) rest))
  | inr away ↦
      let back : (vaddr / 4096 == q) ≡ false = ground arith in
      rw (recorded, same_line, away, back) refl
]

read_trace-IsRead :
    (trace : List ℕ) (o : Opt)
    → AreAddresses trace
    → IsDirect o.hash_table
    → Returns (IsRead trace o) (read_trace trace o)
unfolding read_trace lines_of
read_trace-IsRead [] o h v = returns (v, λ q lt. sym (append-nil (uses o.hash_table q)))
read_trace-IsRead (vaddr ∷ rest) o (small, h) v =
    bind (insert-IsInserted (vaddr / 4096) o (omega arith) v) λ o1 i.
      imply (read_trace-IsRead rest (record o1 { current_trace = suc o1.current_trace }) h i.direct)
        λ o2 (direct, read). (
          direct,
          λ q lt.
              read q lt
              ∙ joined q vaddr o.current_trace o1.current_trace rest (uses o.hash_table q)
                  (uses o1.hash_table q) (i.recorded q lt) i.same_line,
        )

-- Where every entry stands at the hash of its page, `search` finds the entry of a page number below
-- 2 ^ 24, if there is one, at the hash of that number.
pub find_index-direct :
    (t : Table) (page : ℕ) (e : Entry)
    → IsDirect t
    → page < 2 ^ 24
    → t (hash page) ≡ some e
    → find_index page t ≡ ok (some (hash page))
unfolding find_index
find_index-direct t page e v small there =
    let same : (e.vaddr == page) ≡ true = ground (
      arith,
      hash-injective e.vaddr page (v.page (hash page) e there) small (v.slot (hash page) e there),
    ) in
    let held : holds (t (hash page)) page ≡ true = ap (λ o. holds o page) there ∙ same in
    ap (λ b. if b then ok (some (hash page)) else search_loop hsize 0 page t) held

-- For a trace of 36-bit addresses `opt_init` returns, with the current line at 0. The table then holds,
-- for each page, exactly the lines that access it, in order.
pub opt_init-lines :
    (trace : List ℕ)
    → AreAddresses trace
    → Returns
        (λ o.
          IsDirect o.hash_table
          × (o.current_trace ≡ 0)
          × ((q : ℕ) → q < 2 ^ 24 → uses o.hash_table q ≡ lines_of q 0 trace))
        (opt_init trace)
unfolding opt_init
opt_init-lines trace h =
    let empty : IsDirect (λ _. none) = record {
      page = λ index e none_there. ground (arith, none_there);
      slot = λ index e none_there. ground (arith, none_there);
    } in
    bind (read_trace-IsRead trace (record { hash_table = λ _. none; current_trace = 0 }) h empty)
      λ o (direct, read). returns (direct, refl, λ q lt. read q lt ∙ (unfold uses in refl))
