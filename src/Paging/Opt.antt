-- ===== src/Paging/Opt.antt =====
-- a2/starter/opt.c: the optimal algorithm, which reads the whole trace first.
pub mod Hash
pub mod Trace
pub mod Furthest
pub mod Optimal
pub mod Ahead
use csc369group.Prelude.{
  ℕ, zero, suc, ◌+◌, ◌*◌, ◌/◌, ◌%◌, ◌^◌, Bool, true, false, Option, none, some, List, [], ◌∷◌, ◌++◌,
  if◌then◌else◌, ltb, ◌==◌, update,
}
use csc369group.Outcome.{Outcome, ok, exit, abort, ◌>>=◌}
use csc369group.Paging.Machine.{Machine, Functions, frame_of}

abbrev pub hsize : ℕ
hsize = 4096 * 4096

-- `hash_tbl_entry`. The nodes between `head` and `back` are a list; `back` is its last node.
pub record Entry : Type 0 where
  pub vaddr : ℕ
  pub nodes : List ℕ

abbrev pub Table : Type 0
Table = ℕ → Option Entry

-- The globals of opt.c.
pub record Opt : Type 0 where
  pub hash_table : Table
  pub current_trace : ℕ

-- The slot that pointer `e` in the table leads to; NULL must not be followed.
abbrev pub deref : Option Entry → Outcome Entry
deref none = abort
deref (some e) = ok e

-- `append(index)`, which links a node with `current_trace` behind the last one
unfoldable pub append : (index : ℕ) → Opt → Outcome Opt
append index o = do
  e ← deref (o.hash_table index)
  ok (record o {
    hash_table =
        update o.hash_table index (some (record e { nodes = e.nodes ++ o.current_trace ∷ [] }));
  })

-- `delete(index)`: the head must be there.
unfoldable pub delete : (index : ℕ) → Opt → Outcome Opt
delete index o = do
  e ← deref (o.hash_table index)
  elim e.nodes [
    | [] ↦ abort
    | t ∷ ts ↦
        ok (record o { hash_table = update o.hash_table index (some (record e { nodes = ts })) })
  ]

unfoldable pub hash : ℕ → ℕ
hash vaddr = vaddr * 16000057 % 2 ^ 64 % hsize

-- A new entry with an empty list, and then its first node.
unfoldable pub new_entry : (index vaddr : ℕ) → Opt → Outcome Opt
unfolding append
new_entry index vaddr o = append index (record o {
  hash_table = update o.hash_table index (some (record { vaddr = vaddr; nodes = [] }));
})

-- The slot holds an entry for this page.
abbrev pub holds : Option Entry → ℕ → Bool
holds none vaddr = false
holds (some e) vaddr = e.vaddr == vaddr

-- The probing of `insert`, round `i` of HSIZE.
unfoldable pub insert_loop : (rounds i vaddr : ℕ) → Opt → Outcome Opt
unfolding new_entry append
insert_loop zero i vaddr o = exit 1
insert_loop (suc r) i vaddr o =
    let index = (hash vaddr + i) % hsize in
    let rest = insert_loop r (suc i) vaddr o in
    elim (o.hash_table index) [
      | none ↦ new_entry index vaddr o
      | some e ↦ if e.vaddr == vaddr then append index o else rest
    ]

unfoldable pub insert : (vaddr : ℕ) → Opt → Outcome Opt
unfolding insert_loop new_entry
insert vaddr o =
    let probe = insert_loop hsize 0 vaddr o in
    elim (o.hash_table (hash vaddr)) [ none ↦ new_entry (hash vaddr) vaddr o | some e ↦ probe ]

-- The probing of `search`. HSIZE is a product without parentheses, so `% HSIZE` takes the remainder
-- by its first factor and multiplies by the second. `none` is -1.
unfoldable pub search_loop : (rounds i vaddr : ℕ) → Table → Outcome (Option ℕ)
search_loop zero i vaddr t = ok none
search_loop (suc r) i vaddr t =
    let index = (hash vaddr + i) % 4096 * 4096 in
    let rest = search_loop r (suc i) vaddr t in
    elim (t (hash vaddr)) [
      | none ↦ elim (t index) [ none ↦ ok none | some _ ↦ rest ]
      | some _ ↦ elim (t index) [
        | none ↦ abort
        | some e ↦ if e.vaddr == vaddr then ok (some index) else rest
      ]
    ]

unfoldable pub find_index : (vaddr : ℕ) → Table → Outcome (Option ℕ)
unfolding search_loop
find_index vaddr t =
    let probe = search_loop hsize 0 vaddr t in
    if holds (t (hash vaddr)) vaddr then ok (some (hash vaddr)) else probe

-- max_trace < trace, where `none` is the initial -1
abbrev pub exceeds_max : Option ℕ → ℕ → Bool
exceeds_max none trace = true
exceeds_max (some max) trace = ltb max trace

module _ {F : Type 0} where
  -- The loop of `opt_evict` from frame `i` on, with the best frame so far and its next use. Index
  -- -1 of the table, and frame -1 of the coremap, are outside the arrays.
  unfoldable pub evict_loop :
      (rounds i : ℕ) → (best : Option ℕ) → (max_trace : Option ℕ) → Machine F → Table → Outcome ℕ
  evict_loop zero i best max_trace m t = elim best [ none ↦ abort | some frame ↦ ok frame ]
  evict_loop (suc r) i best max_trace m t = do
    found ← find_index ((m.physmem i).vaddr / 4096) t
    elim found [
      | none ↦ abort
      | some index ↦ do
        e ← deref (t index)
        elim e.nodes [
          | [] ↦ ok i
          | trace ∷ later ↦
              let further = exceeds_max max_trace trace in
              evict_loop r (suc i) (if further then some i else best)
                (if further then some trace else max_trace) m t
        ]
    ]

  unfoldable pub opt_evict : Machine F → Opt → Outcome (ℕ × Machine F × Opt)
  unfolding evict_loop
  opt_evict m o = do frame ← evict_loop m.memsize 0 none none m o.hash_table; ok (frame, m, o)

  unfoldable pub opt_ref : ℕ → Machine F → Opt → Outcome (Machine F × Opt)
  unfolding find_index delete
  opt_ref p m o = do
    found ← find_index ((m.physmem (frame_of (m.ptes p))).vaddr / 4096) o.hash_table
    elim found [
      | none ↦ exit 1
      | some index ↦ do o ← delete index o; ok (m, record o { current_trace = suc o.current_trace })
    ]

  abbrev pub opt : Functions F Opt
  opt = record { ref = opt_ref; evict = opt_evict }

-- The lines of the trace that are not valgrind's comments, as addresses.
unfoldable pub read_trace : List ℕ → Opt → Outcome Opt
read_trace [] o = ok o
read_trace (vaddr ∷ rest) o = do
  o ← insert (vaddr / 4096) o
  read_trace rest (record o { current_trace = suc o.current_trace })

unfoldable pub opt_init : List ℕ → Outcome Opt
unfolding read_trace
opt_init trace = do
  o ← read_trace trace (record { hash_table = λ _. none; current_trace = 0 })
  ok (record o { current_trace = 0 })
