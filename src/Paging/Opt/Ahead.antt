-- ===== src/Paging/Opt/Ahead.antt =====
-- a2/starter/opt.c: the table during the replay.
use csc369group.Prelude.{
  ℕ, suc, ◌/◌, ◌^◌, ◌<◌, ◌≡◌, refl, true, false, some, List, ◌∷◌, arith, if◌then◌else◌, ◌==◌,
  Bool-cases, Option-cases, inl, inr, ap, sym, ◌∙◌, subst, update, eq_or_ne, ==_refl,
}
use csc369group.Outcome.{Outcome, ok, Returns, returns, ◌>>=◌}
use csc369group.Paging.Machine.{Machine, frame_of}
use csc369group.Paging.Opt.{Opt, hash, find_index, delete, opt_ref}
use csc369group.Paging.Opt.Hash.{IsDirect, uses, written, written-IsDirect, written-uses}
use csc369group.Paging.Opt.Trace.{lines_of, find_index-direct}
use csc369group.Paging.Opt.Optimal.{IsAhead, IsKnown, page_of, entry_page, entry_nodes}

lines_of-here :
    (q k vaddr : ℕ) (rest : List ℕ)
    → lines_of q k (vaddr ∷ rest)
      ≡ (if q == vaddr / 4096 then k ∷ lines_of q (suc k) rest else lines_of q (suc k) rest)
unfolding lines_of
lines_of-here q k vaddr rest = elim (Bool-cases (q == vaddr / 4096)) [
  | inl here ↦ let back : (vaddr / 4096 == q) ≡ true = ground arith in rw (here, back) refl
  | inr away ↦ let back : (vaddr / 4096 == q) ≡ false = ground arith in rw (away, back) refl
]

-- A page with a line to come has an entry.
use-IsKnown : (o : Opt) (q k : ℕ) (ks : List ℕ) → uses o.hash_table q ≡ k ∷ ks → IsKnown o q
unfolding uses
use-IsKnown o q k ks h = elim (Option-cases (o.hash_table (hash q))) [
  | inl missing ↦ absurd (ground (arith, h, missing))
  | inr (e, there) ↦ (e, there)
]

>>=-ok : {A B : Type 0} (r : Outcome A) (a : A) (k : A → Outcome B) → r ≡ ok a → (r >>= k) ≡ k a
>>=-ok r a k e = ap (λ z. z >>= k) e

delete_lem :
    (o : Opt) (index vaddr k : ℕ) (ks : List ℕ)
    → o.hash_table index ≡ some (record { vaddr = vaddr; nodes = k ∷ ks })
    → delete index o
      ≡ ok (record o {
        hash_table = update o.hash_table index (some (record { vaddr = vaddr; nodes = ks }));
      })
unfolding delete
delete_lem o index vaddr k ks h = rw h refl

-- What the delete of the first line of a page leaves.
delete-written :
    (o : Opt) (q k : ℕ) (ks : List ℕ) (v : IsDirect o.hash_table) (small : q < 2 ^ 24)
    → uses o.hash_table q ≡ k ∷ ks
    → delete (hash q) o ≡ ok (written q small o v ks)
delete-written o q k ks v small h =
    let (e, there) = use-IsKnown o q k ks h in
    let nodes : e.nodes ≡ k ∷ ks = entry_nodes o q e v small there ∙ h in
    let page = entry_page o q e v small there in
    delete_lem o (hash q) q k ks (there ∙ ap some (λ i. record { vaddr = page i; nodes = nodes i }))

module _ (o : Opt) (vaddr : ℕ) (rest : List ℕ) (a : IsAhead o (vaddr ∷ rest))
    (small : vaddr / 4096 < 2 ^ 24) where
  -- The state after the access of the current line.
  abbrev passed : Opt
  passed =
      let q = vaddr / 4096 in
      let left = written q small o a.direct (lines_of q (suc o.current_trace) rest) in
      record left { current_trace = suc left.current_trace }

  passed-IsAhead : IsAhead passed rest
  passed-IsAhead =
      let page = vaddr / 4096 in
      let ks = lines_of page (suc o.current_trace) rest in
      record {
        direct = written-IsDirect page small o a.direct ks;
        ahead = λ q lt. elim (Bool-cases (q == page)) [
          | inl here ↦
              let same : page ≡ q = ground arith in
              written-uses page small o a.direct ks q lt
              ∙ ap (λ b. if b then ks else uses o.hash_table q) here
              ∙ ap (λ z. lines_of z (suc o.current_trace) rest) same
          | inr away ↦
              written-uses page small o a.direct ks q lt
              ∙ ap (λ b. if b then ks else uses o.hash_table q) away
              ∙ a.ahead q lt
              ∙ lines_of-here q o.current_trace vaddr rest
              ∙ ap
                  (λ b.
                    if b
                    then o.current_trace ∷ lines_of q (suc o.current_trace) rest
                    else lines_of q (suc o.current_trace) rest)
                  away
        ];
      }

  passed-IsKnown : (q : ℕ) → IsKnown o q → IsKnown passed q
  passed-IsKnown q (e, there) = elim (eq_or_ne (hash q) (hash (vaddr / 4096))) [
    | inl same ↦ (
      record { vaddr = vaddr / 4096; nodes = lines_of (vaddr / 4096) (suc o.current_trace) rest },
      ground (arith, same),
    )
    | inr differ ↦ (e, ground (arith, differ, there))
  ]

  current-uses :
      uses o.hash_table (vaddr / 4096)
      ≡ o.current_trace ∷ lines_of (vaddr / 4096) (suc o.current_trace) rest
  current-uses =
      a.ahead (vaddr / 4096) small
      ∙ lines_of-here (vaddr / 4096) o.current_trace vaddr rest
      ∙ ap
          (λ b.
            if b
            then o.current_trace ∷ lines_of (vaddr / 4096) (suc o.current_trace) rest
            else lines_of (vaddr / 4096) (suc o.current_trace) rest)
          (==_refl (vaddr / 4096))

module _ {F : Type 0} where
  opt_ref_lem :
      (p : ℕ) (m : Machine F) (o o1 : Opt) (q index : ℕ)
      → page_of m (frame_of (m.ptes p)) ≡ q
      → find_index q o.hash_table ≡ ok (some index)
      → delete index o ≡ ok o1
      → opt_ref p m o ≡ ok (m, record o1 { current_trace = suc o1.current_trace })
  unfolding opt_ref
  opt_ref_lem p m o o1 q index here found done =
      >>=-ok (find_index (page_of m (frame_of (m.ptes p))) o.hash_table) (some index) _
        (ap (λ z. find_index z o.hash_table) here ∙ found)
      ∙ >>=-ok (delete index o) o1 _ done

  -- A reference by the current line of the trace, to a frame that holds the line's page: opt_ref returns,
  -- the machine is as before, the table holds the lines that are still to come, and no page has lost its
  -- entry.
  pub opt_ref-IsAhead :
      (p : ℕ) (m : Machine F) (o : Opt) (vaddr : ℕ) (rest : List ℕ)
      → IsAhead o (vaddr ∷ rest)
      → vaddr / 4096 < 2 ^ 24
      → page_of m (frame_of (m.ptes p)) ≡ vaddr / 4096
      → Returns
          (λ (m', o').
            (m' ≡ m)
            × IsAhead o' rest
            × (o'.current_trace ≡ suc o.current_trace)
            × ((q : ℕ) → IsKnown o q → IsKnown o' q))
          (opt_ref p m o)
  opt_ref-IsAhead p m o vaddr rest a small here =
      let page = vaddr / 4096 in
      let now = current-uses o vaddr rest a small in
      let (e, there) = use-IsKnown o page _ _ now in
      let left = written page small o a.direct (lines_of page (suc o.current_trace) rest) in
      subst
        (Returns λ (m', o').
          (m' ≡ m)
          × IsAhead o' rest
          × (o'.current_trace ≡ suc o.current_trace)
          × ((q : ℕ) → IsKnown o q → IsKnown o' q))
        (sym (
          opt_ref_lem p m o left page (hash page) here
            (find_index-direct o.hash_table page e a.direct small there)
            (delete-written o page o.current_trace _ a.direct small now)))
        (returns
          (refl, passed-IsAhead o vaddr rest a small, refl, passed-IsKnown o vaddr rest a small))
