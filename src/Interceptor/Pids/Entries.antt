-- ===== src/Interceptor/Pids/Entries.antt =====
-- a1/interceptor.c: what the list operations do to one entry of `table`.
use csc369group.Prelude.{
  ℕ, suc, ◌+◌, ◌≤◌, ◌≡◌, refl, true, not, ◌&&◌, List, [], ◌∷◌, length, arith, ◌==◌, if◌then◌else◌,
  Bool-cases, inl, inr, is, zero, ◌∙◌, ltb, leb,
}
use csc369group.Interceptor.State.{MyTable}
use csc369group.Interceptor.Pids.{contains, unlink, drop_pid, purge_nodes, purge, purge_below}
use csc369group.Interceptor.Invariant.{EntryIsValid}

-- How often a pid stands in a list.
unfoldable pub occurrences : ℕ → List ℕ → ℕ
occurrences pid [] = 0
occurrences pid (q ∷ qs) = (if q == pid then 1 else 0) + occurrences pid qs

pub length-unlink :
    (pid : ℕ) (l : List ℕ) → contains pid l ≡ true → suc (length (unlink pid l)) ≡ length l
unfolding contains unlink
length-unlink pid [] h = cc
length-unlink pid (q ∷ qs) h = ground (arith, length-unlink pid qs)

pub occurrences-unlink :
    (pid j : ℕ) (l : List ℕ)
    → occurrences j l
      ≡ occurrences j (unlink pid l) + (if contains pid l && (j == pid) then 1 else 0)
unfolding contains unlink occurrences
occurrences-unlink pid j [] = ground arith
occurrences-unlink pid j (q ∷ qs) = ground (arith, occurrences-unlink pid j qs)

pub contains-occurrences : (pid : ℕ) (l : List ℕ) → contains pid l ≡ not (occurrences pid l == 0)
unfolding contains occurrences
contains-occurrences pid [] = ground arith
contains-occurrences pid (q ∷ qs) = ground (arith, contains-occurrences pid qs)

nil_of_length : (l : List ℕ) → length l ≡ 0 → l ≡ []
nil_of_length [] h = refl
nil_of_length (x ∷ l) h = absurd (omega arith)

pub my_list-empty : {e : MyTable} → EntryIsValid e → is e.listcount 0 ≡ true → e.my_list ≡ []
my_list-empty {e} v z = nil_of_length e.my_list (ground (arith, v.counted))

pub drop_pid-EntryIsValid :
    (pid : ℕ) {e : MyTable}
    → contains pid e.my_list ≡ true
    → EntryIsValid e
    → EntryIsValid (drop_pid pid e)
unfolding drop_pid contains
drop_pid-EntryIsValid pid {e} h v = record {
  counted = ground (arith, length-unlink pid e.my_list h, v.counted);
  mode = ground (arith, v.mode);
  idle = λ z. nil_of_length _ (ground (arith, length-unlink pid e.my_list h, v.counted, v.idle));
  saved = v.saved;
}

-- The walk over the nodes `l` of the list drops the pid once for each time that it stands in `l`.
purge_nodes-EntryIsValid :
    (pid : ℕ) (l : List ℕ) (e : MyTable)
    → occurrences pid l ≤ occurrences pid e.my_list
    → EntryIsValid e
    → EntryIsValid (purge_nodes pid l e)
unfolding purge_nodes
purge_nodes-EntryIsValid pid [] e h v = v
purge_nodes-EntryIsValid pid (q ∷ qs) e h v = elim (Bool-cases (q == pid)) [
  | inl hit ↦ rw hit (
      purge_nodes-EntryIsValid pid qs (drop_pid pid e)
        (unfold occurrences drop_pid in
          ground (arith, occurrences-unlink pid pid e.my_list, contains-occurrences pid e.my_list))
        (drop_pid-EntryIsValid pid
          (unfold occurrences in ground (arith, contains-occurrences pid e.my_list)) v))
  | inr miss ↦ rw miss (purge_nodes-EntryIsValid pid qs e (unfold occurrences in ground arith) v)
]

occurrences-purge_nodes :
    (pid j : ℕ) (l : List ℕ) (e : MyTable)
    → occurrences pid l ≤ occurrences pid e.my_list
    → occurrences j (purge_nodes pid l e).my_list + (if j == pid then occurrences pid l else 0)
      ≡ occurrences j e.my_list
unfolding purge_nodes occurrences
occurrences-purge_nodes pid j [] e h = unfold occurrences in ground arith
occurrences-purge_nodes pid j (q ∷ qs) e h = elim (Bool-cases (q == pid)) [
  | inl hit ↦ rw hit (
      unfold occurrences drop_pid in
      ground (
        arith,
        occurrences-unlink pid pid e.my_list,
        occurrences-unlink pid j e.my_list,
        contains-occurrences pid e.my_list,
        occurrences-purge_nodes pid j qs (drop_pid pid e),
      ))
  | inr miss ↦ rw miss (unfold occurrences in ground (arith, occurrences-purge_nodes pid j qs e))
]

pub purge-EntryIsValid : (pid : ℕ) (e : MyTable) → EntryIsValid e → EntryIsValid (purge pid e)
unfolding purge
purge-EntryIsValid pid e v = purge_nodes-EntryIsValid pid e.my_list e (omega arith) v

-- After the walk the pid is gone, and every other pid stands in the list as often as before.
pub occurrences-purge :
    (pid j : ℕ) (e : MyTable)
    → occurrences j (purge pid e).my_list ≡ (if j == pid then 0 else occurrences j e.my_list)
unfolding purge
occurrences-purge pid j e = ground (arith, occurrences-purge_nodes pid j e.my_list e)

intercepted-purge_nodes :
    (pid : ℕ) (l : List ℕ) (e : MyTable) → (purge_nodes pid l e).intercepted ≡ e.intercepted
unfolding purge_nodes drop_pid
intercepted-purge_nodes pid [] e = refl
intercepted-purge_nodes pid (q ∷ qs) e =
    intercepted-purge_nodes pid qs (if q == pid then drop_pid pid e else e) ∙ ground arith

module _ (pid : ℕ) where
  pub intercepted-purge_below :
      (r : ℕ) (t : ℕ → MyTable) (n : ℕ) → (purge_below pid r t n).intercepted ≡ (t n).intercepted
  unfolding purge_below purge
  intercepted-purge_below zero t n = refl
  intercepted-purge_below (suc r) t n = ground (
    arith,
    intercepted-purge_below r t n,
    intercepted-purge_nodes pid (t (suc r)).my_list (t (suc r)),
  )

  pub purge_below-EntryIsValid :
      (r : ℕ) (t : ℕ → MyTable)
      → ((n : ℕ) → EntryIsValid (t n))
      → (n : ℕ) → EntryIsValid (purge_below pid r t n)
  unfolding purge_below
  purge_below-EntryIsValid zero t v n = v n
  purge_below-EntryIsValid (suc r) t v n = elim (Bool-cases (n == suc r)) [
    | inl p ↦ rw p (purge-EntryIsValid pid (t (suc r)) (v (suc r)))
    | inr p ↦ rw p (purge_below-EntryIsValid r t v n)
  ]

  -- The loop visits the entries 1 .. r and no other.
  pub purge_below_lem :
      (r : ℕ) (t : ℕ → MyTable) (n : ℕ)
      → purge_below pid r t n ≡ (if ltb 0 n && leb n r then purge pid (t n) else t n)
  unfolding purge_below
  purge_below_lem zero t n = ground arith
  purge_below_lem (suc r) t n = ground (arith, purge_below_lem r t n)
