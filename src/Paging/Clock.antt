-- ===== src/Paging/Clock.antt =====
-- a2/starter/clock.c: the clock algorithm. Its data is `clock_hand`.
use csc369group.Prelude.{ℕ, zero, suc, ◌+◌, ◌%◌, not, if◌then◌else◌, update}
use csc369group.Outcome.{Outcome, ok, abort}
use csc369group.Paging.Machine.{Pte, is_valid, is_ref, set_flag, toggle_flag, Machine, Functions}

module _ {F : Type 0} where
  -- coremap[clock_hand].pte
  abbrev pub at_hand : Machine F → ℕ → ℕ
  at_hand m hand = (m.coremap hand).pte

  -- Write one entry.
  abbrev pub put_pte : Machine F → ℕ → Pte → Machine F
  put_pte m p e = record m { ptes = update m.ptes p e }

  -- The `while` on fuel; `abort` means that the fuel ran out.
  unfoldable pub clock_loop : (fuel : ℕ) → Machine F → ℕ → Outcome (ℕ × Machine F × ℕ)
  clock_loop zero m hand = abort
  clock_loop (suc fuel) m hand =
      let p = at_hand m hand in
      let rest =
        clock_loop fuel (put_pte m p (toggle_flag 2 (m.ptes p))) ((hand + 1) % m.memsize) in
      if is_ref (m.ptes p) then rest else ok (hand, m, hand)

  unfoldable pub clock_evict : Machine F → ℕ → Outcome (ℕ × Machine F × ℕ)
  unfolding clock_loop
  clock_evict m hand = clock_loop (m.memsize + 1) m hand

  unfoldable pub clock_ref : ℕ → Machine F → ℕ → Outcome (Machine F × ℕ)
  clock_ref p m hand =
      let e = m.ptes p in
      let q = at_hand m hand in
      if is_valid e
      then ok (if not (is_ref e) then put_pte m p (set_flag 2 e) else m, hand)
      else if not (is_ref (m.ptes q))
      then ok (put_pte m q (set_flag 2 (m.ptes q)), (hand + 1) % m.memsize)
      else ok (m, hand)

  abbrev pub clock : Functions F ℕ
  clock = record { ref = clock_ref; evict = clock_evict }

abbrev pub clock_init : ℕ
clock_init = 0
