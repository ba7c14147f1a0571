-- ===== src/Paging/Fifo.antt =====
-- a2/starter/fifo.c and rand.c: the two algorithms that never look at a page.
use csc369group.Prelude.{ℕ, suc, ◌+◌, ◌%◌}
use csc369group.Outcome.{Outcome, ok}
use csc369group.Paging.Machine.{Machine, Functions}

module _ {F : Type 0} where
  -- The data of fifo.c is `queue_front`.
  unfoldable pub fifo_evict : Machine F → ℕ → Outcome (ℕ × Machine F × ℕ)
  fifo_evict m queue_front = ok (queue_front, m, (queue_front + 1) % m.memsize)

  unfoldable pub fifo_ref : ℕ → Machine F → ℕ → Outcome (Machine F × ℕ)
  fifo_ref p m queue_front = ok (m, queue_front)

  abbrev pub fifo : Functions F ℕ
  fifo = record { ref = fifo_ref; evict = fifo_evict }

  -- The data of rand.c is the number of calls of `random` so far.
  unfoldable pub rand_evict : (random : ℕ → ℕ) → Machine F → ℕ → Outcome (ℕ × Machine F × ℕ)
  rand_evict random m calls = ok (random calls % m.memsize, m, suc calls)

  unfoldable pub rand_ref : ℕ → Machine F → ℕ → Outcome (Machine F × ℕ)
  rand_ref p m calls = ok (m, calls)

  abbrev pub rand : (random : ℕ → ℕ) → Functions F ℕ
  rand random = record { ref = rand_ref; evict = rand_evict random }

abbrev pub fifo_init : ℕ
fifo_init = 0
