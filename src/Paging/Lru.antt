-- ===== src/Paging/Lru.antt =====
-- a2/starter/lru.c: frames on a doubly linked list, least recently used first.
pub mod Links
pub mod Order
pub mod Touch
pub mod Raise
pub mod Replacement
pub mod Ranks
pub mod Policy
use csc369group.Prelude.{
  ℕ, ◌+◌, Bool, true, false, Option, none, some, if◌then◌else◌, ltb, ◌==◌, update,
}
use csc369group.Outcome.{Outcome, ok, abort, ◌>>=◌}
use csc369group.Paging.Machine.{Frame, is_valid, frame_of, Machine, Functions}

-- The globals of lru.c. A pointer to a frame is its index, and `none` is NULL.
pub record Stack : Type 0 where
  pub bottom : Option ℕ
  pub top : Option ℕ
  pub size : ℕ

abbrev pub Frames : Type 0
Frames = ℕ → Frame

-- Follow a pointer, which must not be NULL.
abbrev pub deref : Option ℕ → Outcome ℕ
deref none = abort
deref (some i) = ok i

abbrev pub set_next : ℕ → Option ℕ → Frames → Frames
set_next i q c = update c i (record (c i) { next = q })

abbrev pub set_prev : ℕ → Option ℕ → Frames → Frames
set_prev i q c = update c i (record (c i) { prev = q })

-- pointer == &coremap[i]
abbrev pub points : Option ℕ → ℕ → Bool
points none i = false
points (some j) i = j == i

-- `top->next = f; f->prev = top; f->next = NULL; top = f`, in the order of each branch of lru.c.
unfoldable pub push_new : ℕ → Frames → Stack → Outcome (Frames × Stack)
push_new f c s = do
  t ← deref s.top
  let c = set_next t (some f) c
  let c = set_prev f s.top c
  let c = set_next f none c
  ok (c, record s { top = some f })

-- The frame is the bottom: its successor becomes the bottom, and it goes on top.
unfoldable pub raise_bottom : ℕ → Frames → Stack → Outcome (Frames × Stack)
raise_bottom f c s = do
  n ← deref (c f).next
  let c = set_prev n none c
  let b = (c f).next
  let c = set_next f none c
  t ← deref s.top
  let c = set_next t (some f) c
  let c = set_prev f s.top c
  ok (c, record s { bottom = b; top = some f })

-- The frame is in the middle: it is unlinked and goes on top.
unfoldable pub raise_middle : ℕ → Frames → Stack → Outcome (Frames × Stack)
raise_middle f c s = do
  p ← deref (c f).prev
  let c = set_next p (c f).next c
  n ← deref (c f).next
  let c = set_prev n (c f).prev c
  let c = set_prev f s.top c
  t ← deref s.top
  let c = set_next t (some f) c
  let c = set_next f none c
  ok (c, record s { top = some f })

-- `lru_ref` on the frame of an entry; `present` is its PG_VALID flag.
unfoldable pub touch :
    (memsize f : ℕ) → (present : Bool) → Frames → Stack → Outcome (Frames × Stack)
unfolding push_new raise_bottom raise_middle
touch memsize f present c s =
    if s.size == 0
    then ok (
      set_next f none (set_prev f none c),
      record s { bottom = some f; top = some f; size = s.size + 1 },
    )
    else elim present [
      | false ↦ push_new f c (if ltb s.size memsize then record s { size = s.size + 1 } else s)
      | true ↦
          if points s.top f
          then ok (c, s)
          else if points s.bottom f
          then raise_bottom f c s
          else raise_middle f c s
    ]

-- `lru_evict` on the links: the bottom is unlinked.
unfoldable pub pop_bottom : Frames → Stack → Outcome (ℕ × Frames × Stack)
pop_bottom c s = do
  b ← deref s.bottom
  n ← deref (c b).next
  let c = set_prev n none c
  let c = set_next b none c
  ok (b, c, record s { bottom = some n })

module _ {F : Type 0} where
  unfoldable pub lru_ref : ℕ → Machine F → Stack → Outcome (Machine F × Stack)
  unfolding touch
  lru_ref p m s = do
    (c, s) ← touch m.memsize (frame_of (m.ptes p)) (is_valid (m.ptes p)) m.coremap s
    ok (record m { coremap = c }, s)

  unfoldable pub lru_evict : Machine F → Stack → Outcome (ℕ × Machine F × Stack)
  unfolding pop_bottom
  lru_evict m s = if s.size == 1 then ok (0, m, s) else do
    (b, c, s') ← pop_bottom m.coremap s
    ok (frame_of (m.ptes (m.coremap b).pte), record m { coremap = c }, s')

  abbrev pub lru : Functions F Stack
  lru = record { ref = lru_ref; evict = lru_evict }

abbrev pub lru_init : Stack
lru_init = record { bottom = none; top = none; size = 0 }
