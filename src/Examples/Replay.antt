-- ===== src/Examples/Replay.antt =====
-- a2/starter at concrete inputs: three frames on the stack of lru.c, and the replay of a trace.
use csc369group.Prelude.{
  negsuc, ◌-◌, ◌+◌, ◌*◌, ◌≡◌, refl, true, none, some, List, [], ◌∷◌, if◌then◌else◌, ◌==◌,
}
use csc369group.Outcome
use csc369group.Outcome.{Outcome, Returns}
use csc369group.Paging.Machine.{Page, Memalign}
use csc369group.Paging.Lru.{Stack, Frames, touch, pop_bottom}
use csc369group.Paging.Lru.Order.{IsOrder}
use csc369group.Paging.Lru.Touch.{IsMoved}
use csc369group.Paging.Lru.Replacement.{touch-IsMoved, IsPopped, pop_bottom-IsPopped}
use csc369group.Paging.Lru.Policy.{IsLeastRecent, lru-IsLeastRecent}
use csc369group.Paging.Sim.{Line, comment, access}
use csc369group.Paging.PageTable.Printing.{print_pagetbl}
use csc369group.Paging.PageTable.Printing.Rows.{read_rows, statuses, print_pagetbl-statuses}
use csc369group.Paging.Sim.Program.{Options, Argument, World}
use csc369group.Examples.Paging.{last_page, machine}

-- Frames 2, 0 and 1 have been referenced in this order.
abbrev frames : Frames
frames i =
    if i == 2
    then record { prev = none; next = some 0; in_use = true; pte = 32 }
    else if i == 0
    then record { prev = some 2; next = some 1; in_use = true; pte = 48 }
    else record { prev = some 0; next = none; in_use = true; pte = 64 }

abbrev stack : Stack
stack = record { bottom = some 2; top = some 1; size = 3 }

frames-IsOrder : IsOrder frames stack (2 ∷ 0 ∷ 1 ∷ [])
frames-IsOrder = record {
  linked = (refl, refl, (refl, refl, (refl, refl, tt)));
  distinct = (refl, (refl, (refl, tt)));
  bottom = refl;
  top = refl;
  sized = refl;
}

touch_example : Outcome.Returns (IsMoved 0 frames (2 ∷ 0 ∷ 1 ∷ []) 3) (touch 4 0 true frames stack)
touch_example = touch-IsMoved 4 0 frames stack (2 ∷ 0 ∷ 1 ∷ []) frames-IsOrder

pop_bottom_example : Outcome.Returns (IsPopped 2 frames (0 ∷ 1 ∷ []) 3) (pop_bottom frames stack)
pop_bottom_example = pop_bottom-IsPopped frames stack 2 0 (1 ∷ []) frames-IsOrder

lru_example : IsLeastRecent Page
lru_example = lru-IsLeastRecent Page

-- Tables of 64 KB, one behind the other.
abbrev tables : Memalign
tables k = some (4096 + k * 65536)

abbrev lines : List Line
lines =
    comment
    ∷ access (record { type = b'S'; vaddr = 4096 })
    ∷ access (record { type = b'L'; vaddr = 33558528 })
    ∷ []

-- Entries 0 to 4095 at 4096, of which the first is valid.
print_example :
    Returns
      (λ rows. read_rows rows ≡ statuses 4096 0 (λ i. machine.ptes (4096 + i * 16)))
      (print_pagetbl 4096 machine.ptes)
print_example = print_pagetbl-statuses 4096 machine.ptes

-- `sim -m 4 -a lru` with the trace on the standard input.
abbrev world : World last_page
world = record {
  fopen = λ name. none;
  stdin = lines;
  mkstemp = some (record { version = 0; vaddr = 0 });
  first_malloc = true;
  second_malloc = true;
  strtoul = λ text. elim text [ [] ↦ 0 | digit ∷ rest ↦ digit - 48 ];
  random = λ k. 0;
  memalign = tables;
  memory = λ i. record { version = 0; vaddr = 0 };
  tables = λ q. record { frame = 0; swap_off = negsuc 0 };
}

abbrev arguments : List Argument
arguments = (b'm', b'4' ∷ []) ∷ (b'a', b'l' ∷ b'r' ∷ b'u' ∷ []) ∷ []

abbrev options : Options
options = record {
  tracefile = none;
  memsize = 4;
  swapsize = 4096;
  replacement_alg = some (b'l' ∷ b'r' ∷ b'u' ∷ []);
}
