-- ===== src/Paging/Sim/Replay.antt =====
-- a2/starter/sim.c: the replay of a whole trace.
use csc369group.Prelude.{ℕ, suc, ◌<◌, ◌^◌, List, [], ◌∷◌}
use csc369group.Paging.PageTable.Coherent
use csc369group.Paging.PageTable.Coherent.{IsCoherent, IsSameMap, IsCoherent-same}
use csc369group.Paging.Sim.{Line, comment, access}

-- The addresses that the page directory has entries for.
abbrev pub AreSmall : List Line → Type 0
AreSmall [] = Unit {0}
AreSmall (comment ∷ rest) = AreSmall rest
AreSmall (access x ∷ rest) = (x.vaddr < 2 ^ 36) × AreSmall rest

-- How many accesses a trace has.
abbrev pub accesses : List Line → ℕ
accesses [] = 0
accesses (comment ∷ rest) = accesses rest
accesses (access x ∷ rest) = suc (accesses rest)
