-- ===== src/Paging.antt =====
-- a2/starter: the simulator of a paged memory with swap.
pub mod Bitmap
pub mod Machine
pub mod Swap
pub mod PageTable
pub mod Fifo
pub mod Clock
pub mod Policies
pub mod Lru
pub mod Opt
pub mod Sim
