-- ===== src/Examples.antt =====
-- Tests of the models at concrete inputs, and the theorems applied there.
pub mod Interceptor
pub mod Requests
pub mod Loading
pub mod Paging
pub mod Replay
pub mod Ext2
pub mod Dirs
pub mod Commands
pub mod Opt
