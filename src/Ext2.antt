-- ===== src/Ext2.antt =====
-- a3: the ext2 tools, and what they share.
pub mod Disk
pub mod Bitmaps
pub mod Path
pub mod Insert
pub mod Tool
pub mod Commands
pub mod Ls
pub mod Mkdir
pub mod Ln
pub mod Rm
pub mod Cp
