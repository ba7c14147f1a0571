-- ===== src/Interceptor.antt =====
-- a1/interceptor.c and a1/interceptor.h
pub mod State
pub mod Pids
pub mod Requests
pub mod Module
pub mod Invariant
pub mod Reach
