-- ===== src/Hle.antt =====
-- src/cpu/espresso/hle_dispatcher.hpp and hle_dispatcher.cpp: the dispatch of imported functions.
pub mod State
pub mod Register
pub mod Bind
pub mod Dispatch
