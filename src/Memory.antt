-- ===== src/Memory.antt =====
-- src/cpu/espresso/guest_memory.hpp: the guest address space.
pub mod State
pub mod Storage
pub mod Layout
pub mod Access
pub mod Map
pub mod Generations
pub mod Read
pub mod Watch
pub mod Write
pub mod Cells
pub mod Bytes
pub mod Words
