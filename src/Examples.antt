-- ===== src/Examples.antt =====
-- The theorems at concrete inputs, one module for each part of the program.
pub mod MemoryRuns
pub mod MutexRuns
pub mod HleRuns
pub mod CpuRuns
pub mod DecoderRuns
pub mod InterpreterRuns
pub mod AccessRuns
pub mod CoreRuns
pub mod ElfRuns
