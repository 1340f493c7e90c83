-- ===== src/Lib.antt =====
-- A model of the Espresso core of the Affogato emulator: guest memory, the guest mutex and heap,
-- the dispatcher of high-level emulated (HLE) calls, the decoder, the interpreter without its
-- floating-point instructions, and the loader of ELF executables.
--
-- How the parts interact. The interpreter (src/cpu/espresso/interpreter.cpp) executes guest
-- instructions on a CPU state; an `EspressoCore` holds that state, the guest memory and the
-- dispatcher. A step hands the address of the next instruction to the dispatcher, which calls the
-- handler bound to it; where none is bound, the step fetches the word there, decodes it and
-- executes it. The ELF loader checks a file, writes its segments into the guest memory and sets the
-- address of the next instruction. Handlers use the guest memory, the guest heap and the guest
-- mutex.
--
-- The files and what they model:
-- Base and its children: words with their wrap-around written out, binary digits, lists, the
--   exceptions as values of `Result`, integers.
-- Memory.State, Storage, Access, Read, Write, Watch, Map, Generations: the class `GuestMemory`
--   (src/cpu/espresso/guest_memory.hpp), one function for each operation under its name in the
--   source. Storage has `storage_from`: a span names the vector that backs it, the place where it
--   starts and its size. Layout is the address map without the bytes, and Layout.Locate,
--   Layout.Valid, Layout.Kept, Cells, Bytes, Words and their children are about it.
-- Mutex: src/cpu/espresso/guest_mutex.cpp; Mutex.Laws has the recursive lock that it implements,
--   Mutex.Schedule runs of calls.
-- Core and Core.Heap: the fields of `EspressoCore` that these parts share, and the guest heap
--   (src/cpu/espresso/interpreter.hpp). Core.Step and Core.Run: `EspressoCore::step` and
--   `EspressoCore::run` (src/cpu/espresso/interpreter.cpp); Core.Step.Encoded and Core.Run.Limit are
--   about them.
-- Hle: the class `HleDispatcher` (src/cpu/espresso/hle_dispatcher.hpp and hle_dispatcher.cpp):
--   Register, Bind, Dispatch.
-- Cpu.State: src/cpu/espresso/cpu_state.hpp. Cpu.Flags: the helpers of interpreter.cpp for the
--   condition register and XER. Cpu.Arithmetic: the add, subtract, negate and sign-extension cases
--   of `EspressoCore::step`, one function for each case; Cpu.Arithmetic.Step is the switch on them.
--   Cpu.Logic: the logical, shift, rotate and integer compare cases. Cpu.Multiply: the multiply and
--   divide cases. Cpu.Branch: the branches and the moves of special registers. Cpu.Condition: the
--   condition register. Cpu.Access: loads, stores, strings and cache blocks. Their children are about
--   them. Cpu.Execute: the whole switch.
-- Cpu.Decoder: `decode` (src/cpu/espresso/decoder.cpp). Instruction has the types of decoder.hpp,
--   Fields the bit fields, Forms, FloatForms and ImmediateForms one function for each set of
--   operands that a case reads; Integer, Indexed, Paired, Floating, Single, Condition and Immediate
--   have the chains of tests. Cpu.Decoder.Encode puts words together; Cpu.Decoder.Valid and its
--   children are about every instruction that `decode` gives.
-- Elf: src/cpu/espresso/elf_loader.cpp. `read_segments` is the part of `load_elf32_powerpc` before
--   the first write, `load_segments` the writes. Elf.Accepted, Elf.Returns, Elf.Loads and Elf.Throws
--   are about them.
-- Examples: the theorems at concrete inputs.
--
-- Integers. A machine word is a natural number below its bound, and each operation writes out the
-- reduction of its result. A signed operand is its bit pattern.
--
-- Loops. The loops over the spans of a range (`walk`, `copy_out`, `copy_in`, `fill_loop`) recurse on
-- fuel, for which the number of bytes of the range is given: a round covers at least one byte.
-- The other loops recurse on a list or on the number of rounds that the source runs; `run` recurses
-- on the number of steps that are left.
--
-- Exceptions. An operation that can throw gives a `Result`. The state that an exception leaves
-- behind is not kept: after one, the result of `run` has no core. The catch in `validate_access` is
-- around code that changes nothing.
--
-- Parameters. What the registered HLE handlers and the data initializers do is an argument of the
-- functions that call them. So is what the switch of `step` does in the cases that stand on the
-- floating-point arithmetic or the clock of the host (`host_case`): the floating-point and
-- paired-single instructions with their loads and stores, the moves of the FPSCR, and the time base; a
-- case may answer that the instruction is unsupported and then has changed nothing. The answer for a
-- reserved quantization type is modelled.
--
-- Not modelled: the host views of memory (`flat_data`) and of statistics, the registers in the
-- snapshots of watch events, the instruction history, the bodies of the cases named above, the
-- recompiler, the loader of RPX files, the HLE libraries themselves, the graphics code, and the
-- frontend. They either stand on these parts or call libraries of the host.
pub mod Base
pub mod Memory
pub mod Cpu
pub mod Hle
pub mod Core
pub mod Mutex
pub mod Examples
pub mod Elf
