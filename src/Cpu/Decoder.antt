-- ===== src/Cpu/Decoder.antt =====
-- `decode` (src/cpu/espresso/decoder.cpp): the switch on the primary opcode. A child has the cases of
-- one or more primary opcodes; Forms, FloatForms and ImmediateForms have the sets of operands.
pub mod Instruction
pub mod Fields
pub mod Forms
pub mod FloatForms
pub mod ImmediateForms
pub mod Integer
pub mod Indexed
pub mod Paired
pub mod Floating
pub mod Single
pub mod Condition
pub mod Immediate
pub mod Encode
pub mod Valid
use affogato.Base.{ℕ, ◌==◌, if◌then◌else◌}
use affogato.Cpu.Decoder.Instruction.{DecodedInstruction}
use affogato.Cpu.Decoder.Fields.{field}
use affogato.Cpu.Decoder.Integer.{decode_system}
use affogato.Cpu.Decoder.Paired.{decode_paired_quantized}
use affogato.Cpu.Decoder.Floating.{decode_floating_move}
use affogato.Cpu.Decoder.Single.{decode_floating_single}
use affogato.Cpu.Decoder.Condition.{decode_condition}
use affogato.Cpu.Decoder.Immediate.{decode_immediate}

unfoldable pub decode_primary : ℕ → ℕ → DecodedInstruction
decode_primary raw primary =
    if primary == 4
    then decode_paired_quantized raw
    else if primary == 19
    then decode_condition raw (field raw 1 0x3FF)
    else if primary == 31
    then decode_system raw (field raw 1 0x3FF)
    else if primary == 63
    then decode_floating_move raw
    else if primary == 59
    then decode_floating_single raw (field raw 1 0x1F)
    else decode_immediate raw primary

unfoldable pub decode : ℕ → DecodedInstruction
decode raw = decode_primary raw (field raw 26 0x3F)
