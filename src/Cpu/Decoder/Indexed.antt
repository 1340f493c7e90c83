-- ===== src/Cpu/Decoder/Indexed.antt =====
-- Opcode 31 of `decode` (src/cpu/espresso/decoder.cpp): the rest of the chain, from `stwcx.` on.
use affogato.Base.{ℕ, not, ◌&&◌, ◌||◌, bit_and, ◌==◌, if◌then◌else◌}
use affogato.Cpu.Decoder.Instruction.{Opcode, DecodedInstruction, blank}
use affogato.Cpu.Decoder.Fields.{field, flag}
use affogato.Cpu.Decoder.Forms.{indexed_form, logical_form, shift_form, cache_form, plain_form}
use affogato.Cpu.Decoder.FloatForms.{fp_indexed_form}

unfoldable pub decode_shift : ℕ → ℕ → DecodedInstruction
decode_shift raw extended_opcode =
    if extended_opcode == 824
    then shift_form raw Opcode.arithmetic_shift_right_immediate
    else if extended_opcode == 792
    then logical_form raw Opcode.arithmetic_shift_right_word
    else if extended_opcode == 24
    then logical_form raw Opcode.shift_left_word
    else if extended_opcode == 536
    then logical_form raw Opcode.shift_right_word
    else if extended_opcode == 444
        || extended_opcode == 28
        || extended_opcode == 60
        || extended_opcode == 316
        || extended_opcode == 284
        || extended_opcode == 476
        || extended_opcode == 124
        || extended_opcode == 412
    then logical_form raw (
        if extended_opcode == 444
        then Opcode.bitwise_or
        else if extended_opcode == 28
        then Opcode.bitwise_and
        else if extended_opcode == 60
        then Opcode.bitwise_and_complement
        else if extended_opcode == 316
        then Opcode.bitwise_xor
        else if extended_opcode == 284
        then Opcode.bitwise_equivalence
        else if extended_opcode == 476
        then Opcode.bitwise_nand
        else if extended_opcode == 124
        then Opcode.bitwise_nor
        else Opcode.bitwise_or_complement)
    else blank raw

unfoldable pub decode_cache : ℕ → ℕ → DecodedInstruction
decode_cache raw extended_opcode =
    if extended_opcode == 854 && bit_and raw 1 == 0 && field raw 11 0x7FFF == 0
    then plain_form raw Opcode.enforce_in_order_io
    else if extended_opcode == 1014 && bit_and raw 1 == 0
    then cache_form raw Opcode.data_cache_block_zero
    else if extended_opcode == 278 && bit_and raw 1 == 0
    then cache_form raw Opcode.data_cache_block_touch
    else if extended_opcode == 246 && bit_and raw 1 == 0
    then cache_form raw Opcode.data_cache_block_touch_for_store
    else if extended_opcode == 54 && bit_and raw 1 == 0 && field raw 21 0x1F == 0
    then cache_form raw Opcode.data_cache_block_store
    else if extended_opcode == 86 && bit_and raw 1 == 0 && field raw 21 0x1F == 0
    then cache_form raw Opcode.data_cache_block_flush
    else if extended_opcode == 982 && bit_and raw 1 == 0
    then cache_form raw Opcode.instruction_cache_block_invalidate
    else decode_shift raw extended_opcode

unfoldable pub decode_indexed_halfword : ℕ → ℕ → DecodedInstruction
decode_indexed_halfword raw extended_opcode =
    if extended_opcode == 279 && bit_and raw 1 == 0
    then indexed_form raw Opcode.load_halfword_zero_indexed
    else if extended_opcode == 311
        && bit_and raw 1 == 0
        && not (field raw 16 0x1F == 0)
        && not (field raw 21 0x1F == field raw 16 0x1F)
    then indexed_form raw Opcode.load_halfword_zero_indexed_update
    else if extended_opcode == 790 && bit_and raw 1 == 0
    then indexed_form raw Opcode.load_halfword_byte_reverse_indexed
    else if extended_opcode == 343 && bit_and raw 1 == 0
    then indexed_form raw Opcode.load_halfword_algebraic_indexed
    else if extended_opcode == 375
        && bit_and raw 1 == 0
        && not (field raw 16 0x1F == 0)
        && not (field raw 21 0x1F == field raw 16 0x1F)
    then indexed_form raw Opcode.load_halfword_algebraic_indexed_update
    else if extended_opcode == 215
    then indexed_form raw Opcode.store_byte_indexed
    else if extended_opcode == 247 && bit_and raw 1 == 0 && not (field raw 16 0x1F == 0)
    then indexed_form raw Opcode.store_byte_indexed_update
    else if extended_opcode == 407 && bit_and raw 1 == 0
    then indexed_form raw Opcode.store_halfword_indexed
    else if extended_opcode == 439 && bit_and raw 1 == 0 && not (field raw 16 0x1F == 0)
    then indexed_form raw Opcode.store_halfword_indexed_update
    else if extended_opcode == 918 && bit_and raw 1 == 0
    then indexed_form raw Opcode.store_halfword_byte_reverse_indexed
    else if extended_opcode == 983 && bit_and raw 1 == 0
    then fp_indexed_form raw Opcode.store_floating_as_integer_word_indexed
    else decode_cache raw extended_opcode

unfoldable pub decode_indexed_float : ℕ → ℕ → DecodedInstruction
decode_indexed_float raw extended_opcode =
    if extended_opcode == 631 && bit_and raw 1 == 0 && not (field raw 16 0x1F == 0)
    then fp_indexed_form raw Opcode.load_double_indexed_update
    else if extended_opcode == 663 && bit_and raw 1 == 0
    then fp_indexed_form raw Opcode.store_single_indexed
    else if extended_opcode == 695 && bit_and raw 1 == 0 && not (field raw 16 0x1F == 0)
    then fp_indexed_form raw Opcode.store_single_indexed_update
    else if extended_opcode == 727 && bit_and raw 1 == 0
    then fp_indexed_form raw Opcode.store_double_indexed
    else if extended_opcode == 759 && bit_and raw 1 == 0 && not (field raw 16 0x1F == 0)
    then fp_indexed_form raw Opcode.store_double_indexed_update
    else if extended_opcode == 87 && bit_and raw 1 == 0
    then indexed_form raw Opcode.load_byte_zero_indexed
    else if extended_opcode == 119
        && bit_and raw 1 == 0
        && not (field raw 16 0x1F == 0)
        && not (field raw 21 0x1F == field raw 16 0x1F)
    then indexed_form raw Opcode.load_byte_zero_indexed_update
    else decode_indexed_halfword raw extended_opcode

unfoldable pub decode_indexed_word : ℕ → ℕ → DecodedInstruction
decode_indexed_word raw extended_opcode =
    if extended_opcode == 150 && flag raw 1
    then indexed_form raw Opcode.store_word_conditional_indexed
    else if extended_opcode == 151
    then indexed_form raw Opcode.store_word_indexed
    else if extended_opcode == 183 && bit_and raw 1 == 0 && not (field raw 16 0x1F == 0)
    then indexed_form raw Opcode.store_word_indexed_update
    else if extended_opcode == 662 && bit_and raw 1 == 0
    then indexed_form raw Opcode.store_word_byte_reverse_indexed
    else if extended_opcode == 20 && bit_and raw 1 == 0
    then indexed_form raw Opcode.load_word_reserve_indexed
    else if extended_opcode == 23
    then indexed_form raw Opcode.load_word_indexed
    else if extended_opcode == 55
        && bit_and raw 1 == 0
        && not (field raw 16 0x1F == 0)
        && not (field raw 21 0x1F == field raw 16 0x1F)
    then indexed_form raw Opcode.load_word_indexed_update
    else if extended_opcode == 534 && bit_and raw 1 == 0
    then indexed_form raw Opcode.load_word_byte_reverse_indexed
    else if extended_opcode == 535 && bit_and raw 1 == 0
    then fp_indexed_form raw Opcode.load_single_indexed
    else if extended_opcode == 567 && bit_and raw 1 == 0 && not (field raw 16 0x1F == 0)
    then fp_indexed_form raw Opcode.load_single_indexed_update
    else if extended_opcode == 599 && bit_and raw 1 == 0
    then fp_indexed_form raw Opcode.load_double_indexed
    else decode_indexed_float raw extended_opcode
