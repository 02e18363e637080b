-- ===== src/Vm/Examples.antt =====
-- The script builder on concrete calls.
use phantasma_py.Vm.Objects.RoundTrip.{append_entries, object_to_bytes-object_from_bytes, IsObject}
use phantasma_py.Vm.Objects.Reading.{object_from_bytes}
use phantasma_py.Binary.BigInts.{
  big_int_to_vm_bytes, big_int_to_csharp_bytes, bit_length, halvings, magnitude, signed_to_bytes,
  padding,
}
use phantasma_py.Carbon.Writer.{write, write_unsigned}
use phantasma_py.Binary.{write_u8, write_u16_le}
use phantasma_py.Text.Sorting.{same_text}
use phantasma_py.Bytes.{Bytes, check_unsigned, to_le, twos_complement}
use phantasma_py.Vm.Script.Growing.{IsBuilder}
use phantasma_py.Text.{Text, encode_utf8, encode_char}
use phantasma_py.Vm.Objects.{
  none_object, struct_object, number_object, enum_object, string_object, bool_object, no_entries,
  more_entries, VmEntries, VmObject, entries_length, object_to_bytes, put_entry, is_hashable,
  same_object,
}
use phantasma_py.Prelude.{
  true, pos, negsuc, err, some, none, ok, [], ◌∷◌, List, ◌≡◌, refl, ◌++◌, arith, pure, ◌>>◌, ◌>>=◌,
  lift, ℕ, serialization,
}
use phantasma_py.Vm.{op_jmp, opcode_value}
use phantasma_py.Vm.Script.{
  invalid_number_of_registers, finished, failed, ScriptBuilder, find_label, end_script_with_error,
  begin, emit_push, emit, emit_call, emit_label, byte, emit_jump, on_writer, add_label, fail,
  first_failure, set_label, set_jump, jump_to, current_size, is_jump, takes_register,
}
use phantasma_py.Vm.Script.Commands.{
  label_command, push_command, jump_command, call_command, run, Command, run-IsBuilder, run_command,
  run-failure, finished-Patches,
}
use phantasma_py.Vm.Script.Patching.{Patches}

abbrev as_is : Text → Text
as_is text = text

-- A label, and a jump back to it
abbrev commands : List Command
commands =
    label_command (97 ∷ []) ∷ push_command (pos 1) ∷ jump_command op_jmp (97 ∷ []) (pos 0) ∷ []

abbrev built : ScriptBuilder
built = record {
  writer = record { buffer = 0 ∷ 3 ∷ 1 ∷ 8 ∷ 0 ∷ 0 ∷ [] };
  jump_locations = record { place = 4; label = 97 ∷ [] } ∷ [];
  label_locations = record { name = 97 ∷ []; location = 1 } ∷ [];
  failure = none;
}

commands-run : run as_is commands begin ≡ ok (tt, built)
unfolding run run_command begin emit_label emit_push emit_jump emit byte on_writer write_u8 write
    opcode_value add_label set_label set_jump jump_to current_size is_jump takes_register pure ◌>>◌
    write_u16_le write_unsigned ◌>>=◌ lift check_unsigned to_le
commands-run = refl

run-IsBuilder_example : IsBuilder built
run-IsBuilder_example = run-IsBuilder as_is commands built commands-run

label_found : find_label (97 ∷ []) built.label_locations ≡ some 1
unfolding find_label same_text
label_found = refl

finished-Patches_example :
    (script : Bytes) × (b' : ScriptBuilder) × (end_script_with_error as_is built
      ≡ ok (finished script, b'))
    × Patches as_is built.label_locations built.jump_locations
        (built.writer.buffer ++ 11 ∷ [])
        script
finished-Patches_example =
    finished-Patches as_is commands built commands-run refl ((1, label_found, omega arith), tt)

-- A call with a negative number of registers has failed.
abbrev failing : ScriptBuilder
failing = record {
  writer = record { buffer = 3 ∷ 1 ∷ [] };
  jump_locations = [];
  label_locations = [];
  failure = some invalid_number_of_registers;
}

abbrev pushed : ScriptBuilder
pushed = record failing { writer = record { buffer = 3 ∷ 1 ∷ 3 ∷ 2 ∷ [] } }

-- The calls that lead to the failure
calls_fail :
    run as_is (push_command (pos 1) ∷ call_command (97 ∷ []) (negsuc 0) ∷ []) begin
    ≡ ok (tt, failing)
unfolding run run_command begin emit_push emit_call emit byte on_writer write_u8 write opcode_value
    fail first_failure pure ◌>>◌
calls_fail = refl

push_run : run as_is (push_command (pos 2) ∷ []) failing ≡ ok (tt, pushed)
unfolding run run_command emit_push emit byte on_writer write_u8 write opcode_value pure ◌>>◌
push_run = refl

run-failure_example :
    (b″ : ScriptBuilder) × (end_script_with_error as_is pushed
      ≡ ok (failed invalid_number_of_registers, b″))
run-failure_example =
    run-failure as_is (push_command (pos 2) ∷ []) failing pushed invalid_number_of_registers refl
      push_run

-- A struct with a struct in it
abbrev inner : VmEntries
inner = more_entries (bool_object true) (string_object (97 ∷ [])) no_entries

abbrev nested : VmObject
nested = struct_object (
    more_entries (number_object (pos 200)) (struct_object inner)
      (more_entries (enum_object (pos 2)) none_object no_entries))

key_word : big_int_to_vm_bytes (pos 200) ≡ ok (200 ∷ 0 ∷ [])
unfolding big_int_to_vm_bytes big_int_to_csharp_bytes bit_length halvings magnitude signed_to_bytes
    padding to_le twos_complement
key_word = refl

text_bytes : encode_utf8 (97 ∷ []) ≡ ok (97 ∷ [])
unfolding encode_utf8 encode_char
text_bytes = refl

nested-IsObject : IsObject nested
unfolding entries_length append_entries put_entry is_hashable same_object
nested-IsObject = (
  omega arith,
  (refl, refl, (refl, refl, tt)),
  (
    (200 ∷ 0 ∷ [], key_word, omega arith),
    (omega arith, (refl, refl, tt), (tt, (97 ∷ [], text_bytes, omega arith), tt)),
    (omega arith, tt, tt),
  ),
)

object_to_bytes-object_from_bytes_example :
    (raw : Bytes) × (object_to_bytes nested ≡ ok raw)
    × (object_from_bytes raw ≡ ok nested)
    × ((x : ℕ) (extra : Bytes) → object_from_bytes (raw ++ x ∷ extra) ≡ err serialization)
object_to_bytes-object_from_bytes_example = object_to_bytes-object_from_bytes nested nested-IsObject
