-- ===== src/Vm/Script/Commands.antt =====
-- The script builder through any sequence of calls of its methods.
use phantasma_py.Vm.Script.Calls.{Arguments, call_interop, call_contract}
use phantasma_py.Vm.Script.Patching.{Resolves, Patches, patch_jumps-total, patch_jumps-Patches}
use phantasma_py.Carbon.Writer.{write}
use phantasma_py.Vm.Script.Methods.{
  Growing-emit_push, Growing-emit_pop, Growing-emit_throw, Growing-emit_ext_call, Growing-emit_load,
  Growing-emit_load_string, Growing-emit_load_bool, Growing-emit_load_number,
  Growing-emit_load_time, Growing-emit_move, Growing-emit_copy, Growing-emit_label,
  Growing-emit_jump, Growing-emit_conditional_jump, Growing-emit_call, Growing-call_interop,
  Growing-call_contract,
}
use phantasma_py.Binary.{write_u8}
use phantasma_py.Vm.Script.Growing.{
  Growing, Growing-emit, Growing-pure, Growing-emit_raw, IsBuilder, Growing-then,
  Growing-emit_var_bytes,
}
use phantasma_py.Bytes.{Bytes}
use phantasma_py.Text.{Text}
use phantasma_py.Prelude.{
  none, some, ok, List, pure, ◌∷◌, ◌≡◌, Bool, arith, ◌++◌, ◌>>◌, All, [], ℤ, refl,
}
use phantasma_py.Vm.{op_ret, Opcode, VmObjectType, opcode_value}
use phantasma_py.Vm.Script.{
  finished, failed, Emit, begin, emit, end_script_with_error, ScriptBuilder, current_size, emit_raw,
  end_with, on_writer, Failure, emit_push, ending_of, emit_pop, to_script, emit_throw,
  emit_ext_call, emit_load, emit_load_string, emit_load_bool, emit_load_number, emit_load_time,
  emit_move, emit_copy, emit_label, emit_jump, emit_conditional_jump, emit_call, emit_var_bytes,
}

-- A call of a method of the builder
pub data Command : Type 0 where
  opcode_command : Opcode → Command
  raw_command : Bytes → Command
  push_command : ℤ → Command
  pop_command : ℤ → Command
  throw_command : ℤ → Command
  ext_call_command : Text → ℤ → Command
  load_command : ℤ → Bytes → VmObjectType → Command
  load_string_command : ℤ → Text → Command
  load_bool_command : ℤ → Bool → Command
  load_number_command : ℤ → ℤ → Command
  load_time_command : ℤ → ℤ → Command
  move_command : ℤ → ℤ → Command
  copy_command : ℤ → ℤ → Command
  label_command : Text → Command
  jump_command : Opcode → Text → ℤ → Command
  conditional_jump_command : Opcode → ℤ → Text → Command
  call_command : Text → ℤ → Command
  var_bytes_command : ℤ → Command
  interop_command : Text → Arguments → Command
  contract_command : Text → Text → Arguments → Command

module _ (lower : Text → Text) where
  unfoldable pub run_command : Command → Emit
  run_command (opcode_command opcode) = emit opcode
  run_command (raw_command raw) = emit_raw raw
  run_command (push_command reg) = emit_push reg
  run_command (pop_command reg) = emit_pop reg
  run_command (throw_command reg) = emit_throw reg
  run_command (ext_call_command method reg) = emit_ext_call method reg
  run_command (load_command reg raw vm_type) = emit_load reg raw vm_type
  run_command (load_string_command reg value) = emit_load_string reg value
  run_command (load_bool_command reg value) = emit_load_bool reg value
  run_command (load_number_command reg value) = emit_load_number reg value
  run_command (load_time_command reg value) = emit_load_time reg value
  run_command (move_command src_reg dst_reg) = emit_move src_reg dst_reg
  run_command (copy_command src_reg dst_reg) = emit_copy src_reg dst_reg
  run_command (label_command label) = emit_label lower label
  run_command (jump_command opcode label reg) = emit_jump opcode label reg
  run_command (conditional_jump_command opcode src_reg label) =
      emit_conditional_jump opcode src_reg label
  run_command (call_command label register_count) = emit_call label register_count
  run_command (var_bytes_command value) = emit_var_bytes value
  run_command (interop_command method args) = call_interop method args
  run_command (contract_command contract_name method args) = call_contract contract_name method args

  unfoldable pub run : List Command → Emit
  run [] = pure tt
  run (c ∷ commands) = do run_command c; run commands

  Growing-run_command : (c : Command) → Growing (run_command c)
  unfolding run_command
  Growing-run_command (opcode_command opcode) = Growing-emit opcode
  Growing-run_command (raw_command raw) = Growing-emit_raw raw
  Growing-run_command (push_command reg) = Growing-emit_push reg
  Growing-run_command (pop_command reg) = Growing-emit_pop reg
  Growing-run_command (throw_command reg) = Growing-emit_throw reg
  Growing-run_command (ext_call_command method reg) = Growing-emit_ext_call method reg
  Growing-run_command (load_command reg raw vm_type) = Growing-emit_load reg raw vm_type
  Growing-run_command (load_string_command reg value) = Growing-emit_load_string reg value
  Growing-run_command (load_bool_command reg value) = Growing-emit_load_bool reg value
  Growing-run_command (load_number_command reg value) = Growing-emit_load_number reg value
  Growing-run_command (load_time_command reg value) = Growing-emit_load_time reg value
  Growing-run_command (move_command src_reg dst_reg) = Growing-emit_move src_reg dst_reg
  Growing-run_command (copy_command src_reg dst_reg) = Growing-emit_copy src_reg dst_reg
  Growing-run_command (label_command label) = Growing-emit_label lower label
  Growing-run_command (jump_command opcode label reg) = Growing-emit_jump opcode label reg
  Growing-run_command (conditional_jump_command opcode src_reg label) =
      Growing-emit_conditional_jump opcode src_reg label
  Growing-run_command (call_command label register_count) = Growing-emit_call label register_count
  Growing-run_command (var_bytes_command value) = Growing-emit_var_bytes value
  Growing-run_command (interop_command method args) = Growing-call_interop method args
  Growing-run_command (contract_command contract_name method args) =
      Growing-call_contract contract_name method args

  Growing-run : (commands : List Command) → Growing (run commands)
  unfolding run
  Growing-run [] = Growing-pure
  Growing-run (c ∷ commands) = Growing-then (Growing-run_command c) (Growing-run commands)

  begin-IsBuilder : IsBuilder begin
  unfolding begin current_size
  begin-IsBuilder = record { jumps = omega arith; labels = tt }

  -- After any calls on a new builder that raise nothing, the places of the jumps have two bytes each,
  -- do not overlap, and lie within the script, and so do the locations of the labels.
  pub run-IsBuilder :
      (commands : List Command) (b : ScriptBuilder) → run commands begin ≡ ok (tt, b) → IsBuilder b
  run-IsBuilder commands b h =
      ((Growing-run commands).grows begin b h).keeps_builder begin-IsBuilder

  emit_ret-eq :
      (b : ScriptBuilder)
      → emit op_ret b
        ≡ ok (tt, record b { writer = record { buffer = b.writer.buffer ++ 11 ∷ [] } })
  unfolding emit on_writer write_u8 write opcode_value
  emit_ret-eq b = refl

  -- The first failure stays: whatever is called after it and raises nothing, the script ends with
  -- that failure.
  pub run-failure :
      (commands : List Command) (b b' : ScriptBuilder) (f : Failure)
      → b.failure ≡ some f
      → run commands b ≡ ok (tt, b')
      → (b″ : ScriptBuilder) × (end_script_with_error lower b' ≡ ok (failed f, b″))
  unfolding end_script_with_error end_with
  run-failure commands b b' f e h =
      let kept = ((Growing-run commands).grows b b' h).keeps_failure f e in
      (
        record b' { writer = record { buffer = b'.writer.buffer ++ 11 ∷ [] } },
        rw (emit_ret-eq b', kept),
      )

  -- What is called on a new builder, if no label is missing and every label of a jump is in the
  -- first 65536 bytes, ends with a script, unless a failure was noted: the bytes that were emitted
  -- and a return, where the two bytes of each jump are the location of its label, and every other
  -- byte is as it was emitted.
  pub finished-Patches :
      (commands : List Command) (b : ScriptBuilder)
      → run commands begin ≡ ok (tt, b)
      → b.failure ≡ none
      → All (Resolves lower b.label_locations) b.jump_locations
      → (script : Bytes) × (b' : ScriptBuilder) × (end_script_with_error lower b
          ≡ ok (finished script, b'))
        × Patches lower b.label_locations b.jump_locations (b.writer.buffer ++ 11 ∷ []) script
  unfolding end_script_with_error end_with ending_of to_script current_size
  finished-Patches commands b h no_failure resolved =
      let returned = record b { writer = record { buffer = b.writer.buffer ++ 11 ∷ [] } } in
      let spaced =
        (((Growing-emit op_ret).grows b returned (emit_ret-eq b)).keeps_builder
          (run-IsBuilder commands b h)).jumps in
      let (script, e) =
        patch_jumps-total lower b.label_locations 0 b.jump_locations (b.writer.buffer ++ 11 ∷ [])
          spaced resolved in
      (
        script,
        returned,
        rw (emit_ret-eq b, no_failure, e),
        patch_jumps-Patches lower b.label_locations 0 b.jump_locations (b.writer.buffer ++ 11 ∷ [])
            script spaced e,
      )
