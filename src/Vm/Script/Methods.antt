-- ===== src/Vm/Script/Methods.antt =====
-- Each method of the script builder grows it.
use phantasma_py.Bytes.{Bytes}
use phantasma_py.Vm.Script.Growing.{
  Growing, growing_parts, Growing-fail, Growing-pure, Growing-then, Growing-if, Growing-emit,
  Growing-byte,
}
use phantasma_py.Vm.{Opcode, VmObjectType}
use phantasma_py.Text.{Text}
use phantasma_py.Vm.Script.{
  emit_call, emit_conditional_jump, emit_copy, emit_ext_call, emit_jump, emit_load, emit_load_bool,
  emit_load_number, emit_load_string, emit_load_time, emit_move, emit_pop, emit_push, emit_throw,
  emit_label,
}
use phantasma_py.Vm.Script.Calls.{
  none_arg, other_arg, address_arg, text_arg, bool_arg, bytes_arg, number_arg, time_arg, list_arg,
  no_args, more_args, call_contract, call_interop, insert_method_args, load_into_register,
  Arguments, load_items, Argument,
}
use phantasma_py.Vm.{bytes_type}
use phantasma_py.Prelude.{pos, negsuc, ℕ, Bool, ℤ, ltb, ◌+◌, suc}

pub Growing-emit_push : (reg : ℤ) → Growing (emit_push reg)
unfolding emit_push
Growing-emit_push reg = search (growing_parts) depth 9

pub Growing-emit_pop : (reg : ℤ) → Growing (emit_pop reg)
unfolding emit_pop
Growing-emit_pop reg = search (growing_parts) depth 9

pub Growing-emit_throw : (reg : ℤ) → Growing (emit_throw reg)
unfolding emit_throw
Growing-emit_throw reg = search (growing_parts) depth 9

pub Growing-emit_move : (src_reg dst_reg : ℤ) → Growing (emit_move src_reg dst_reg)
unfolding emit_move
Growing-emit_move src_reg dst_reg = search (growing_parts) depth 9

pub Growing-emit_copy : (src_reg dst_reg : ℤ) → Growing (emit_copy src_reg dst_reg)
unfolding emit_copy
Growing-emit_copy src_reg dst_reg = search (growing_parts) depth 9

pub Growing-emit_load :
    (reg : ℤ) (raw : Bytes) (vm_type : VmObjectType) → Growing (emit_load reg raw vm_type)
unfolding emit_load
Growing-emit_load reg raw vm_type = search (growing_parts) depth 9

pub Growing-emit_load_string : (reg : ℤ) (value : Text) → Growing (emit_load_string reg value)
unfolding emit_load_string
Growing-emit_load_string reg value = search (growing_parts, Growing-emit_load) depth 9

pub Growing-emit_load_bool : (reg : ℤ) (value : Bool) → Growing (emit_load_bool reg value)
unfolding emit_load_bool
Growing-emit_load_bool reg value = search (growing_parts, Growing-emit_load) depth 9

pub Growing-emit_load_number : (reg : ℤ) (value : ℤ) → Growing (emit_load_number reg value)
unfolding emit_load_number
Growing-emit_load_number reg value = search (growing_parts, Growing-emit_load) depth 9

pub Growing-emit_load_time : (reg : ℤ) (value : ℤ) → Growing (emit_load_time reg value)
unfolding emit_load_time
Growing-emit_load_time reg (pos n) = search (growing_parts, Growing-emit_load) depth 9
Growing-emit_load_time reg (negsuc n) = Growing-fail _

pub Growing-emit_ext_call : (method : Text) (reg : ℤ) → Growing (emit_ext_call method reg)
unfolding emit_ext_call
Growing-emit_ext_call method reg = search (growing_parts, Growing-emit_load_string) depth 9

pub Growing-emit_jump :
    (opcode : Opcode) (label : Text) (reg : ℤ) → Growing (emit_jump opcode label reg)
unfolding emit_jump
Growing-emit_jump opcode label reg = search (growing_parts) depth 9

pub Growing-emit_conditional_jump :
    (opcode : Opcode) (src_reg : ℤ) (label : Text)
    → Growing (emit_conditional_jump opcode src_reg label)
unfolding emit_conditional_jump
Growing-emit_conditional_jump opcode src_reg label =
    search (growing_parts, Growing-emit_jump) depth 9

pub Growing-emit_call :
    (label : Text) (register_count : ℤ) → Growing (emit_call label register_count)
unfolding emit_call
Growing-emit_call label (negsuc n) = search (growing_parts) depth 9
Growing-emit_call label (pos n) = search (growing_parts) depth 9

pub Growing-emit_label : (lower : Text → Text) (label : Text) → Growing (emit_label lower label)
unfolding emit_label
Growing-emit_label lower label = search (growing_parts) depth 9

mutual
  unfolding load_into_register load_items

  Growing-load_into_register : (arg : Argument) (reg : ℕ) → Growing (load_into_register arg reg)
  Growing-load_into_register none_arg reg = Growing-fail _
  Growing-load_into_register other_arg reg = Growing-fail _
  Growing-load_into_register (address_arg a) reg = search (growing_parts, Growing-emit_load) depth 9
  Growing-load_into_register (text_arg text) reg = Growing-emit_load_string (pos reg) text
  Growing-load_into_register (bool_arg flag) reg = Growing-emit_load_bool (pos reg) flag
  Growing-load_into_register (bytes_arg raw) reg = Growing-emit_load (pos reg) raw bytes_type
  Growing-load_into_register (number_arg value) reg = Growing-emit_load_number (pos reg) value
  Growing-load_into_register (time_arg seconds) reg = Growing-emit_load_time (pos reg) seconds
  Growing-load_into_register (list_arg items) reg = Growing-if (ltb 29 reg) (Growing-fail _) (
      Growing-then (Growing-emit _) (
        Growing-then (Growing-byte (pos reg)) (
          Growing-then (Growing-byte (pos reg))
            (Growing-then (Growing-byte _) (Growing-load_items items reg 0)))))

  Growing-load_items : (items : Arguments) (reg index : ℕ) → Growing (load_items items reg index)
  Growing-load_items no_args reg index = Growing-pure
  Growing-load_items (more_args item rest) reg index =
      Growing-then (Growing-load_into_register item (reg + 1)) (
        Growing-then (Growing-emit_load_number (pos (reg + 2)) (pos index)) (
          Growing-then (Growing-emit _) (
            Growing-then (Growing-byte _) (
              Growing-then (Growing-byte (pos reg))
                (Growing-then (Growing-byte _) (Growing-load_items rest reg (suc index)))))))

Growing-insert_method_args : (args : Arguments) → Growing (insert_method_args args)
unfolding insert_method_args
Growing-insert_method_args no_args = Growing-pure
Growing-insert_method_args (more_args arg rest) =
    Growing-then (Growing-insert_method_args rest)
      (Growing-then (Growing-load_into_register arg 0) (Growing-emit_push (pos 0)))

pub Growing-call_interop : (method : Text) (args : Arguments) → Growing (call_interop method args)
unfolding call_interop
Growing-call_interop method args =
    search (growing_parts, Growing-insert_method_args, Growing-emit_load_string) depth 9

pub Growing-call_contract :
    (contract_name method : Text) (args : Arguments)
    → Growing (call_contract contract_name method args)
unfolding call_contract
Growing-call_contract contract_name method args = Growing-then (Growing-insert_method_args args) (
    Growing-then (Growing-emit_load_string (pos 0) method) (
      Growing-then (Growing-emit_push (pos 0)) (
        Growing-then (Growing-emit_load_string (pos 0) contract_name)
          (search (growing_parts) depth 9))))
