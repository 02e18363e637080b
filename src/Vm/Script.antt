-- ===== src/Vm/Script.antt =====
-- `ScriptBuilder` of vm.py: a writer, the places of the jumps and of the labels, and the first error.
-- `str.lower` is Python's, and a parameter.
pub mod Calls
pub mod Growing
pub mod Methods
pub mod Patching
pub mod Commands
use phantasma_py.Text.Sorting.{same_text}
use phantasma_py.Binary.BigInts.{big_int_to_csharp_bytes}
use phantasma_py.Binary.{write_u8, write_var_uint, write_u16_le}
use phantasma_py.Bytes.{Bytes, to_le}
use phantasma_py.Carbon.Writer.{CarbonWriter, Write, write}
use phantasma_py.Text.{Text, encode_utf8}
use phantasma_py.Prelude.{
  pos, negsuc, none, some, true, false, ok, err, Method, Option, [], ℕ, ℤ, Bool, Error, List,
  Result, and_then, if◌then◌else◌, length, ◌>>=◌, ◌>>◌, builder, lift, ltb, not, ◌==◌, ◌∷◌, leb,
  pure, take, ◌&&◌, ◌||◌, ◌++◌, ◌+◌, drop, overflow,
}
use phantasma_py.Vm.{
  op_nop, op_move, op_copy, op_push, op_pop, op_call, op_extcall, op_jmp, op_jmpif, op_jmpnot,
  op_ret, op_throw, op_load, none_type, bytes_type, number_type, string_type, timestamp_type,
  bool_type, Opcode, VmObjectType, opcode_value, object_type_value,
}

-- What `_fail` is called for
pub data Failure : Type 0 where
  too_much_data timestamp_out_of_range invalid_jump_opcode invalid_number_of_registers nil_argument
        no_registers_for_array unsupported_type :
      Failure

pub record Jump : Type 0 where
  pub place : ℕ
  pub label : Text

pub record LabelLocation : Type 0 where
  pub name : Text
  pub location : ℕ

-- The two dicts are lists in the order of insertion.
pub record ScriptBuilder : Type 0 where
  pub writer : CarbonWriter
  pub jump_locations : List Jump
  pub label_locations : List LabelLocation
  pub failure : Option Failure

abbrev pub Emit : Type 0
Emit = Method ScriptBuilder (Unit {0})

unfoldable pub begin : ScriptBuilder
begin = record {
  writer = record { buffer = [] };
  jump_locations = [];
  label_locations = [];
  failure = none;
}

unfoldable pub current_size : ScriptBuilder → ℕ
current_size b = length b.writer.buffer

-- A method of `self._writer`
unfoldable pub on_writer : Write → Emit
on_writer w b = and_then (w b.writer) λ p. ok (tt, record b { writer = p.1 })

unfoldable pub first_failure : Option Failure → Failure → Option Failure
first_failure none f = some f
first_failure (some e) f = some e

-- `_fail`
unfoldable pub fail : Failure → Emit
fail f b = ok (tt, record b { failure = first_failure b.failure f })

-- `_byte`
unfoldable pub byte : ℤ → Emit
byte v = on_writer (write_u8 v)

unfoldable pub emit : Opcode → Emit
emit opcode = on_writer (write_u8 (pos (opcode_value opcode)))

unfoldable pub emit_raw : Bytes → Emit
emit_raw raw = on_writer (write raw)

unfoldable pub emit_push : ℤ → Emit
emit_push reg = do emit op_push; byte reg

unfoldable pub emit_pop : ℤ → Emit
emit_pop reg = do emit op_pop; byte reg

unfoldable pub emit_throw : ℤ → Emit
emit_throw reg = do emit op_throw; byte reg

unfoldable pub emit_load : ℤ → Bytes → VmObjectType → Emit
emit_load reg raw vm_type = if ltb 0xffff (length raw) then fail too_much_data else do
  emit op_load
  byte reg
  byte (pos (object_type_value vm_type))
  on_writer (write_var_uint (pos (length raw)))
  on_writer (write raw)

unfoldable pub emit_load_string : ℤ → Text → Emit
emit_load_string reg value = do raw ← lift (encode_utf8 value); emit_load reg raw string_type

unfoldable pub emit_load_bool : ℤ → Bool → Emit
emit_load_bool reg value = emit_load reg ((if value then 1 else 0) ∷ []) bool_type

unfoldable pub emit_load_number : ℤ → ℤ → Emit
emit_load_number reg value = do
  raw ← lift (big_int_to_csharp_bytes value)
  emit_load reg raw number_type

-- The argument is the datetime's `int(value.timestamp())`.
unfoldable pub emit_load_time : ℤ → ℤ → Emit
emit_load_time reg (negsuc n) = fail timestamp_out_of_range
emit_load_time reg (pos n) =
    if ltb 0xffffffff n
    then fail timestamp_out_of_range
    else emit_load reg (to_le 4 n) timestamp_type

unfoldable pub emit_ext_call : Text → ℤ → Emit
emit_ext_call method reg = do emit_load_string reg method; emit op_extcall; byte reg

unfoldable pub emit_move : ℤ → ℤ → Emit
emit_move src_reg dst_reg = do emit op_move; byte src_reg; byte dst_reg

unfoldable pub emit_copy : ℤ → ℤ → Emit
emit_copy src_reg dst_reg = do emit op_copy; byte src_reg; byte dst_reg

unfoldable pub emit_var_bytes : ℤ → Emit
emit_var_bytes value = on_writer (write_var_uint value)

-- Assignment to a key of each dict
unfoldable pub set_jump : ℕ → Text → List Jump → List Jump
set_jump place label [] = record { place = place; label = label } ∷ []
set_jump place label (j ∷ rest) =
    let later = set_jump place label rest in
    if j.place == place then record { place = place; label = label } ∷ rest else j ∷ later

unfoldable pub set_label : Text → ℕ → List LabelLocation → List LabelLocation
set_label name location [] = record { name = name; location = location } ∷ []
set_label name location (l ∷ rest) =
    let later = set_label name location rest in
    if same_text l.name name then record { name = name; location = location } ∷ rest else l ∷ later

unfoldable pub find_label : Text → List LabelLocation → Option ℕ
find_label name [] = none
find_label name (l ∷ rest) =
    let later = find_label name rest in if same_text l.name name then some l.location else later

-- Room for a target, and the note to fill it in
unfoldable pub jump_to : Text → Emit
jump_to label b =
    let place = current_size b in
    and_then (on_writer (write_u16_le (pos 0)) b)
      λ p. ok (tt, record p.1 { jump_locations = set_jump place label p.1.jump_locations })

unfoldable pub is_jump : Opcode → Bool
is_jump op_jmp = true
is_jump op_jmpif = true
is_jump op_jmpnot = true
is_jump _ = false

unfoldable pub takes_register : Opcode → Bool
takes_register op_jmp = false
takes_register _ = true

unfoldable pub emit_jump : Opcode → Text → ℤ → Emit
emit_jump opcode label reg =
    if not (is_jump opcode)
    then fail invalid_jump_opcode
    else do emit opcode; if takes_register opcode then byte reg else pure tt; jump_to label

unfoldable pub emit_conditional_jump : Opcode → ℤ → Text → Emit
emit_conditional_jump opcode src_reg label =
    if not (is_jump opcode && takes_register opcode)
    then fail invalid_jump_opcode
    else emit_jump opcode label src_reg

abbrev pub max_register_count : ℕ
max_register_count = 32

unfoldable pub emit_call : Text → ℤ → Emit
emit_call label (negsuc n) = fail invalid_number_of_registers
emit_call label (pos register_count) =
    if ltb register_count 1 || ltb max_register_count register_count
    then fail invalid_number_of_registers
    else do emit op_call; byte (pos register_count); jump_to label

-- `script[offset : offset + 2] = target.to_bytes(2, "little")`
unfoldable pub patch : ℕ → ℕ → Bytes → Result Bytes
patch place target script =
    if ltb target 65536
    then ok (take place script ++ (to_le 2 target ++ drop (place + 2) script))
    else err overflow

-- The body of the loop of `to_script`, with the location of the label
unfoldable pub patch_to : Option ℕ → ℕ → Bytes → Result Bytes
patch_to none place script = err builder
patch_to (some target) place script =
    if leb (length script) (place + 1) then err builder else patch place target script

-- What `end_script_with_error` returns: a script, the failure that was kept, or the exception of
-- `to_script`.
pub data Ending : Type 0 where
  finished : Bytes → Ending
  failed : Failure → Ending
  raised : Error → Ending

unfoldable pub ending_of : Result Bytes → Ending
ending_of (ok raw) = finished raw
ending_of (err e) = raised e

unfoldable pub end_with : Option Failure → Result Bytes → Ending
end_with none result = ending_of result
end_with (some f) result = failed f

module _ (lower : Text → Text) where
  unfoldable pub add_label : Text → Emit
  add_label label b = ok (
    tt,
    record b { label_locations = set_label (lower label) (current_size b) b.label_locations },
  )

  unfoldable pub emit_label : Text → Emit
  emit_label label = do emit op_nop; add_label label

  unfoldable pub patch_jump : List LabelLocation → Jump → Bytes → Result Bytes
  patch_jump labels j = patch_to (find_label (lower j.label) labels) j.place

  unfoldable pub patch_jumps : List LabelLocation → List Jump → Bytes → Result Bytes
  patch_jumps labels [] script = ok script
  patch_jumps labels (j ∷ rest) script =
      and_then (patch_jump labels j script) (patch_jumps labels rest)

  unfoldable pub to_script : ScriptBuilder → Result Bytes
  to_script b = patch_jumps b.label_locations b.jump_locations b.writer.buffer

  unfoldable pub end_script_with_error : Method ScriptBuilder Ending
  end_script_with_error b =
      and_then (emit op_ret b) λ p. ok (end_with p.1.failure (to_script p.1), p.1)
