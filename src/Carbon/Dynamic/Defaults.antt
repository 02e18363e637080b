-- ===== src/Carbon/Dynamic/Defaults.antt =====
-- `_default_vm_value`, and what is written of a field that a struct does not have, or has with
-- another type.
use phantasma_py.Text.Sorting.{sort_by}
use phantasma_py.Carbon.Values.{SmallString}
use phantasma_py.Carbon.Dynamic.Fields.{
  write_found, FieldWriter, get, write_fields, write_named_dynamic_variables, same_type,
}
use phantasma_py.Carbon.Writer.{
  Write, CarbonWriter, write_carbon_array, write_each, write_byte_arrays, write_int_array,
  write_big_int_array, write_string_z_array, low_byte, write4,
}
use phantasma_py.Carbon.Dynamic.Writing.{
  write_default, write_schema_field, write_static, variables_length, field_writers, struct_writers,
}
use phantasma_py.Prelude.{
  false, none, some, pos, ◌>>◌, pure, List, [], ◌≡◌, Result-cases, replicate, inl, inr, ◌⊎◌, refl,
}
use phantasma_py.Carbon.Schemas.{
  dynamic, array_dynamic, struct, array_struct, bytes, array_bytes, int8, array_int8, int16,
  array_int16, int32, array_int32, int64, array_int64, int256, array_int256, bytes16, array_bytes16,
  bytes32, array_bytes32, bytes64, array_bytes64, string, array_string, no_struct, some_struct,
  named_schema, variable_schema, VmType, default_struct_schema, VmStructDef, write_vm_type,
  write_struct_schema,
}
use phantasma_py.Carbon.Dynamic.{
  dynamic_value, array_dynamic_value, struct_value, array_struct_value, bytes_value,
  array_bytes_value, int8_value, array_int8_value, int16_value, array_int16_value, int32_value,
  array_int32_value, int64_value, array_int64_value, int256_value, array_int256_value,
  bytes16_value, array_bytes16_value, bytes32_value, array_bytes32_value, bytes64_value,
  array_bytes64_value, string_value, array_string_value, no_variables, no_fields, no_structs,
  dynamic_struct, struct_array, VmDynamicVariable, type_of,
}

-- A dynamic variable has no default; where one is written, it is an empty array.
unfoldable pub default_vm_value : VmType → VmDynamicVariable
default_vm_value dynamic = dynamic_value (array_dynamic_value no_variables)
default_vm_value array_dynamic = array_dynamic_value no_variables
default_vm_value struct = struct_value (dynamic_struct no_fields)
default_vm_value array_struct = array_struct_value (struct_array default_struct_schema no_structs)
default_vm_value bytes = bytes_value []
default_vm_value bytes16 = bytes16_value (replicate 16 0)
default_vm_value bytes32 = bytes32_value (replicate 32 0)
default_vm_value bytes64 = bytes64_value (replicate 64 0)
default_vm_value int8 = int8_value (pos 0)
default_vm_value int16 = int16_value (pos 0)
default_vm_value int32 = int32_value (pos 0)
default_vm_value int64 = int64_value (pos 0)
default_vm_value int256 = int256_value (pos 0)
default_vm_value string = string_value []
default_vm_value array_bytes = array_bytes_value []
default_vm_value array_bytes16 = array_bytes16_value []
default_vm_value array_bytes32 = array_bytes32_value []
default_vm_value array_bytes64 = array_bytes64_value []
default_vm_value array_int8 = array_int8_value []
default_vm_value array_int16 = array_int16_value []
default_vm_value array_int32 = array_int32_value []
default_vm_value array_int64 = array_int64_value []
default_vm_value array_int256 = array_int256_value []
default_vm_value array_string = array_string_value []

then_nothing : (w : Write) (b : CarbonWriter) → w b ≡ (w >> pure tt) b
unfolding ◌>>◌ pure
then_nothing w b = elim (Result-cases (w b)) [ inl (p, e) ↦ rw e | inr (x, e) ↦ rw e ]

then_nothing_twice : (w w' : Write) (b : CarbonWriter) → (w >> w') b ≡ (w >> (w' >> pure tt)) b
unfolding ◌>>◌
then_nothing_twice w w' b = elim (Result-cases (w b)) [
  | inl (p, e) ↦ rw e (unfold ◌>>◌ in then_nothing w' p.1)
  | inr (x, e) ↦ rw e
]

write_default-eq :
    (t : VmType) (d : VmStructDef) (b : CarbonWriter)
    → write_default t d b ≡ write_static (default_vm_value t) d b
unfolding write_default write_static default_vm_value type_of variables_length field_writers
    struct_writers write_fields write_named_dynamic_variables sort_by write_carbon_array write_each
    write_byte_arrays write_int_array write_big_int_array write_string_z_array low_byte
write_default-eq dynamic d b = then_nothing_twice (write_vm_type array_dynamic) (write4 (pos 0)) b
write_default-eq struct no_struct b = then_nothing (write4 (pos 0)) b
write_default-eq struct (some_struct s) b = refl
write_default-eq array_struct no_struct b =
    then_nothing_twice (write4 (pos 0)) (write_struct_schema default_struct_schema) b
write_default-eq array_struct (some_struct s) b = then_nothing (write4 (pos 0)) b
write_default-eq bytes d b = refl
write_default-eq bytes16 d b = refl
write_default-eq bytes32 d b = refl
write_default-eq bytes64 d b = refl
write_default-eq int8 d b = refl
write_default-eq int16 d b = refl
write_default-eq int32 d b = refl
write_default-eq int64 d b = refl
write_default-eq int256 d b = refl
write_default-eq string d b = refl
write_default-eq array_dynamic d b = then_nothing (write4 (pos 0)) b
write_default-eq array_bytes d b = then_nothing (write4 (pos 0)) b
write_default-eq array_bytes16 d b = then_nothing (write4 (pos 0)) b
write_default-eq array_bytes32 d b = then_nothing (write4 (pos 0)) b
write_default-eq array_bytes64 d b = then_nothing (write4 (pos 0)) b
write_default-eq array_int8 d b = then_nothing (write4 (pos 0)) b
write_default-eq array_int16 d b = then_nothing (write4 (pos 0)) b
write_default-eq array_int32 d b = then_nothing (write4 (pos 0)) b
write_default-eq array_int64 d b = then_nothing (write4 (pos 0)) b
write_default-eq array_int256 d b = then_nothing (write4 (pos 0)) b
write_default-eq array_string d b = then_nothing (write4 (pos 0)) b

pub write_schema_field-mismatch :
    (fields : List FieldWriter) (name : SmallString) (t : VmType) (d : VmStructDef)
    → (get name.value fields ≡ none)
      ⊎ ((f : FieldWriter) × (get name.value fields ≡ some f) × (same_type f.kind t ≡ false))
    → (b : CarbonWriter)
    → write_schema_field fields (named_schema name (variable_schema t d)) b
      ≡ write_static (default_vm_value t) d b
unfolding write_schema_field write_found
write_schema_field-mismatch fields name t d (inl missing) b = rw missing (write_default-eq t d b)
write_schema_field-mismatch fields name t d (inr (f, present, other)) b =
    rw (present, other) (write_default-eq t d b)
