-- ===== src/Carbon/Dynamic/Writing.antt =====
-- The writing methods of dynamic variables and structs.
use phantasma_py.Carbon.Dynamic.Fields.{FieldWriter, write_fields, write_found, get, write_extras}
use phantasma_py.Carbon.Codec.{serialize}
use phantasma_py.Carbon.Writer.{
  Write, write_carbon_array, write4, write_byte_array, write1, write2, write_each, write16, write8,
  write32, write_big_int, write64, write_byte_arrays, write_string_z, low_byte, write_int_array,
  write_big_int_array, write_string_z_array,
}
use phantasma_py.Bytes.{Bytes}
use phantasma_py.Carbon.Schemas.{
  dynamic, array_dynamic, struct, array_struct, bytes, array_bytes, int8, array_int8, int16,
  array_int16, int32, array_int32, int64, array_int64, int256, array_int256, bytes16, array_bytes16,
  bytes32, array_bytes32, bytes64, array_bytes64, string, array_string, no_struct, some_struct,
  variable_schema, named_schema, no_schemas, more_schemas, struct_schema, VmNamedVariableSchema,
  VmNamedVariableSchemas, VmStructDef, VmStructSchema, VmType, write_vm_type, write_struct_schema,
  default_struct_schema,
}
use phantasma_py.Prelude.{
  pos, true, false, List, ℕ, Bool, Result, [], if◌then◌else◌, suc, ◌>>◌, ◌∷◌, pure, length,
  replicate,
}
use phantasma_py.Carbon.Dynamic.{
  array_bytes16_value, array_bytes32_value, array_bytes64_value, array_bytes_value,
  array_dynamic_value, array_int16_value, array_int256_value, array_int32_value, array_int64_value,
  array_int8_value, array_string_value, array_struct_value, bytes16_value, bytes32_value,
  bytes64_value, bytes_value, dynamic_struct, dynamic_value, int16_value, int256_value, int32_value,
  int64_value, int8_value, more_fields, more_structs, more_variables, named_variable, no_fields,
  no_structs, no_variables, string_value, struct_array, struct_value, VmDynamicStruct,
  VmDynamicVariable, VmDynamicVariables, type_of, VmNamedDynamicVariable, VmNamedDynamicVariables,
  VmDynamicStructs,
}

unfoldable mutual
  -- `write_static` of `_default_vm_value(vm_type)`
  pub write_default : VmType → VmStructDef → Write
  write_default dynamic d = do write_vm_type array_dynamic; write4 (pos 0)
  write_default bytes d = write_byte_array []
  write_default struct no_struct = write4 (pos 0)
  write_default struct (some_struct s) = write_with_schema s []
  write_default int8 d = write1 (pos 0)
  write_default int16 d = write2 (pos 0)
  write_default int32 d = write4 (pos 0)
  write_default int64 d = write8 (pos 0)
  write_default int256 d = write_big_int (pos 0)
  write_default bytes16 d = write16 (replicate 16 0)
  write_default bytes32 d = write32 (replicate 32 0)
  write_default bytes64 d = write64 (replicate 64 0)
  write_default string d = write_string_z []
  write_default array_struct no_struct = do
    write4 (pos 0)
    write_struct_schema default_struct_schema
  write_default array_struct (some_struct s) = write4 (pos 0)
  write_default array_dynamic d = write4 (pos 0)
  write_default array_bytes d = write4 (pos 0)
  write_default array_int8 d = write4 (pos 0)
  write_default array_int16 d = write4 (pos 0)
  write_default array_int32 d = write4 (pos 0)
  write_default array_int64 d = write4 (pos 0)
  write_default array_int256 d = write4 (pos 0)
  write_default array_bytes16 d = write4 (pos 0)
  write_default array_bytes32 d = write4 (pos 0)
  write_default array_bytes64 d = write4 (pos 0)
  write_default array_string d = write4 (pos 0)

  pub write_schema_field : List FieldWriter → VmNamedVariableSchema → Write
  write_schema_field fields (named_schema name (variable_schema t d)) =
      write_found (get name.value fields) t d (write_default t d)

  pub write_schema_fields : List FieldWriter → VmNamedVariableSchemas → Write
  write_schema_fields fields no_schemas = pure tt
  write_schema_fields fields (more_schemas item rest) = do
    write_schema_field fields item
    write_schema_fields fields rest

  pub write_with_schema : VmStructSchema → List FieldWriter → Write
  write_with_schema (struct_schema schemas flags) fields = do
    write_schema_fields fields schemas
    write_extras schemas flags fields

-- `if array_schema.fields`
unfoldable pub has_fields : VmStructSchema → Bool
has_fields (struct_schema no_schemas flags) = false
has_fields (struct_schema (more_schemas item rest) flags) = true

-- A struct of an array, with the array's schema
unfoldable pub write_struct_item : VmStructSchema → List FieldWriter → Write
write_struct_item s fields =
    if has_fields s then write_with_schema s fields else write_fields fields

unfoldable pub variables_length : VmDynamicVariables → ℕ
variables_length no_variables = 0
variables_length (more_variables v rest) = suc (variables_length rest)

unfoldable mutual
  -- `write_static` with the variable's own type
  pub write_static : VmDynamicVariable → VmStructDef → Write
  write_static (dynamic_value v) d = do write_vm_type (type_of v); write_static v no_struct
  write_static (array_dynamic_value vs) d = do
    write4 (pos (variables_length vs))
    write_variables vs
  write_static (struct_value x) no_struct = write_fields (field_writers x)
  write_static (struct_value x) (some_struct s) = write_with_schema s (field_writers x)
  write_static (array_struct_value (struct_array schema xs)) no_struct = do
    write4 (pos (length (struct_writers xs)))
    write_struct_schema schema
    write_each (write_struct_item schema) (struct_writers xs)
  write_static (array_struct_value (struct_array schema xs)) (some_struct s) = do
    write4 (pos (length (struct_writers xs)))
    write_each (write_with_schema s) (struct_writers xs)
  write_static (bytes_value raw) d = write_byte_array raw
  write_static (bytes16_value raw) d = write16 raw
  write_static (bytes32_value raw) d = write32 raw
  write_static (bytes64_value raw) d = write64 raw
  write_static (array_bytes_value raws) d = write_byte_arrays raws
  write_static (array_bytes16_value raws) d = write_carbon_array write16 raws
  write_static (array_bytes32_value raws) d = write_carbon_array write32 raws
  write_static (array_bytes64_value raws) d = write_carbon_array write64 raws
  write_static (int8_value v) d = write1 (pos (low_byte v))
  write_static (int16_value v) d = write2 v
  write_static (int32_value v) d = write4 v
  write_static (int64_value v) d = write8 v
  write_static (int256_value v) d = write_big_int v
  write_static (array_int8_value vs) d = write_int_array vs 1 true
  write_static (array_int16_value vs) d = write_int_array vs 2 true
  write_static (array_int32_value vs) d = write_int_array vs 4 true
  write_static (array_int64_value vs) d = write_int_array vs 8 true
  write_static (array_int256_value vs) d = write_big_int_array vs
  write_static (string_value text) d = write_string_z text
  write_static (array_string_value texts) d = write_string_z_array texts

  -- The loop of `_write_dynamic_variables`
  pub write_variables : VmDynamicVariables → Write
  write_variables no_variables = pure tt
  write_variables (more_variables v rest) =
      (write_vm_type (type_of v) >> write_static v no_struct) >> write_variables rest

  pub field_writer : VmNamedDynamicVariable → FieldWriter
  field_writer (named_variable name v) = record {
    name = name;
    kind = type_of v;
    write_data = write_static v;
  }

  pub fields_writers : VmNamedDynamicVariables → List FieldWriter
  fields_writers no_fields = []
  fields_writers (more_fields item rest) = field_writer item ∷ fields_writers rest

  pub field_writers : VmDynamicStruct → List FieldWriter
  field_writers (dynamic_struct fields) = fields_writers fields

  pub struct_writers : VmDynamicStructs → List (List FieldWriter)
  struct_writers no_structs = []
  struct_writers (more_structs x rest) = field_writers x ∷ struct_writers rest

-- `VMDynamicVariable.write_carbon`
unfoldable pub write_dynamic_variable : VmDynamicVariable → Write
write_dynamic_variable v = do write_vm_type (type_of v); write_static v no_struct

-- `VMDynamicStruct.write_carbon`
unfoldable pub write_dynamic_struct : VmDynamicStruct → Write
write_dynamic_struct x = write_fields (field_writers x)

-- `_write_dynamic_struct_with_schema`
unfoldable pub write_dynamic_struct_with_schema : VmDynamicStruct → VmStructSchema → Result Bytes
write_dynamic_struct_with_schema x schema = serialize (write_with_schema schema (field_writers x))
