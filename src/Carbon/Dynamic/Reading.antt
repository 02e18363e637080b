-- ===== src/Carbon/Dynamic/Reading.antt =====
-- The reading methods of dynamic variables and structs. They call one another; each is given here the
-- two that the others come back to: the one that reads a variable's data where no schema is given,
-- and the one that reads a struct with a schema that was itself read.
use phantasma_py.Carbon.Dynamic.Fields.{has_extras}
use phantasma_py.Carbon.Dynamic.Writing.{has_fields}
use phantasma_py.Carbon.Values.{read_small_string}
use phantasma_py.Carbon.Codec.Recursion.{read_recursively}
use phantasma_py.Carbon.Reader.{
  Read, read_length, read_byte_array, read_byte_arrays, read1, signed_byte, read_int_array, read2,
  read4, read8, read_big_int, read_big_int_array, read16, read_carbon_array, read32, read64,
  read_string_z, read_string_z_array,
}
use phantasma_py.Prelude.{true, ℕ, ◌>>=◌, if◌then◌else◌, pure, suc, zero}
use phantasma_py.Carbon.Schemas.{
  dynamic, array_dynamic, struct, array_struct, bytes, array_bytes, int8, array_int8, int16,
  array_int16, int32, array_int32, int64, array_int64, int256, array_int256, bytes16, array_bytes16,
  bytes32, array_bytes32, bytes64, array_bytes64, string, array_string, no_struct, some_struct,
  variable_schema, named_schema, no_schemas, more_schemas, struct_schema, VmStructSchema, VmType,
  VmStructDef, read_vm_type, read_struct_schema, VmNamedVariableSchema, VmNamedVariableSchemas,
}
use phantasma_py.Carbon.Dynamic.{
  dynamic_value, array_dynamic_value, struct_value, array_struct_value, bytes_value,
  array_bytes_value, int8_value, array_int8_value, int16_value, array_int16_value, int32_value,
  array_int32_value, int64_value, array_int64_value, int256_value, array_int256_value,
  bytes16_value, array_bytes16_value, bytes32_value, array_bytes32_value, bytes64_value,
  array_bytes64_value, string_value, array_string_value, no_variables, more_variables,
  named_variable, no_fields, more_fields, dynamic_struct, no_structs, more_structs, struct_array,
  VmDynamicVariable, VmNamedDynamicVariables, VmDynamicStruct, VmNamedDynamicVariable,
  VmDynamicStructs, VmDynamicVariables, sort,
}

-- What is read, and what it is read as.
pub data Part : Type 0 where
  data_of : VmType → Part
  struct_of : VmStructSchema → Part

abbrev pub PartValue : Part → Type 0
PartValue (data_of t) = VmDynamicVariable
PartValue (struct_of s) = VmDynamicStruct

module _ (read_part : (p : Part) → Read (PartValue p)) where
  -- `VMDynamicVariable.read_carbon`
  unfoldable pub read_variable_with : Read VmDynamicVariable
  read_variable_with = do t ← read_vm_type; read_part (data_of t)

  unfoldable pub read_variables_with : ℕ → Read VmDynamicVariables
  read_variables_with zero = pure no_variables
  read_variables_with (suc count) = do
    v ← read_variable_with
    rest ← read_variables_with count
    pure (more_variables v rest)

  -- `VMNamedDynamicVariable.read_carbon`
  unfoldable pub read_named_variable_with : Read VmNamedDynamicVariable
  read_named_variable_with = do
    name ← read_small_string
    v ← read_variable_with
    pure (named_variable name v)

  unfoldable pub read_fields_with : ℕ → Read VmNamedDynamicVariables
  read_fields_with zero = pure no_fields
  read_fields_with (suc count) = do
    item ← read_named_variable_with
    rest ← read_fields_with count
    pure (more_fields item rest)

  -- `_read_named_dynamic_variables`
  unfoldable pub read_named_variables_with : Read VmNamedDynamicVariables
  read_named_variables_with = do count ← read_length; read_fields_with count

  -- `VMDynamicStruct.read_carbon`
  unfoldable pub read_dynamic_struct_with : Read VmDynamicStruct
  read_dynamic_struct_with = do
    fields ← read_named_variables_with
    pure (sort (dynamic_struct fields))

  -- A struct of an array whose schema was read
  unfoldable pub read_struct_item_with : VmStructSchema → Read VmDynamicStruct
  read_struct_item_with s =
      if has_fields s then read_part (struct_of s) else read_dynamic_struct_with

  unfoldable pub read_extras_with : ℕ → Read VmNamedDynamicVariables
  read_extras_with flags = if has_extras flags then read_named_variables_with else pure no_fields

unfoldable pub read_structs : Read VmDynamicStruct → ℕ → Read VmDynamicStructs
read_structs read_struct zero = pure no_structs
read_structs read_struct (suc count) = do
  x ← read_struct
  rest ← read_structs read_struct count
  pure (more_structs x rest)

-- `fields.extend`
unfoldable pub extend_fields :
    VmNamedDynamicVariables → VmNamedDynamicVariables → VmNamedDynamicVariables
extend_fields no_fields extras = extras
extend_fields (more_fields item rest) extras = more_fields item (extend_fields rest extras)

unfoldable mutual
  -- `read_static`
  pub read_static_with :
      ((p : Part) → Read (PartValue p)) → VmType → VmStructDef → Read VmDynamicVariable
  read_static_with read_part dynamic d = do v ← read_variable_with read_part; pure (dynamic_value v)
  read_static_with read_part array_dynamic d = do
    count ← read_length
    vs ← read_variables_with read_part count
    pure (array_dynamic_value vs)
  read_static_with read_part struct no_struct = do
    x ← read_dynamic_struct_with read_part
    pure (struct_value x)
  read_static_with read_part struct (some_struct s) = do
    x ← read_with_schema_with read_part s
    pure (struct_value x)
  read_static_with read_part array_struct no_struct = do
    count ← read_length
    schema ← read_struct_schema
    xs ← read_structs (read_struct_item_with read_part schema) count
    pure (array_struct_value (struct_array schema xs))
  read_static_with read_part array_struct (some_struct s) = do
    count ← read_length
    xs ← read_structs (read_with_schema_with read_part s) count
    pure (array_struct_value (struct_array s xs))
  read_static_with read_part bytes d = do raw ← read_byte_array; pure (bytes_value raw)
  read_static_with read_part array_bytes d = do
    raws ← read_byte_arrays
    pure (array_bytes_value raws)
  read_static_with read_part int8 d = do n ← read1; pure (int8_value (signed_byte true n))
  read_static_with read_part array_int8 d = do
    vs ← read_int_array 1 true
    pure (array_int8_value vs)
  read_static_with read_part int16 d = do v ← read2; pure (int16_value v)
  read_static_with read_part array_int16 d = do
    vs ← read_int_array 2 true
    pure (array_int16_value vs)
  read_static_with read_part int32 d = do v ← read4; pure (int32_value v)
  read_static_with read_part array_int32 d = do
    vs ← read_int_array 4 true
    pure (array_int32_value vs)
  read_static_with read_part int64 d = do v ← read8; pure (int64_value v)
  read_static_with read_part array_int64 d = do
    vs ← read_int_array 8 true
    pure (array_int64_value vs)
  read_static_with read_part int256 d = do v ← read_big_int; pure (int256_value v)
  read_static_with read_part array_int256 d = do
    vs ← read_big_int_array
    pure (array_int256_value vs)
  read_static_with read_part bytes16 d = do raw ← read16; pure (bytes16_value raw)
  read_static_with read_part array_bytes16 d = do
    raws ← read_carbon_array read16
    pure (array_bytes16_value raws)
  read_static_with read_part bytes32 d = do raw ← read32; pure (bytes32_value raw)
  read_static_with read_part array_bytes32 d = do
    raws ← read_carbon_array read32
    pure (array_bytes32_value raws)
  read_static_with read_part bytes64 d = do raw ← read64; pure (bytes64_value raw)
  read_static_with read_part array_bytes64 d = do
    raws ← read_carbon_array read64
    pure (array_bytes64_value raws)
  read_static_with read_part string d = do text ← read_string_z; pure (string_value text)
  read_static_with read_part array_string d = do
    texts ← read_string_z_array
    pure (array_string_value texts)

  pub read_schema_field_with :
      ((p : Part) → Read (PartValue p)) → VmNamedVariableSchema → Read VmNamedDynamicVariable
  read_schema_field_with read_part (named_schema name (variable_schema t d)) = do
    v ← read_static_with read_part t d
    pure (named_variable name v)

  pub read_schema_fields_with :
      ((p : Part) → Read (PartValue p)) → VmNamedVariableSchemas → Read VmNamedDynamicVariables
  read_schema_fields_with read_part no_schemas = pure no_fields
  read_schema_fields_with read_part (more_schemas item rest) = do
    x ← read_schema_field_with read_part item
    xs ← read_schema_fields_with read_part rest
    pure (more_fields x xs)

  -- `VMDynamicStruct.read_with_schema`
  pub read_with_schema_with :
      ((p : Part) → Read (PartValue p)) → VmStructSchema → Read VmDynamicStruct
  read_with_schema_with read_part (struct_schema schemas flags) = do
    fields ← read_schema_fields_with read_part schemas
    extras ← read_extras_with read_part flags
    pure (sort (dynamic_struct (extend_fields fields extras)))

unfoldable pub part_body : ((p : Part) → Read (PartValue p)) → (p : Part) → Read (PartValue p)
part_body read_part (data_of t) = read_static_with read_part t no_struct
part_body read_part (struct_of s) = read_with_schema_with read_part s

unfoldable pub read_part : (p : Part) → Read (PartValue p)
read_part = read_recursively part_body

unfoldable pub read_dynamic_variable : Read VmDynamicVariable
read_dynamic_variable = read_variable_with read_part

unfoldable pub read_dynamic_struct : Read VmDynamicStruct
read_dynamic_struct = read_dynamic_struct_with read_part

unfoldable pub read_with_schema : VmStructSchema → Read VmDynamicStruct
read_with_schema = read_with_schema_with read_part
