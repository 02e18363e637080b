-- ===== src/Carbon/Schemas.antt =====
-- `VMType` and `VMStructFlags` of carbon.py, and `VMVariableSchema`, `VMNamedVariableSchema` and
-- `VMStructSchema`, which hold one another, with their writing and their reading methods.
pub mod Reading
pub mod RoundTrip
use phantasma_py.Carbon.Codec.Recursion.{read_recursively}
use phantasma_py.Carbon.Values.{SmallString, read_small_string, write_small_string}
use phantasma_py.Carbon.Reader.{Read, read1, read_length}
use phantasma_py.Carbon.Writer.{Write, write1, write4}
use phantasma_py.Prelude.{
  Bool, ℕ, Result, if◌then◌else◌, pure, suc, true, ◌>>=◌, ◌>>◌, false, pos, zero, lift, List, ltb,
  ok, ◌∷◌, [], get_or, err, Error,
}

-- `ARRAY` is another name of `ARRAY_DYNAMIC`.
pub data VmType : Type 0 where
  dynamic array_dynamic bytes array_bytes struct array_struct int8 array_int8 int16 array_int16
        int32 array_int32 int64 array_int64 int256 array_int256 bytes16 array_bytes16 bytes32
        array_bytes32 bytes64 array_bytes64 string array_string :
      VmType

-- The number of a type
unfoldable pub vm_type_value : VmType → ℕ
vm_type_value dynamic = 0
vm_type_value array_dynamic = 1
vm_type_value bytes = 2
vm_type_value array_bytes = 3
vm_type_value struct = 4
vm_type_value array_struct = 5
vm_type_value int8 = 6
vm_type_value array_int8 = 7
vm_type_value int16 = 8
vm_type_value array_int16 = 9
vm_type_value int32 = 10
vm_type_value array_int32 = 11
vm_type_value int64 = 12
vm_type_value array_int64 = 13
vm_type_value int256 = 14
vm_type_value array_int256 = 15
vm_type_value bytes16 = 16
vm_type_value array_bytes16 = 17
vm_type_value bytes32 = 18
vm_type_value array_bytes32 = 19
vm_type_value bytes64 = 20
vm_type_value array_bytes64 = 21
vm_type_value string = 22
vm_type_value array_string = 23

abbrev vm_types : List VmType
vm_types =
    dynamic ∷ array_dynamic ∷ bytes ∷ array_bytes ∷ struct ∷ array_struct ∷ int8 ∷ array_int8
    ∷ int16 ∷ array_int16 ∷ int32 ∷ array_int32 ∷ int64 ∷ array_int64 ∷ int256 ∷ array_int256
    ∷ bytes16 ∷ array_bytes16 ∷ bytes32 ∷ array_bytes32 ∷ bytes64 ∷ array_bytes64 ∷ string
    ∷ array_string ∷ []

-- `VMType(value)`
unfoldable pub vm_type : ℕ → Result VmType
vm_type n = if ltb n 24 then ok (get_or vm_types n dynamic) else err Error.value

unfoldable pub write_vm_type : VmType → Write
write_vm_type t = write1 (pos (vm_type_value t))

unfoldable pub read_vm_type : Read VmType
read_vm_type = do n ← read1; lift (vm_type n)

-- The types whose schema has a struct: `in {VMType.STRUCT, VMType.ARRAY_STRUCT}`.
unfoldable pub has_struct : VmType → Bool
has_struct struct = true
has_struct array_struct = true
has_struct _ = false

unfoldable pub dynamic_extras : ℕ
dynamic_extras = 1

unfoldable pub is_sorted : ℕ
is_sorted = 2

-- `flags` is a number: `IntFlag` keeps the bits that it does not name.
mutual
  pub data VmVariableSchema : Type 0 where
    variable_schema : VmType → VmStructDef → VmVariableSchema

  -- `VMStructSchema | None`
  pub data VmStructDef : Type 0 where
    no_struct : VmStructDef
    some_struct : VmStructSchema → VmStructDef

  pub data VmNamedVariableSchema : Type 0 where
    named_schema : SmallString → VmVariableSchema → VmNamedVariableSchema

  pub data VmNamedVariableSchemas : Type 0 where
    no_schemas : VmNamedVariableSchemas
    more_schemas : VmNamedVariableSchema → VmNamedVariableSchemas → VmNamedVariableSchemas

  pub data VmStructSchema : Type 0 where
    struct_schema : VmNamedVariableSchemas → ℕ → VmStructSchema

-- `len(self.fields)`
unfoldable pub schemas_length : VmNamedVariableSchemas → ℕ
schemas_length no_schemas = 0
schemas_length (more_schemas item rest) = suc (schemas_length rest)

unfoldable pub default_struct_schema : VmStructSchema
default_struct_schema = struct_schema no_schemas 0

unfoldable mutual
  pub write_variable_schema : VmVariableSchema → Write
  write_variable_schema (variable_schema t d) = do
    write_vm_type t
    if has_struct t then write_struct_def d else pure tt

  -- `(self.struct_def or VMStructSchema()).write_carbon(writer)`
  pub write_struct_def : VmStructDef → Write
  write_struct_def no_struct = do write4 (pos 0); write1 (pos 0)
  write_struct_def (some_struct s) = write_struct_schema s

  pub write_named_variable_schema : VmNamedVariableSchema → Write
  write_named_variable_schema (named_schema name schema) = do
    write_small_string name
    write_variable_schema schema

  pub write_schemas : VmNamedVariableSchemas → Write
  write_schemas no_schemas = pure tt
  write_schemas (more_schemas item rest) = do write_named_variable_schema item; write_schemas rest

  pub write_struct_schema : VmStructSchema → Write
  write_struct_schema (struct_schema fields flags) = do
    write4 (pos (schemas_length fields))
    write_schemas fields
    write1 (pos flags)

-- The reading methods call one another: each is given here the one that reads a variable's schema.
module _ (read_schema : Read VmVariableSchema) where
  unfoldable pub read_named_variable_schema_with : Read VmNamedVariableSchema
  read_named_variable_schema_with = do
    name ← read_small_string
    schema ← read_schema
    pure (named_schema name schema)

  unfoldable pub read_schemas_with : ℕ → Read VmNamedVariableSchemas
  read_schemas_with zero = pure no_schemas
  read_schemas_with (suc count) = do
    item ← read_named_variable_schema_with
    rest ← read_schemas_with count
    pure (more_schemas item rest)

  unfoldable pub read_struct_schema_with : Read VmStructSchema
  read_struct_schema_with = do
    count ← read_length
    fields ← read_schemas_with count
    flags ← read1
    pure (struct_schema fields flags)

  unfoldable pub read_struct_def_with : VmType → Read VmStructDef
  read_struct_def_with t =
      if has_struct t
      then (do s ← read_struct_schema_with; pure (some_struct s))
      else pure no_struct

  unfoldable pub read_variable_schema_with : Read VmVariableSchema
  read_variable_schema_with = do
    t ← read_vm_type
    d ← read_struct_def_with t
    pure (variable_schema t d)

abbrev pub variable_schema_body :
    (Unit {0} → Read VmVariableSchema) → Unit {0} → Read VmVariableSchema
variable_schema_body read_schema _ = read_variable_schema_with (read_schema tt)

unfoldable pub read_variable_schema : Read VmVariableSchema
read_variable_schema = read_recursively variable_schema_body tt

unfoldable pub read_struct_schema : Read VmStructSchema
read_struct_schema = read_struct_schema_with read_variable_schema

pub record TokenSchemas : Type 0 where
  pub series_metadata : VmStructSchema
  pub rom : VmStructSchema
  pub ram : VmStructSchema

unfoldable pub write_token_schemas : TokenSchemas → Write
write_token_schemas s = do
  write_struct_schema s.series_metadata
  write_struct_schema s.rom
  write_struct_schema s.ram

unfoldable pub read_token_schemas_value : Read TokenSchemas
read_token_schemas_value = do
  series_metadata ← read_struct_schema
  rom ← read_struct_schema
  ram ← read_struct_schema
  pure (record { series_metadata = series_metadata; rom = rom; ram = ram })
