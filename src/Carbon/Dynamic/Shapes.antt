-- ===== src/Carbon/Dynamic/Shapes.antt =====
-- The dynamic values that read back as they were: the numbers fit their types, the texts have no
-- zero, the structs are sorted, and a struct that is written with a schema has the fields of the
-- schema with their types and no others.
use phantasma_py.Carbon.Values.SmallStrings.{IsSmallString}
use phantasma_py.Carbon.Schemas.RoundTrip.{IsStructSchema}
use phantasma_py.Carbon.Dynamic.Writing.{variables_length, has_fields, fields_writers}
use phantasma_py.Text.RoundTrip.{IsScalar}
use phantasma_py.Carbon.Dynamic.Fields.{FieldWriter, get}
use phantasma_py.Text.{Text, has_zero}
use phantasma_py.Prelude.{
  true, false, none, List, All, length, ℕ, suc, ◌<◌, ◌∷◌, ◌+◌, ◌^◌, ◌≡◌, IsSigned, [], ◌≤◌, Bool,
}
use phantasma_py.Carbon.Schemas.{
  struct, no_struct, some_struct, variable_schema, named_schema, no_schemas, more_schemas,
  struct_schema, VmType, VmStructDef, VmNamedVariableSchemas, VmStructSchema,
}
use phantasma_py.Carbon.Dynamic.{
  dynamic_value, array_dynamic_value, struct_value, array_struct_value, bytes_value, bytes16_value,
  bytes32_value, bytes64_value, array_bytes_value, array_bytes16_value, array_bytes32_value,
  array_bytes64_value, int8_value, int16_value, int32_value, int64_value, int256_value,
  array_int8_value, array_int16_value, array_int32_value, array_int64_value, array_int256_value,
  string_value, array_string_value, no_variables, more_variables, named_variable, no_fields,
  more_fields, dynamic_struct, no_structs, more_structs, struct_array, VmDynamicStructs,
  VmDynamicVariable, VmNamedDynamicVariables, VmDynamicVariables, VmDynamicStruct, sort, type_of,
}

abbrev pub FitsText : Text → Type 0
FitsText text = All IsScalar text × (has_zero text ≡ false)

abbrev pub FitsArray : {A : Type 0} → (A → Type 0) → List A → Type 0
FitsArray P xs = (length xs < 2 ^ 31) × All P xs

-- Data that holds no other dynamic values
abbrev pub FitsType : VmDynamicVariable → Type 0
FitsType (bytes_value raw) = length raw < 2 ^ 31
FitsType (bytes16_value raw) = length raw ≡ 16
FitsType (bytes32_value raw) = length raw ≡ 32
FitsType (bytes64_value raw) = length raw ≡ 64
FitsType (array_bytes_value raws) = FitsArray (λ raw. length raw < 2 ^ 31) raws
FitsType (array_bytes16_value raws) = FitsArray (λ raw. length raw ≡ 16) raws
FitsType (array_bytes32_value raws) = FitsArray (λ raw. length raw ≡ 32) raws
FitsType (array_bytes64_value raws) = FitsArray (λ raw. length raw ≡ 64) raws
FitsType (int8_value v) = IsSigned 8 v
FitsType (int16_value v) = IsSigned 16 v
FitsType (int32_value v) = IsSigned 32 v
FitsType (int64_value v) = IsSigned 64 v
FitsType (int256_value v) = IsSigned 256 v
FitsType (array_int8_value vs) = FitsArray (IsSigned 8) vs
FitsType (array_int16_value vs) = FitsArray (IsSigned 16) vs
FitsType (array_int32_value vs) = FitsArray (IsSigned 32) vs
FitsType (array_int64_value vs) = FitsArray (IsSigned 64) vs
FitsType (array_int256_value vs) = FitsArray (IsSigned 256) vs
FitsType (string_value text) = FitsText text
FitsType (array_string_value texts) = FitsArray FitsText texts
FitsType _ = ⊥

-- The bytes that data of a type takes at least; a struct without fields takes none.
unfoldable mutual
  pub data_least : VmType → VmStructDef → ℕ
  data_least struct (some_struct s) = struct_least s
  data_least _ _ = 1

  pub schemas_least : VmNamedVariableSchemas → ℕ
  schemas_least no_schemas = 0
  schemas_least (more_schemas (named_schema name (variable_schema t d)) rest) =
      data_least t d + schemas_least rest

  pub struct_least : VmStructSchema → ℕ
  struct_least (struct_schema schemas flags) = schemas_least schemas

-- A struct that is written without a schema takes its length.
abbrev pub item_least : Bool → VmStructSchema → ℕ
item_least true s = struct_least s
item_least false s = 1

-- No field has the name of an earlier one.
abbrev pub IsDistinct : List FieldWriter → Type 0
IsDistinct [] = Unit
IsDistinct (f ∷ rest) = (get f.name.value rest ≡ none) × IsDistinct rest

unfoldable pub fields_length : VmNamedDynamicVariables → ℕ
fields_length no_fields = 0
fields_length (more_fields item rest) = suc (fields_length rest)

unfoldable pub structs_length : VmDynamicStructs → ℕ
structs_length no_structs = 0
structs_length (more_structs x rest) = suc (structs_length rest)

abbrev mutual
  -- Data that is written with a schema's struct, or without one
  pub IsData : VmDynamicVariable → VmStructDef → Type 0
  IsData (dynamic_value v) d = IsData v no_struct
  IsData (array_dynamic_value vs) d = (variables_length vs < 2 ^ 31) × AreVariables vs
  IsData (struct_value x) no_struct = IsPlainStruct x
  IsData (struct_value x) (some_struct s) = Conforms s x
  IsData (array_struct_value (struct_array schema xs)) no_struct =
      (structs_length xs < 2 ^ 31)
      × IsStructSchema schema
      × (1 ≤ item_least (has_fields schema) schema)
      × AreItems (has_fields schema) schema xs
  IsData (array_struct_value (struct_array schema xs)) (some_struct s) =
      (structs_length xs < 2 ^ 31) × (schema ≡ s) × (1 ≤ item_least true s) × AreItems true s xs
  IsData v d = FitsType v

  pub AreVariables : VmDynamicVariables → Type 0
  AreVariables no_variables = Unit
  AreVariables (more_variables v rest) = IsData v no_struct × AreVariables rest

  -- A struct that is written without a schema
  pub IsPlainStruct : VmDynamicStruct → Type 0
  IsPlainStruct (dynamic_struct fields) =
      (sort (dynamic_struct fields) ≡ dynamic_struct fields)
      × (fields_length fields < 2 ^ 31)
      × AreFields fields

  pub AreFields : VmNamedDynamicVariables → Type 0
  AreFields no_fields = Unit
  AreFields (more_fields (named_variable name v) rest) =
      IsSmallString name × IsData v no_struct × AreFields rest

  -- A struct that is written with a schema
  pub Conforms : VmStructSchema → VmDynamicStruct → Type 0
  Conforms (struct_schema schemas flags) (dynamic_struct fields) =
      (sort (dynamic_struct fields) ≡ dynamic_struct fields)
      × IsDistinct (fields_writers fields)
      × Matches schemas fields

  pub Matches : VmNamedVariableSchemas → VmNamedDynamicVariables → Type 0
  Matches no_schemas no_fields = Unit
  Matches no_schemas (more_fields item rest) = ⊥
  Matches (more_schemas item rest) no_fields = ⊥
  Matches (more_schemas (named_schema name (variable_schema t d)) schemas)
        (more_fields (named_variable name' v) fields) =
      (name ≡ name') × (type_of v ≡ t) × IsData v d × Matches schemas fields

  pub AreItems : Bool → VmStructSchema → VmDynamicStructs → Type 0
  AreItems b s no_structs = Unit
  AreItems true s (more_structs x rest) = Conforms s x × AreItems true s rest
  AreItems false s (more_structs x rest) = IsPlainStruct x × AreItems false s rest
