-- ===== src/Carbon/Dynamic/Fields.antt =====
-- What `write_with_schema` and `_write_named_dynamic_variables` do with the fields of a struct.
use Prim.Native.Nat.{bit_and}
use phantasma_py.Text.Sorting.{same_text, sort_by}
use phantasma_py.Carbon.Writer.{Write, write_carbon_array, write4u}
use phantasma_py.Carbon.Values.{SmallString, write_small_string}
use phantasma_py.Text.{Text}
use phantasma_py.Carbon.Schemas.{
  no_struct, named_schema, no_schemas, more_schemas, VmNamedVariableSchema, VmNamedVariableSchemas,
  VmStructDef, VmType, vm_type_value, write_vm_type, schemas_length,
}
use phantasma_py.Prelude.{
  pos, false, some, none, List, Option, ℕ, Bool, [], if◌then◌else◌, ◌+◌, ◌>>◌, ◌∷◌, not, pure, ◌==◌,
  ◌||◌, length, ◌&&◌,
}

-- What the writing of a struct needs of a field: its name, its type, and its `write_static` for
-- that type. `write_static` takes a schema's struct, so that this is a method for each of them.
pub record FieldWriter : Type 0 where
  pub name : SmallString
  pub kind : VmType
  pub write_data : VmStructDef → Write

abbrev pub writer_name : FieldWriter → Text
writer_name f = f.name.value

-- `VMNamedDynamicVariable.write_carbon`, with `VMDynamicVariable.write_carbon`
unfoldable pub write_field : FieldWriter → Write
write_field f = do write_small_string f.name; write_vm_type f.kind; f.write_data no_struct

-- `_write_named_dynamic_variables`
unfoldable pub write_named_dynamic_variables : List FieldWriter → Write
write_named_dynamic_variables = write_carbon_array write_field

-- `VMDynamicStruct.write_carbon`
unfoldable pub write_fields : List FieldWriter → Write
write_fields fields = write_named_dynamic_variables (sort_by writer_name fields)

-- `VMDynamicStruct.get`
unfoldable pub get : Text → List FieldWriter → Option FieldWriter
get name [] = none
get name (f ∷ rest) =
    let more = get name rest in if same_text f.name.value name then some f else more

abbrev pub schema_name : VmNamedVariableSchema → Text
schema_name (named_schema name schema) = name.value

-- `_schema_has_field`
unfoldable pub schema_has_field : VmNamedVariableSchemas → Text → Bool
schema_has_field no_schemas name = false
schema_has_field (more_schemas item rest) name =
    same_text (schema_name item) name || schema_has_field rest name

abbrev found : Option FieldWriter → ℕ
found none = 0
found (some f) = 1

-- `fields_found` behind the loop of `write_with_schema`
unfoldable pub fields_found : VmNamedVariableSchemas → List FieldWriter → ℕ
fields_found no_schemas fields = 0
fields_found (more_schemas item rest) fields =
    found (get (schema_name item) fields) + fields_found rest fields

abbrev keep_extra : VmNamedVariableSchemas → FieldWriter → List FieldWriter → List FieldWriter
keep_extra schemas f rest = if schema_has_field schemas (writer_name f) then rest else f ∷ rest

unfoldable pub extra_fields : VmNamedVariableSchemas → List FieldWriter → List FieldWriter
extra_fields known [] = []
extra_fields known (f ∷ rest) = keep_extra known f (extra_fields known rest)

abbrev pub has_extras : ℕ → Bool
has_extras flags = not (bit_and flags 1 == 0)

-- `write_with_schema` behind the loop over the schema's fields
unfoldable pub write_extras : VmNamedVariableSchemas → ℕ → List FieldWriter → Write
write_extras schemas flags fields =
    if not (has_extras flags)
    then pure tt
    else if (fields_found schemas fields == schemas_length schemas)
        && (length fields == schemas_length schemas)
    then write4u (pos 0)
    else write_named_dynamic_variables (extra_fields schemas fields)

unfoldable pub same_type : VmType → VmType → Bool
same_type t t' = vm_type_value t == vm_type_value t'

-- A field that the struct has with the type of the schema, or the default of that type
unfoldable pub write_found : Option FieldWriter → VmType → VmStructDef → Write → Write
write_found none t d default = default
write_found (some f) t d default = if same_type f.kind t then f.write_data d else default
