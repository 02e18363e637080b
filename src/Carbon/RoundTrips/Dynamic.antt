-- ===== src/Carbon/RoundTrips/Dynamic.antt =====
-- The wire form of dynamic values and of their schemas.
use phantasma_py.Carbon.Dynamic.Defaults.{default_vm_value}
use phantasma_py.Carbon.Dynamic.Mismatch.{IsMismatch, mismatch_lem}
use phantasma_py.Carbon.Dynamic.Lookup.{fields_found-eq, length-fields_writers}
use phantasma_py.Carbon.Values.{SmallString}
use phantasma_py.Carbon.Dynamic.Fields.{FieldWriter}
use phantasma_py.Prelude.{List, ◌≡◌, ℕ, false, [], refl}
use phantasma_py.Carbon.Dynamic.Order.{write_with_schema-alike}
use phantasma_py.Carbon.Dynamic.RoundTrip.{write_dynamic_variable_lem, matching_lem}
use phantasma_py.Carbon.Codec.{RoundTrips, Encodes-RoundTrips}
use phantasma_py.Carbon.Dynamic.Shapes.{IsData, IsDistinct, Matches}
use phantasma_py.Carbon.Schemas.RoundTrip.{
  IsStructSchema, AreTokenSchemas, write_struct_schema_lem, write_token_schemas_lem,
}
use phantasma_py.Carbon.Dynamic.{
  dynamic_struct, named_variable, VmDynamicStruct, VmDynamicVariable, sort, VmNamedDynamicVariables,
}
use phantasma_py.Carbon.Dynamic.Reading.{
  read_with_schema, read_dynamic_variable, read_schema_field_with, read_part,
}
use phantasma_py.Carbon.Dynamic.Writing.{
  write_dynamic_variable, write_with_schema, field_writers, fields_writers, write_schema_field,
}
use phantasma_py.Carbon.Schemas.{
  struct_schema, named_schema, variable_schema, no_struct, VmStructSchema, TokenSchemas,
  write_struct_schema, read_struct_schema, write_token_schemas, read_token_schemas_value,
  VmNamedVariableSchemas, VmType, VmStructDef, has_struct,
}

-- A struct's schema, whose structs and arrays of structs have schemas of their own and the other
-- fields have none, with names that a small string admits and flags of one byte, is written, reads
-- back however deep it is nested, and is refused with any byte behind it; so are the three schemas
-- of a token.
pub schemas-RoundTrip :
    (schema : VmStructSchema) (schemas : TokenSchemas)
    → IsStructSchema schema
    → AreTokenSchemas schemas
    → RoundTrips (write_struct_schema schema) read_struct_schema schema
      × RoundTrips (write_token_schemas schemas) read_token_schemas_value schemas
schemas-RoundTrip schema schemas h h' = (
  Encodes-RoundTrips (write_struct_schema_lem schema h),
  Encodes-RoundTrips (write_token_schemas_lem schemas h'),
)

-- A dynamic variable of any of the 24 types is written with its type, reads back, and is refused
-- with any byte behind it, if what it holds fits: numbers and lengths fit their types; texts have
-- no zero and no surrogate, and names are those that a small string admits; a struct without a
-- schema has its fields sorted by name; a struct with a schema has the fields of the schema, with
-- their types and in their order, and no others, and they too are sorted by name and no two have
-- one name; a schema that is written with an array of structs is one that reads back; and each
-- struct of an array takes at least one byte.
pub dynamic_variable-RoundTrips :
    (v : VmDynamicVariable)
    → IsData v no_struct
    → RoundTrips (write_dynamic_variable v) read_dynamic_variable v
unfolding write_dynamic_variable read_dynamic_variable
dynamic_variable-RoundTrips v h = Encodes-RoundTrips (write_dynamic_variable_lem v h)

-- A struct that has the fields of a schema, with their types, no others and no two of one name, is
-- written with the schema, where names and types are left out, and reads back with it, sorted by
-- name; any byte behind it is refused. The schema may list its fields in any order, as `fields`
-- does, and the struct may hold them in any other. The value of each field fits its type, and a
-- struct or an array of structs in it fits its own schema as a dynamic variable's does: there
-- the fields are in the schema's order and sorted by name, and a struct of an array takes at least
-- one byte.
pub struct_with_schema-RoundTrips :
    (schemas : VmNamedVariableSchemas) (flags : ℕ) (fields : VmNamedDynamicVariables)
    (x : VmDynamicStruct)
    → IsDistinct (fields_writers fields)
    → Matches schemas fields
    → sort x ≡ sort (dynamic_struct fields)
    → RoundTrips
        (write_with_schema (struct_schema schemas flags) (field_writers x))
        (read_with_schema (struct_schema schemas flags))
        (sort x)
unfolding read_with_schema field_writers
struct_with_schema-RoundTrips schemas flags fields x distinct h alike =
    rw
      (
        alike,
        write_with_schema-alike (dynamic_struct fields) x alike schemas flags
            (fields_found-eq (fields_writers fields) distinct [] schemas fields refl h)
            (length-fields_writers schemas fields h),
      )
      (Encodes-RoundTrips (matching_lem schemas flags fields distinct h))

-- A field of a schema that a struct does not have, or has with another type, is written all the
-- same, and reads back as the default of the schema's type, a zero, an empty text or an empty
-- array: the struct's value is left out without an error. The type is any but a struct and an array
-- of structs.
pub mismatched_field-RoundTrips :
    (fields : List FieldWriter) (name : SmallString) (t : VmType) (d : VmStructDef)
    → has_struct t ≡ false
    → IsMismatch fields name t
    → RoundTrips
        (write_schema_field fields (named_schema name (variable_schema t d)))
        (read_schema_field_with read_part (named_schema name (variable_schema t d)))
        (named_variable name (default_vm_value t))
mismatched_field-RoundTrips fields name t d leaf h =
    Encodes-RoundTrips (mismatch_lem fields name t d leaf h)
