-- ===== src/Carbon/Examples/Dynamic.antt =====
-- Dynamic values and schemas on concrete objects.
use phantasma_py.Carbon.Dynamic.Defaults.{default_vm_value}
use phantasma_py.Carbon.RoundTrips.Dynamic.{
  dynamic_variable-RoundTrips, struct_with_schema-RoundTrips, schemas-RoundTrip,
  mismatched_field-RoundTrips,
}
use phantasma_py.Carbon.Values.SmallStrings.{IsSmallString}
use phantasma_py.Text.Sorting.{same_text, sort_by, insert_by, text_before}
use phantasma_py.Carbon.Schemas.RoundTrip.{AreTokenSchemas, IsStructSchema}
use phantasma_py.Text.{encode_utf8, encode_char}
use phantasma_py.Carbon.Dynamic.Reading.{
  read_part, read_dynamic_variable, read_with_schema, read_schema_field_with,
}
use phantasma_py.Carbon.Dynamic.Writing.{
  write_schema_field, field_writers, write_dynamic_variable, write_with_schema, field_writer,
  fields_writers, variables_length, has_fields,
}
use phantasma_py.Carbon.Dynamic.Fields.{get, same_type}
use phantasma_py.Carbon.Dynamic.Shapes.{
  Conforms, IsData, IsPlainStruct, FitsText, fields_length, structs_length, struct_least,
  data_least, IsDistinct, Matches,
}
use phantasma_py.Carbon.Codec.{RoundTrips}
use phantasma_py.Carbon.Values.{small_string, SmallString}
use phantasma_py.Prelude.{negsuc, some, [], ◌∷◌, ℕ, ◌≡◌, refl, sym, inr, arith, inl, ◌∙◌}
use phantasma_py.Carbon.Schemas.{
  int8, int16, string, array_struct, no_struct, some_struct, named_schema, variable_schema,
  no_schemas, more_schemas, struct_schema, TokenSchemas, VmStructSchema, default_struct_schema,
  has_struct, schemas_length, write_struct_schema, read_struct_schema, write_token_schemas,
  read_token_schemas_value, vm_type_value, VmNamedVariableSchemas,
}
use phantasma_py.Carbon.Dynamic.{
  dynamic_value, struct_value, array_struct_value, array_dynamic_value, int8_value, string_value,
  no_variables, more_variables, named_variable, no_fields, more_fields, no_structs, more_structs,
  dynamic_struct, struct_array, VmDynamicStruct, VmDynamicVariable, sort, fields_list,
  fields_of_list, type_of, VmNamedDynamicVariables,
}

abbrev named : ℕ → SmallString
named c = record { value = c ∷ [] }

-- `a` is a small number and `b` a text, and more fields may follow.
abbrev pair_schema : VmStructSchema
pair_schema =
    struct_schema
      (more_schemas (named_schema (named 97) (variable_schema int8 no_struct))
        (more_schemas (named_schema (named 98) (variable_schema string no_struct)) no_schemas))
      1

abbrev nested_schema : VmStructSchema
nested_schema =
    struct_schema
      (more_schemas
        (named_schema (named 99) (variable_schema array_struct (some_struct pair_schema)))
        no_schemas)
      0

abbrev token_schemas : TokenSchemas
token_schemas = record {
  series_metadata = pair_schema;
  rom = nested_schema;
  ram = default_struct_schema;
}

named_a : IsSmallString (named 97)
unfolding small_string encode_utf8 encode_char
named_a = refl

named_b : IsSmallString (named 98)
unfolding small_string encode_utf8 encode_char
named_b = refl

named_c : IsSmallString (named 99)
unfolding small_string encode_utf8 encode_char
named_c = refl

pair_schema-IsStructSchema : IsStructSchema pair_schema
unfolding has_struct schemas_length
pair_schema-IsStructSchema = (omega arith, ((named_a, tt), ((named_b, tt), tt)), omega arith)

nested_schema-IsStructSchema : IsStructSchema nested_schema
unfolding has_struct schemas_length
nested_schema-IsStructSchema = (
  omega arith,
  ((named_c, (omega arith, ((named_a, tt), ((named_b, tt), tt)), omega arith)), tt),
  omega arith,
)

token_schemas-AreTokenSchemas : AreTokenSchemas token_schemas
unfolding default_struct_schema schemas_length
token_schemas-AreTokenSchemas = record {
  series_metadata = pair_schema-IsStructSchema;
  rom = nested_schema-IsStructSchema;
  ram = (omega arith, tt, omega arith);
}

schemas-RoundTrip_example :
    RoundTrips (write_struct_schema nested_schema) read_struct_schema nested_schema
    × RoundTrips (write_token_schemas token_schemas) read_token_schemas_value token_schemas
schemas-RoundTrip_example =
    schemas-RoundTrip nested_schema token_schemas nested_schema-IsStructSchema
      token_schemas-AreTokenSchemas

abbrev pair : VmDynamicStruct
pair = dynamic_struct (
    more_fields (named_variable (named 97) (int8_value (negsuc 4)))
      (more_fields (named_variable (named 98) (string_value (233 ∷ []))) no_fields))

abbrev unsorted_pair : VmDynamicStruct
unsorted_pair = dynamic_struct (
    more_fields (named_variable (named 98) (string_value (233 ∷ [])))
      (more_fields (named_variable (named 97) (int8_value (negsuc 4))) no_fields))

pair-sorted : sort pair ≡ pair
unfolding sort sort_by insert_by text_before fields_list fields_of_list
pair-sorted = refl

unsorted_pair-sort : sort unsorted_pair ≡ pair
unfolding sort sort_by insert_by text_before fields_list fields_of_list
unsorted_pair-sort = refl

text-FitsText : FitsText (233 ∷ [])
text-FitsText = ((inl (omega arith), tt), refl)

pair-IsPlainStruct : IsPlainStruct pair
unfolding fields_length
pair-IsPlainStruct =
    (pair-sorted, omega arith, (named_a, omega arith, (named_b, text-FitsText, tt)))

pair-Conforms : Conforms pair_schema pair
unfolding fields_writers get same_text type_of
pair-Conforms =
    (pair-sorted, (refl, (refl, tt)), (refl, refl, omega arith, (refl, refl, text-FitsText, tt)))

-- An array of a text, and of pairs with their schema
abbrev variable : VmDynamicVariable
variable = array_dynamic_value (
    more_variables (dynamic_value (struct_value pair)) (
      more_variables (array_struct_value (struct_array pair_schema (more_structs pair no_structs)))
        no_variables))

variable-IsData : IsData variable no_struct
unfolding variables_length has_fields structs_length struct_least data_least
variable-IsData = (
  omega arith,
  (
    pair-IsPlainStruct,
    ((omega arith, pair_schema-IsStructSchema, omega arith, (pair-Conforms, tt)), tt),
  ),
)

dynamic_variable-RoundTrips_example :
    RoundTrips (write_dynamic_variable variable) read_dynamic_variable variable
dynamic_variable-RoundTrips_example = dynamic_variable-RoundTrips variable variable-IsData

-- `b` and then `a`
abbrev unsorted_schemas : VmNamedVariableSchemas
unsorted_schemas =
    more_schemas (named_schema (named 98) (variable_schema string no_struct))
      (more_schemas (named_schema (named 97) (variable_schema int8 no_struct)) no_schemas)

abbrev unsorted_fields : VmNamedDynamicVariables
unsorted_fields =
    more_fields (named_variable (named 98) (string_value (233 ∷ [])))
      (more_fields (named_variable (named 97) (int8_value (negsuc 4))) no_fields)

unsorted_fields-IsDistinct : IsDistinct (fields_writers unsorted_fields)
unfolding fields_writers get same_text
unsorted_fields-IsDistinct = (refl, (refl, tt))

unsorted_fields-Matches : Matches unsorted_schemas unsorted_fields
unfolding type_of
unsorted_fields-Matches = (refl, refl, text-FitsText, (refl, refl, omega arith, tt))

struct_with_schema-RoundTrips_example :
    RoundTrips
      (write_with_schema (struct_schema unsorted_schemas 1) (field_writers pair))
      (read_with_schema (struct_schema unsorted_schemas 1))
      (sort pair)
struct_with_schema-RoundTrips_example =
    struct_with_schema-RoundTrips unsorted_schemas 1 unsorted_fields pair unsorted_fields-IsDistinct
      unsorted_fields-Matches (pair-sorted ∙ sym unsorted_pair-sort)

-- The pair has the number under `a`, but as a byte.
wide_number :
    get (97 ∷ []) (field_writers pair)
    ≡ some (field_writer (named_variable (named 97) (int8_value (negsuc 4))))
unfolding get field_writers same_text
wide_number = refl

mismatched_field-RoundTrips_example :
    RoundTrips
      (write_schema_field
        (field_writers pair)
        (named_schema (named 97) (variable_schema int16 no_struct)))
      (read_schema_field_with read_part (named_schema (named 97) (variable_schema int16 no_struct)))
      (named_variable (named 97) (default_vm_value int16))
mismatched_field-RoundTrips_example =
    mismatched_field-RoundTrips (field_writers pair) (named 97) int16 no_struct
      (unfold has_struct in refl)
      (inr (
        field_writer (named_variable (named 97) (int8_value (negsuc 4))),
        wide_number,
        (unfold same_type vm_type_value field_writer type_of in refl),
      ))
