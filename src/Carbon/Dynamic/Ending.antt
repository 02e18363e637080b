-- ===== src/Carbon/Dynamic/Ending.antt =====
-- The reading of dynamic values ends: the methods take a byte before they come back to one another.
use phantasma_py.Carbon.Codec.Shrinking.{
  read_byte_array-Takes, read_carbon_array-Takes, read_int_array-Takes, read_number-Takes,
  read_big_int-Takes, read16-Takes, read32-Takes, read64-Takes, read_string_z-Takes,
}
use phantasma_py.Carbon.Dynamic.Fields.{has_extras}
use phantasma_py.Carbon.Dynamic.Writing.{has_fields}
use phantasma_py.Carbon.Schemas.Reading.{
  read_vm_type-Takes, read_small_string-Takes, read_struct_schema-Takes,
}
use phantasma_py.Carbon.Codec.Recursion.{
  Guarded, Takes, read_recursively-eq, Takes-bind, Takes-bind_first, Takes-if, Takes-pure,
  Takes-weaken, read_length-Takes, read1-Takes,
}
use phantasma_py.Carbon.Reader.{
  CarbonReader, Read, read2, read4, read8, read_byte_arrays, read_big_int_array,
  read_string_z_array,
}
use phantasma_py.Prelude.{true, ℕ, ◌≡◌, ◌<◌, arith, suc, zero}
use phantasma_py.Carbon.Schemas.{
  dynamic, array_dynamic, struct, array_struct, bytes, array_bytes, int8, array_int8, int16,
  array_int16, int32, array_int32, int64, array_int64, int256, array_int256, bytes16, array_bytes16,
  bytes32, array_bytes32, bytes64, array_bytes64, string, array_string, no_struct, some_struct,
  variable_schema, named_schema, no_schemas, more_schemas, struct_schema, VmStructSchema, VmType,
  VmStructDef, VmNamedVariableSchema, VmNamedVariableSchemas,
}
use phantasma_py.Carbon.Dynamic.{no_variables, no_fields, no_structs, VmDynamicStruct}
use phantasma_py.Carbon.Dynamic.Reading.{
  data_of, struct_of, Part, part_body, read_part, read_structs, PartValue, read_dynamic_struct_with,
  read_extras_with, read_fields_with, read_named_variables_with, read_static_with,
  read_struct_item_with, read_variable_with, read_variables_with, read_named_variable_with,
  read_with_schema_with, read_schema_field_with, read_schema_fields_with,
}

structs-Takes :
    {n : ℕ} {r r' : Read VmDynamicStruct} (count : ℕ)
    → Takes 0 n r r'
    → Takes 0 n (read_structs r count) (read_structs r' count)
unfolding read_structs
structs-Takes zero t = Takes-pure no_structs
structs-Takes (suc count) t =
    Takes-bind _ _ t λ x. Takes-bind _ _ (structs-Takes count t) λ rest. Takes-pure _

module _ (rp rp' : (p : Part) → Read (PartValue p)) where
  abbrev AgreeBelow : ℕ → Type 0
  AgreeBelow n = (m : ℕ) → m < n → (p : Part) → Takes 0 m (rp p) (rp' p)

  variable-Takes :
      {n : ℕ} → AgreeBelow n → Takes 1 n (read_variable_with rp) (read_variable_with rp')
  unfolding read_variable_with
  variable-Takes h =
      Takes-bind_first _ _ read_vm_type-Takes (omega arith) λ m fewer t. h m fewer (data_of t)

  variables-Takes :
      {n : ℕ} (count : ℕ)
      → AgreeBelow n
      → Takes 0 n (read_variables_with rp count) (read_variables_with rp' count)
  unfolding read_variables_with
  variables-Takes zero h = Takes-pure no_variables
  variables-Takes (suc count) h = Takes-weaken 0 (omega arith) (
      Takes-bind _ _ (variable-Takes h)
        λ v. Takes-bind _ _ (variables-Takes count h) λ rest. Takes-pure _)

  fields-Takes :
      {n : ℕ} (count : ℕ)
      → AgreeBelow n
      → Takes 0 n (read_fields_with rp count) (read_fields_with rp' count)
  unfolding read_fields_with read_named_variable_with
  fields-Takes zero h = Takes-pure no_fields
  fields-Takes (suc count) h = Takes-weaken 0 (omega arith) (
      Takes-bind _ _
        (Takes-bind _ _ read_small_string-Takes
          λ name. Takes-bind _ _ (variable-Takes h) λ v. Takes-pure _)
        λ item. Takes-bind _ _ (fields-Takes count h) λ rest. Takes-pure _)

  named_variables-Takes :
      {n : ℕ}
      → AgreeBelow n
      → Takes 0 n (read_named_variables_with rp) (read_named_variables_with rp')
  unfolding read_named_variables_with
  named_variables-Takes h =
      Takes-weaken 0 (omega arith) (Takes-bind _ _ read_length-Takes λ count. fields-Takes count h)

  dynamic_struct-Takes :
      {n : ℕ}
      → AgreeBelow n
      → Takes 0 n (read_dynamic_struct_with rp) (read_dynamic_struct_with rp')
  unfolding read_dynamic_struct_with
  dynamic_struct-Takes h = Takes-bind _ _ (named_variables-Takes h) λ fields. Takes-pure _

  AgreeBelow-fewer : {m n : ℕ} → m < n → AgreeBelow n → AgreeBelow m
  AgreeBelow-fewer fewer h k below = h k (omega arith)

  struct_item-Takes :
      {m n : ℕ} (s : VmStructSchema)
      → m < n
      → AgreeBelow n
      → Takes 0 m (read_struct_item_with rp s) (read_struct_item_with rp' s)
  unfolding read_struct_item_with
  struct_item-Takes s fewer h =
      Takes-if (has_fields s) (h _ fewer (struct_of s))
        (dynamic_struct-Takes (AgreeBelow-fewer fewer h))

  extras-Takes :
      {n : ℕ} (flags : ℕ)
      → AgreeBelow n
      → Takes 0 n (read_extras_with rp flags) (read_extras_with rp' flags)
  unfolding read_extras_with
  extras-Takes flags h =
      Takes-if (has_extras flags) (named_variables-Takes h) (Takes-pure no_fields)

  mutual
    unfolding read_static_with read_with_schema_with read_schema_field_with read_schema_fields_with
        read2 read4 read8 read_byte_arrays read_big_int_array read_string_z_array

    static-Takes :
        {n : ℕ} (t : VmType) (d : VmStructDef)
        → AgreeBelow n
        → Takes 0 n (read_static_with rp t d) (read_static_with rp' t d)
    static-Takes dynamic d h =
        Takes-weaken 0 (omega arith) (Takes-bind _ _ (variable-Takes h) λ v. Takes-pure _)
    static-Takes array_dynamic d h = Takes-weaken 0 (omega arith) (
        Takes-bind _ _ read_length-Takes
          λ count. Takes-bind _ _ (variables-Takes count h) λ vs. Takes-pure _)
    static-Takes struct no_struct h = Takes-bind _ _ (dynamic_struct-Takes h) λ x. Takes-pure _
    static-Takes struct (some_struct s) h = Takes-bind _ _ (with_schema-Takes s h) λ x. Takes-pure _
    static-Takes array_struct no_struct h = Takes-weaken 0 (omega arith) (
        Takes-bind_first _ _ read_length-Takes (omega arith) λ m fewer count.
          Takes-bind _ _ (Takes-weaken 0 (omega arith) read_struct_schema-Takes) λ schema.
            Takes-bind _ _ (structs-Takes count (struct_item-Takes schema fewer h))
              λ xs. Takes-pure _)
    static-Takes array_struct (some_struct s) h = Takes-weaken 0 (omega arith) (
        Takes-bind _ _ read_length-Takes
          λ count. Takes-bind _ _ (structs-Takes count (with_schema-Takes s h)) λ xs. Takes-pure _)
    static-Takes bytes d h = Takes-bind _ _ read_byte_array-Takes λ x. Takes-pure _
    static-Takes array_bytes d h =
        Takes-bind _ _ (read_carbon_array-Takes read_byte_array-Takes) λ x. Takes-pure _
    static-Takes int8 d h =
        Takes-bind _ _ (Takes-weaken 0 (omega arith) read1-Takes) λ x. Takes-pure _
    static-Takes array_int8 d h = Takes-bind _ _ (read_int_array-Takes 1 true) λ x. Takes-pure _
    static-Takes int16 d h = Takes-bind _ _ (read_number-Takes 2) λ x. Takes-pure _
    static-Takes array_int16 d h = Takes-bind _ _ (read_int_array-Takes 2 true) λ x. Takes-pure _
    static-Takes int32 d h = Takes-bind _ _ (read_number-Takes 4) λ x. Takes-pure _
    static-Takes array_int32 d h = Takes-bind _ _ (read_int_array-Takes 4 true) λ x. Takes-pure _
    static-Takes int64 d h = Takes-bind _ _ (read_number-Takes 8) λ x. Takes-pure _
    static-Takes array_int64 d h = Takes-bind _ _ (read_int_array-Takes 8 true) λ x. Takes-pure _
    static-Takes int256 d h = Takes-bind _ _ read_big_int-Takes λ x. Takes-pure _
    static-Takes array_int256 d h =
        Takes-bind _ _ (read_carbon_array-Takes read_big_int-Takes) λ x. Takes-pure _
    static-Takes bytes16 d h = Takes-bind _ _ read16-Takes λ x. Takes-pure _
    static-Takes array_bytes16 d h =
        Takes-bind _ _ (read_carbon_array-Takes read16-Takes) λ x. Takes-pure _
    static-Takes bytes32 d h = Takes-bind _ _ read32-Takes λ x. Takes-pure _
    static-Takes array_bytes32 d h =
        Takes-bind _ _ (read_carbon_array-Takes read32-Takes) λ x. Takes-pure _
    static-Takes bytes64 d h = Takes-bind _ _ read64-Takes λ x. Takes-pure _
    static-Takes array_bytes64 d h =
        Takes-bind _ _ (read_carbon_array-Takes read64-Takes) λ x. Takes-pure _
    static-Takes string d h = Takes-bind _ _ read_string_z-Takes λ x. Takes-pure _
    static-Takes array_string d h =
        Takes-bind _ _ (read_carbon_array-Takes read_string_z-Takes) λ x. Takes-pure _

    schema_field-Takes :
        {n : ℕ} (item : VmNamedVariableSchema)
        → AgreeBelow n
        → Takes 0 n (read_schema_field_with rp item) (read_schema_field_with rp' item)
    schema_field-Takes (named_schema name (variable_schema t d)) h =
        Takes-bind _ _ (static-Takes t d h) λ v. Takes-pure _

    schema_fields-Takes :
        {n : ℕ} (items : VmNamedVariableSchemas)
        → AgreeBelow n
        → Takes 0 n (read_schema_fields_with rp items) (read_schema_fields_with rp' items)
    schema_fields-Takes no_schemas h = Takes-pure no_fields
    schema_fields-Takes (more_schemas item rest) h =
        Takes-bind _ _ (schema_field-Takes item h)
          λ x. Takes-bind _ _ (schema_fields-Takes rest h) λ xs. Takes-pure _

    with_schema-Takes :
        {n : ℕ} (s : VmStructSchema)
        → AgreeBelow n
        → Takes 0 n (read_with_schema_with rp s) (read_with_schema_with rp' s)
    with_schema-Takes (struct_schema items flags) h =
        Takes-bind _ _ (schema_fields-Takes items h)
          λ fields. Takes-bind _ _ (extras-Takes flags h) λ extras. Takes-pure _

part_body-Guarded : Guarded part_body
unfolding part_body
part_body-Guarded n rp rp' h (data_of t) = static-Takes rp rp' t no_struct h
part_body-Guarded n rp rp' h (struct_of s) = with_schema-Takes rp rp' s h

-- The methods that read a variable's data and a struct compute what `read_static` and
-- `read_with_schema` do, which come back to themselves for what is held in a dynamic variable, a
-- struct or an array: however deep the values are nested, the limit on the calls is never met.
pub read_part-eq : (p : Part) (s : CarbonReader) → read_part p s ≡ part_body read_part p s
unfolding read_part
read_part-eq = read_recursively-eq part_body part_body-Guarded
