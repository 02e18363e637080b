-- ===== src/Carbon/Dynamic/RoundTrip.antt =====
-- A dynamic value reads back: a variable, a struct without a schema and a struct with one.
use phantasma_py.Bytes.{check_signed, check_unsigned, twos_complement}
use phantasma_py.Carbon.Dynamic.Lookup.{
  write_schema_field-found, splits-suc, fields_found-eq, length-fields_writers,
}
use phantasma_py.Carbon.Values.SmallStrings.{write_small_string_lem}
use phantasma_py.Carbon.Schemas.RoundTrip.{write_struct_schema_lem, write_vm_type_lem}
use phantasma_py.Carbon.Dynamic.Ending.{read_part-eq}
use phantasma_py.Carbon.Reader.{Read}
use phantasma_py.Carbon.Dynamic.Order.{field_writers-sort}
use phantasma_py.Carbon.Codec.Arrays.{Encodes-length}
use phantasma_py.Carbon.Writer.{
  write_each, write4, write4u, write_signed, write_unsigned, write_carbon_array, CarbonWriter,
  write,
}
use phantasma_py.Carbon.Dynamic.Leaves.{leaf_lem}
use phantasma_py.Carbon.Codec.{
  Encodes, Encodes-pure, Encodes-write, Encodes-weaken, Encodes-last, Encodes-bind_sum,
  Encodes-bind, Encodes-read,
}
use phantasma_py.Carbon.Dynamic.Shapes.{
  schemas_least, fields_length, structs_length, IsData, data_least, AreVariables, AreFields,
  IsPlainStruct, IsDistinct, Matches, Conforms, struct_least, item_least, AreItems,
}
use phantasma_py.Carbon.Dynamic.Writing.{
  fields_writers, write_static, variables_length, write_variables, field_writers, struct_writers,
  write_with_schema, write_struct_item, has_fields, write_schema_fields, field_writer,
}
use phantasma_py.Carbon.Dynamic.Reading.{
  read_schema_field_with, read_extras_with, read_schema_fields_with, read_with_schema_with,
  read_variables_with, read_fields_with, read_structs, read_part, read_static_with,
  read_variable_with, extend_fields, read_named_variables_with, read_struct_item_with, part_body,
  read_dynamic_struct_with, read_named_variable_with, struct_of, data_of,
}
use phantasma_py.Carbon.Dynamic.Fields.{
  write_extras, write_fields, FieldWriter, write_named_dynamic_variables, fields_found, has_extras,
  write_field, writer_name,
}
use phantasma_py.Prelude.{
  true, false, pos, ℕ, ◌≡◌, List, length, Bool-cases, inl, inr, ◌>>◌, ap, ◌==◌, arith, refl, suc,
  sym, if◌then◌else◌, pure, ◌∙◌, subst, ◌++◌, ◌∷◌, [], ◌>>=◌, lift, Bool, ◌≤◌, ◌+◌, ◌<◌, ◌^◌,
}
use phantasma_py.Carbon.Schemas.{
  no_struct, some_struct, variable_schema, named_schema, no_schemas, more_schemas, struct_schema,
  VmNamedVariableSchemas, schemas_length, VmStructDef, write_vm_type, VmStructSchema,
}
use phantasma_py.Carbon.Dynamic.{
  bytes_value, bytes16_value, bytes32_value, bytes64_value, array_bytes_value, array_bytes16_value,
  array_bytes32_value, array_bytes64_value, int8_value, int16_value, int32_value, int64_value,
  int256_value, array_int8_value, array_int16_value, array_int32_value, array_int64_value,
  array_int256_value, string_value, array_string_value, dynamic_value, array_dynamic_value,
  struct_value, array_struct_value, no_variables, more_variables, named_variable, no_fields,
  more_fields, dynamic_struct, no_structs, more_structs, struct_array, VmNamedDynamicVariables,
  sort, VmDynamicVariable, type_of, VmDynamicVariables, VmDynamicStruct, sort_by, VmDynamicStructs,
}

no_extras-write : (b : CarbonWriter) → write4u (pos 0) b ≡ (write4 (pos 0) >> pure tt) b
unfolding write4 write4u write_signed write_unsigned ◌>>◌ ◌>>=◌ pure lift write check_signed
    check_unsigned twos_complement
no_extras-write b = refl

same_number : (n : ℕ) → (n == n) ≡ true
same_number n = ground arith

-- With no extra fields, their number is written where the schema asks for it.
no_extras_lem :
    (expected : VmNamedVariableSchemas) (flags : ℕ) (fields : List FieldWriter)
    → fields_found expected fields ≡ schemas_length expected
    → length fields ≡ schemas_length expected
    → Encodes 0 (write_extras expected flags fields) (read_extras_with read_part flags) no_fields
unfolding write_extras read_extras_with read_named_variables_with read_fields_with
no_extras_lem expected flags fields all_found all_fields = elim (Bool-cases (has_extras flags)) [
  | inl extras ↦
      rw (extras, all_found, all_fields, same_number (schemas_length expected))
        (Encodes-write no_extras-write (
          Encodes-weaken 0 (omega arith) (
            Encodes-length 0 (read_fields_with read_part) (omega arith) (omega arith)
              (Encodes-pure no_fields))))
  | inr no_extras ↦ rw no_extras (Encodes-pure no_fields)
]

sorted_fields :
    (items : VmNamedDynamicVariables)
    → sort (dynamic_struct items) ≡ dynamic_struct items
    → write_fields (fields_writers items) ≡ write_named_dynamic_variables (fields_writers items)
unfolding write_fields
sorted_fields items sorted =
    let e : sort_by writer_name (field_writers (dynamic_struct items))
        ≡ field_writers (dynamic_struct items) =
      sym (field_writers-sort (dynamic_struct items)) ∙ ap field_writers sorted in
    ap write_named_dynamic_variables (unfold field_writers in e)

length-struct_writers : (xs : VmDynamicStructs) → length (struct_writers xs) ≡ structs_length xs
unfolding struct_writers structs_length
length-struct_writers no_structs = refl
length-struct_writers (more_structs x rest) = ap suc (length-struct_writers rest)

length-items :
    (items : VmNamedDynamicVariables) → length (fields_writers items) ≡ fields_length items
unfolding fields_writers fields_length
length-items no_fields = refl
length-items (more_fields x rest) = ap suc (length-items rest)

extend_fields-no_fields : (items : VmNamedDynamicVariables) → extend_fields items no_fields ≡ items
unfolding extend_fields
extend_fields-no_fields no_fields = refl
extend_fields-no_fields (more_fields x rest) =
    ap (λ xs. more_fields x xs) (extend_fields-no_fields rest)

read_struct_item_with-eq :
    (s : VmStructSchema)
    → read_struct_item_with read_part s ≡ (
        if has_fields s
        then read_with_schema_with read_part s
        else read_dynamic_struct_with read_part)
unfolding read_struct_item_with part_body
read_struct_item_with-eq s =
    ap
      (λ (r : Read VmDynamicStruct). if has_fields s then r else read_dynamic_struct_with read_part)
      (λ i reader. read_part-eq (struct_of s) reader i)

variable_lem :
    {k : ℕ} (v : VmDynamicVariable)
    → Encodes k (write_static v no_struct) (read_static_with read_part (type_of v) no_struct) v
    → Encodes 1
        (write_vm_type (type_of v) >> write_static v no_struct)
        (read_variable_with read_part)
        v
unfolding read_variable_with part_body
variable_lem v e =
    Encodes-bind (write_vm_type_lem (type_of v)) _
      (Encodes-read (read_part-eq (data_of (type_of v))) e)

module _ (items : VmNamedDynamicVariables)
    (sorted : sort (dynamic_struct items) ≡ dynamic_struct items)
    (few : fields_length items < 2 ^ 31)
    (e : Encodes
      (fields_length items)
      (write_each write_field (fields_writers items))
      (read_fields_with read_part (fields_length items))
      items) where
  named_variables_lem :
      Encodes 4
        (write_named_dynamic_variables (fields_writers items))
        (read_named_variables_with read_part)
        items
  unfolding write_named_dynamic_variables write_carbon_array read_named_variables_with
  named_variables_lem =
      rw (length-items items)
        (Encodes-length (fields_length items) (read_fields_with read_part) few (omega arith) e)

  sorted_struct_lem :
      Encodes 1
        (write_fields (fields_writers items))
        (read_dynamic_struct_with read_part)
        (dynamic_struct items)
  unfolding read_dynamic_struct_with
  sorted_struct_lem = rw (sorted_fields items sorted) (
      subst
        (λ (x : VmDynamicStruct).
          Encodes 1 (write_named_dynamic_variables (fields_writers items))
            (read_dynamic_struct_with read_part) x)
        sorted
        (Encodes-weaken {j = 4} 1 (omega arith)
          (Encodes-last named_variables_lem (λ x. sort (dynamic_struct x)))))

-- Behind the fields of a schema come no others.
schema_struct_lem :
    (expected : VmNamedVariableSchemas) (flags : ℕ) (items : VmNamedDynamicVariables)
    → IsDistinct (fields_writers items)
    → Matches expected items
    → Encodes
        (schemas_least expected)
        (write_schema_fields (fields_writers items) expected)
        (read_schema_fields_with read_part expected)
        items
    → Encodes
        (schemas_least expected)
        (write_with_schema (struct_schema expected flags) (fields_writers items))
        (read_with_schema_with read_part (struct_schema expected flags))
        (sort (dynamic_struct items))
unfolding write_with_schema read_with_schema_with
schema_struct_lem expected flags items distinct h e =
    subst
      (λ (x : VmDynamicStruct).
        Encodes (schemas_least expected)
          (write_with_schema (struct_schema expected flags) (fields_writers items))
          (read_with_schema_with read_part (struct_schema expected flags)) x)
      (ap (λ x. sort (dynamic_struct x)) (extend_fields-no_fields items))
      (Encodes-bind e _ (
        Encodes-last
          (no_extras_lem expected flags (fields_writers items)
            (fields_found-eq (fields_writers items) distinct [] expected items refl h)
            (length-fields_writers expected items h))
          (λ x. sort (dynamic_struct (extend_fields items x)))))

mutual
  unfolding variables_length write_static write_with_schema write_struct_item write_field
      read_static_with read_variable_with part_body data_least type_of read_dynamic_struct_with
      read_named_variables_with read_named_variable_with write_named_dynamic_variables
      write_carbon_array write_each read_schema_field_with read_schema_fields_with
      read_with_schema_with read_variables_with read_fields_with read_structs schemas_least
      fields_length structs_length

  pub data_lem :
      (v : VmDynamicVariable) (d : VmStructDef)
      → IsData v d
      → Encodes
          (data_least (type_of v) d)
          (write_static v d)
          (read_static_with read_part (type_of v) d)
          v
  data_lem (dynamic_value v) d h =
      Encodes-last (variable_lem v (data_lem v no_struct h)) dynamic_value
  data_lem (array_dynamic_value vs) d (hl, hv) = Encodes-weaken 1 (omega arith) (
      Encodes-length (variables_length vs) _ hl (omega arith)
        (Encodes-last (variables_lem vs hv) array_dynamic_value))
  data_lem (struct_value x) no_struct h = Encodes-last (plain_struct_lem x h) struct_value
  data_lem (struct_value x) (some_struct s) h = Encodes-last (conforming_lem s x h) struct_value
  data_lem (array_struct_value (struct_array schema xs)) no_struct (hl, hs, hb, hi) =
      rw (length-struct_writers xs) (
        Encodes-weaken 1 (omega arith) (
          Encodes-length {k = 4 + structs_length xs} (structs_length xs) _ hl (omega arith) (
            Encodes-bind_sum (write_struct_schema_lem schema hs) _ (
              Encodes-last
                (rw read_struct_item_with-eq (items_lem (has_fields schema) schema xs hb hi))
                (λ ys. array_struct_value (struct_array schema ys))))))
  data_lem (array_struct_value (struct_array schema xs)) (some_struct s) (hl, hs, hb, hi) =
      rw (length-struct_writers xs, hs)
        (Encodes-weaken 1 (omega arith) (
          Encodes-length (structs_length xs) _ hl (omega arith) (
            Encodes-last (items_lem true s xs hb hi)
              (λ ys. array_struct_value (struct_array s ys)))))
  data_lem (bytes_value x) d h = leaf_lem (bytes_value x) d h
  data_lem (bytes16_value x) d h = leaf_lem (bytes16_value x) d h
  data_lem (bytes32_value x) d h = leaf_lem (bytes32_value x) d h
  data_lem (bytes64_value x) d h = leaf_lem (bytes64_value x) d h
  data_lem (array_bytes_value x) d h = leaf_lem (array_bytes_value x) d h
  data_lem (array_bytes16_value x) d h = leaf_lem (array_bytes16_value x) d h
  data_lem (array_bytes32_value x) d h = leaf_lem (array_bytes32_value x) d h
  data_lem (array_bytes64_value x) d h = leaf_lem (array_bytes64_value x) d h
  data_lem (int8_value x) d h = leaf_lem (int8_value x) d h
  data_lem (int16_value x) d h = leaf_lem (int16_value x) d h
  data_lem (int32_value x) d h = leaf_lem (int32_value x) d h
  data_lem (int64_value x) d h = leaf_lem (int64_value x) d h
  data_lem (int256_value x) d h = leaf_lem (int256_value x) d h
  data_lem (array_int8_value x) d h = leaf_lem (array_int8_value x) d h
  data_lem (array_int16_value x) d h = leaf_lem (array_int16_value x) d h
  data_lem (array_int32_value x) d h = leaf_lem (array_int32_value x) d h
  data_lem (array_int64_value x) d h = leaf_lem (array_int64_value x) d h
  data_lem (array_int256_value x) d h = leaf_lem (array_int256_value x) d h
  data_lem (string_value x) d h = leaf_lem (string_value x) d h
  data_lem (array_string_value x) d h = leaf_lem (array_string_value x) d h

  variables_lem :
      (vs : VmDynamicVariables)
      → AreVariables vs
      → Encodes
          (variables_length vs)
          (write_variables vs)
          (read_variables_with read_part (variables_length vs))
          vs
  variables_lem no_variables h = Encodes-pure no_variables
  variables_lem (more_variables v rest) (hv, hr) =
      Encodes-weaken (suc (variables_length rest)) (omega arith) (
        Encodes-bind_sum (variable_lem v (data_lem v no_struct hv)) _
          (Encodes-last (variables_lem rest hr) (λ vs. more_variables v vs)))

  fields_lem :
      (fields : VmNamedDynamicVariables)
      → AreFields fields
      → Encodes
          (fields_length fields)
          (write_each write_field (fields_writers fields))
          (read_fields_with read_part (fields_length fields))
          fields
  fields_lem no_fields h = Encodes-pure no_fields
  fields_lem (more_fields (named_variable name v) rest) (hn, hv, hr) =
      Encodes-weaken (suc (fields_length rest)) (omega arith) (
        Encodes-bind_sum
          (Encodes-bind (write_small_string_lem name hn) _
            (Encodes-last (variable_lem v (data_lem v no_struct hv)) (λ x. named_variable name x)))
          _
          (Encodes-last (fields_lem rest hr) (λ items. more_fields (named_variable name v) items)))

  pub plain_struct_lem :
      (x : VmDynamicStruct)
      → IsPlainStruct x
      → Encodes 1 (write_fields (field_writers x)) (read_dynamic_struct_with read_part) x
  plain_struct_lem (dynamic_struct items) (sorted, hl, hf) =
      sorted_struct_lem items sorted hl (fields_lem items hf)

  schema_fields_lem :
      (fields before : List FieldWriter) (expected : VmNamedVariableSchemas)
      (items : VmNamedDynamicVariables)
      → IsDistinct fields
      → fields ≡ before ++ fields_writers items
      → Matches expected items
      → Encodes
          (schemas_least expected)
          (write_schema_fields fields expected)
          (read_schema_fields_with read_part expected)
          items
  schema_fields_lem fields before no_schemas no_fields distinct e h = Encodes-pure no_fields
  schema_fields_lem fields before no_schemas (more_fields x items) distinct e h = absurd h
  schema_fields_lem fields before (more_schemas x expected) no_fields distinct e h = absurd h
  schema_fields_lem fields before (more_schemas (named_schema name (variable_schema t d)) expected)
        (more_fields (named_variable name' v) items) distinct e (en, et, hv, hs) =
      Encodes-bind_sum
        (rw
          (
            en,
            write_schema_field-found fields distinct before name' v (fields_writers items) e t d et,
          )
          (Encodes-last
            (subst
              (λ u. Encodes (data_least u d) (write_static v d) (read_static_with read_part u d) v)
              et (data_lem v d hv))
            (λ x. named_variable name' x)))
        _
        (Encodes-last
          (schema_fields_lem fields (before ++ field_writer (named_variable name' v) ∷ []) expected
            items distinct (splits-suc fields before _ (fields_writers items) e) hs)
          (λ x. more_fields (named_variable name' v) x))

  pub conforming_lem :
      (s : VmStructSchema) (x : VmDynamicStruct)
      → Conforms s x
      → Encodes
          (struct_least s)
          (write_with_schema s (field_writers x))
          (read_with_schema_with read_part s)
          x
  conforming_lem (struct_schema expected flags) (dynamic_struct items) (sorted, distinct, h) =
      subst
        (λ (x : VmDynamicStruct).
          Encodes (schemas_least expected)
            (write_with_schema (struct_schema expected flags) (fields_writers items))
            (read_with_schema_with read_part (struct_schema expected flags)) x)
        sorted
        (schema_struct_lem expected flags items distinct h
          (schema_fields_lem (fields_writers items) [] expected items distinct refl h))

  items_lem :
      (b : Bool) (s : VmStructSchema) (xs : VmDynamicStructs)
      → 1 ≤ item_least b s
      → AreItems b s xs
      → Encodes
          (structs_length xs)
          (write_each
            (λ fields. if b then write_with_schema s fields else write_fields fields)
            (struct_writers xs))
          (read_structs
            (if b then read_with_schema_with read_part s else read_dynamic_struct_with read_part)
            (structs_length xs))
          xs
  items_lem b s no_structs hb h = Encodes-pure no_structs
  items_lem true s (more_structs x rest) hb (hx, hr) =
      Encodes-weaken (suc (structs_length rest)) (omega arith) (
        Encodes-bind_sum (conforming_lem s x hx) _
          (Encodes-last (items_lem true s rest hb hr) (λ xs. more_structs x xs)))
  items_lem false s (more_structs x rest) hb (hx, hr) =
      Encodes-weaken (suc (structs_length rest)) (omega arith) (
        Encodes-bind_sum (plain_struct_lem x hx) _
          (Encodes-last (items_lem false s rest hb hr) (λ xs. more_structs x xs)))

pub write_dynamic_variable_lem :
    (v : VmDynamicVariable)
    → IsData v no_struct
    → Encodes 1
        (write_vm_type (type_of v) >> write_static v no_struct)
        (read_variable_with read_part)
        v
write_dynamic_variable_lem v h = variable_lem v (data_lem v no_struct h)

-- The fields are held in the schema's order, and read back sorted.
pub matching_lem :
    (expected : VmNamedVariableSchemas) (flags : ℕ) (items : VmNamedDynamicVariables)
    → IsDistinct (fields_writers items)
    → Matches expected items
    → Encodes
        (schemas_least expected)
        (write_with_schema (struct_schema expected flags) (fields_writers items))
        (read_with_schema_with read_part (struct_schema expected flags))
        (sort (dynamic_struct items))
matching_lem expected flags items distinct h =
    schema_struct_lem expected flags items distinct h
      (schema_fields_lem (fields_writers items) [] expected items distinct refl h)
