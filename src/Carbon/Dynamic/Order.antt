-- ===== src/Carbon/Dynamic/Order.antt =====
-- A struct is written with its fields in the order of their names, or of a schema, whatever order
-- they are held in.
use phantasma_py.Carbon.Schemas.{
  no_schemas, VmNamedVariableSchemas, more_schemas, named_schema, schemas_length, struct_schema,
  variable_schema,
}
use phantasma_py.Text.{Text}
use phantasma_py.Text.Sorting.{
  sort_by, sort_by-sort_by, map-sort_by, insert_by, length-sort_by, text_before, same_text,
  eq_of_same_text, text_before-different,
}
use phantasma_py.Prelude.{
  List, ◌≡◌, ap, map, ◌∷◌, [], refl, ◌∙◌, sym, length, Bool-cases, ℕ, inr, inl, ◌==◌, true, ==_iff,
  false,
}
use phantasma_py.Carbon.Dynamic.Fields.{
  write_fields, writer_name, write_named_dynamic_variables, FieldWriter, fields_found, get,
  write_extras, schema_name,
}
use phantasma_py.Carbon.Dynamic.Writing.{
  field_writer, fields_writers, write_dynamic_struct, field_writers, write_schema_fields,
  write_with_schema, write_schema_field,
}
use phantasma_py.Carbon.Dynamic.{
  no_fields, more_fields, named_variable, dynamic_struct, fields_list, sort, VmDynamicStruct,
  VmNamedDynamicVariable, VmNamedDynamicVariables, fields_of_list, field_name,
}

fields_list-fields_of_list :
    (items : List VmNamedDynamicVariable) → fields_list (fields_of_list items) ≡ items
unfolding fields_list fields_of_list
fields_list-fields_of_list [] = refl
fields_list-fields_of_list (item ∷ rest) = ap (λ l. item ∷ l) (fields_list-fields_of_list rest)

-- Sorting a struct twice is sorting it once.
pub sort-sort : (x : VmDynamicStruct) → sort (sort x) ≡ sort x
unfolding sort
sort-sort (dynamic_struct fields) =
    rw (fields_list-fields_of_list, sort_by-sort_by field_name (fields_list fields))

fields_writers-eq :
    (fields : VmNamedDynamicVariables)
    → fields_writers fields ≡ map field_writer (fields_list fields)
unfolding fields_writers fields_list
fields_writers-eq no_fields = refl
fields_writers-eq (more_fields item rest) = ap (λ l. field_writer item ∷ l) (fields_writers-eq rest)

writer_name-field_writer :
    (item : VmNamedDynamicVariable) → field_name item ≡ writer_name (field_writer item)
unfolding field_writer
writer_name-field_writer (named_variable name v) = refl

-- Sorting the fields of a struct sorts what they write.
pub field_writers-sort :
    (x : VmDynamicStruct) → field_writers (sort x) ≡ sort_by writer_name (field_writers x)
unfolding sort field_writers
field_writers-sort (dynamic_struct fields) =
    fields_writers-eq (fields_of_list (sort_by field_name (fields_list fields)))
    ∙ ap (map field_writer) (fields_list-fields_of_list (sort_by field_name (fields_list fields)))
    ∙ ap
        (λ (key : VmNamedDynamicVariable → Text).
          map field_writer (sort_by key (fields_list fields)))
        (λ i item. writer_name-field_writer item i)
    ∙ map-sort_by writer_name field_writer (fields_list fields)
    ∙ ap (sort_by writer_name) (sym (fields_writers-eq fields))

-- `VMDynamicStruct.write_carbon` sorts the fields and then writes them: a struct and the struct that
-- `_sort` makes of it are written alike.
pub write_dynamic_struct-sort :
    (x : VmDynamicStruct) → write_dynamic_struct (sort x) ≡ write_dynamic_struct x
unfolding write_dynamic_struct write_fields
write_dynamic_struct-sort x = ap write_named_dynamic_variables (
    ap (sort_by writer_name) (field_writers-sort x) ∙ sort_by-sort_by writer_name (field_writers x))

module _ (name : Text) where
  get-insert_by :
      (f : FieldWriter) (fields : List FieldWriter)
      → get name (insert_by writer_name f fields) ≡ get name (f ∷ fields)
  unfolding insert_by get
  get-insert_by f [] = refl
  get-insert_by f (g ∷ fields) = elim (Bool-cases (text_before (writer_name g) (writer_name f))) [
    | inr behind ↦ rw behind
    | inl before ↦
        rw (before, get-insert_by f fields)
          (elim (Bool-cases (same_text (writer_name g) name)) [
            | inr other ↦ rw other
            | inl same ↦
                let e : writer_name g ≡ name = eq_of_same_text _ _ same in
                let different : same_text (writer_name f) name ≡ false =
                  elim (Bool-cases (same_text (writer_name f) name)) [
                    | inl same' ↦
                        let e' : writer_name f ≡ name = eq_of_same_text _ _ same' in
                        let no : same_text (writer_name g) (writer_name f) ≡ false =
                          text_before-different _ _ before in
                        let yes : same_text (writer_name g) (writer_name f) ≡ true = rw e' same in
                        absurd cc
                    | inr other ↦ other
                  ] in
                rw (same, different)
          ])
  ]

  get-cons :
      (f : FieldWriter) (fields fields' : List FieldWriter)
      → get name fields ≡ get name fields'
      → get name (f ∷ fields) ≡ get name (f ∷ fields')
  unfolding get
  get-cons f fields fields' h = rw h

  -- A field is found under its name wherever it stands: the sort keeps the first of a name first.
  get-sort_by :
      (fields : List FieldWriter) → get name (sort_by writer_name fields) ≡ get name fields
  unfolding sort_by
  get-sort_by [] = refl
  get-sort_by (f ∷ fields) =
      get-insert_by f (sort_by writer_name fields)
      ∙ get-cons f (sort_by writer_name fields) fields (get-sort_by fields)

-- Structs with one sorted form have the same fields under each name, and as many.
module _ (x y : VmDynamicStruct) (alike : sort y ≡ sort x) where
  sorted_writers : sort_by writer_name (field_writers y) ≡ sort_by writer_name (field_writers x)
  sorted_writers = sym (field_writers-sort y) ∙ ap field_writers alike ∙ field_writers-sort x

  same_fields : (name : Text) → get name (field_writers y) ≡ get name (field_writers x)
  same_fields name =
      sym (get-sort_by name (field_writers y))
      ∙ ap (get name) sorted_writers
      ∙ get-sort_by name (field_writers x)

  same_length : length (field_writers y) ≡ length (field_writers x)
  same_length =
      sym (length-sort_by writer_name (field_writers y))
      ∙ ap length sorted_writers
      ∙ length-sort_by writer_name (field_writers x)

  pub write_dynamic_struct-alike : write_dynamic_struct y ≡ write_dynamic_struct x
  write_dynamic_struct-alike =
      sym (write_dynamic_struct-sort y)
      ∙ ap write_dynamic_struct alike
      ∙ write_dynamic_struct-sort x

  write_schema_fields-alike :
      (expected : VmNamedVariableSchemas)
      → write_schema_fields (field_writers y) expected
        ≡ write_schema_fields (field_writers x) expected
  unfolding write_schema_fields write_schema_field
  write_schema_fields-alike no_schemas = refl
  write_schema_fields-alike (more_schemas (named_schema name (variable_schema t d)) rest) =
      rw (same_fields name.value, write_schema_fields-alike rest)

  fields_found-alike :
      (expected : VmNamedVariableSchemas)
      → fields_found expected (field_writers y) ≡ fields_found expected (field_writers x)
  unfolding fields_found
  fields_found-alike no_schemas = refl
  fields_found-alike (more_schemas item rest) =
      rw (same_fields (schema_name item), fields_found-alike rest)

  -- A struct that has the fields of a schema and no others is written alike whatever order it
  -- holds them in.
  pub write_with_schema-alike :
      (expected : VmNamedVariableSchemas) (flags : ℕ)
      → fields_found expected (field_writers x) ≡ schemas_length expected
      → length (field_writers x) ≡ schemas_length expected
      → write_with_schema (struct_schema expected flags) (field_writers y)
        ≡ write_with_schema (struct_schema expected flags) (field_writers x)
  unfolding write_with_schema write_extras
  write_with_schema-alike expected flags all_found all_fields =
      let same_number : (schemas_length expected == schemas_length expected) ≡ true =
        (==_iff _ _).1 refl in
      rw (
        write_schema_fields-alike expected,
        fields_found-alike expected,
        same_length,
        all_found,
        all_fields,
        same_number,
      )
