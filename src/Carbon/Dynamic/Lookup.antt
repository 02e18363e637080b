-- ===== src/Carbon/Dynamic/Lookup.antt =====
-- `write_with_schema` finds the fields of a struct that has those of the schema.
use phantasma_py.Text.Sorting.{same_text_refl, same_text, eq_of_same_text}
use phantasma_py.Carbon.Values.{SmallString}
use phantasma_py.Carbon.Dynamic.Shapes.{IsDistinct, Matches}
use phantasma_py.Carbon.Dynamic.Writing.{
  fields_writers, field_writer, write_schema_field, write_static,
}
use phantasma_py.Carbon.Dynamic.Fields.{get, FieldWriter, fields_found, write_found, same_type}
use phantasma_py.Prelude.{
  some, List, ◌≡◌, ◌++◌, ◌∷◌, [], length, refl, Bool-cases, ap, ◌∙◌, suc, sym, append_assoc, inl,
  inr, arith,
}
use phantasma_py.Carbon.Schemas.{
  variable_schema, named_schema, no_schemas, more_schemas, schemas_length, VmNamedVariableSchemas,
  VmType, VmStructDef,
}
use phantasma_py.Carbon.Dynamic.{
  named_variable, no_fields, more_fields, VmNamedDynamicVariables, VmDynamicVariable, type_of,
}

-- A field of distinct ones is the one that `get` finds.
get-append :
    (before : List FieldWriter) (f : FieldWriter) (rest : List FieldWriter)
    → IsDistinct (before ++ f ∷ rest)
    → get f.name.value (before ++ f ∷ rest) ≡ some f
unfolding get
get-append [] f rest h = rw (same_text_refl f.name.value)
get-append (g ∷ before) f rest (h, hs) = elim (Bool-cases (same_text g.name.value f.name.value)) [
  | inl same_name ↦
      let e : g.name.value ≡ f.name.value = eq_of_same_text _ _ same_name in
      let missing = rw e at h in absurd (let present = get-append before f rest hs in cc)
  | inr other ↦ rw other (get-append before f rest hs)
]

field_writer-eq :
    (name : SmallString) (v : VmDynamicVariable)
    → field_writer (named_variable name v)
      ≡ record { name = name; kind = type_of v; write_data = write_static v }
unfolding field_writer
field_writer-eq name v = refl

module _ (fields : List FieldWriter) (distinct : IsDistinct fields) (before : List FieldWriter)
    (name : SmallString) (v : VmDynamicVariable) (rest : List FieldWriter)
    (splits : fields ≡ before ++ field_writer (named_variable name v) ∷ rest) where
  pub get-field : get name.value fields ≡ some (field_writer (named_variable name v))
  get-field = rw splits (
      ap
        (λ (f : FieldWriter).
          get f.name.value (before ++ field_writer (named_variable name v) ∷ rest))
        (sym (field_writer-eq name v))
      ∙ get-append before (field_writer (named_variable name v)) rest (rw splits at distinct))

  pub write_schema_field-found :
      (t : VmType) (d : VmStructDef)
      → type_of v ≡ t
      → write_schema_field fields (named_schema name (variable_schema t d)) ≡ write_static v d
  unfolding write_schema_field
  write_schema_field-found t d e =
      rw get-field (rw field_writer-eq (unfold write_found same_type in rw e (ground arith)))

pub splits-suc :
    (fields before : List FieldWriter) (f : FieldWriter) (rest : List FieldWriter)
    → fields ≡ before ++ f ∷ rest
    → fields ≡ (before ++ f ∷ []) ++ rest
splits-suc fields before f rest e = e ∙ sym (append_assoc before (f ∷ []) rest)

module _ (fields : List FieldWriter) (distinct : IsDistinct fields) where
  pub fields_found-eq :
      (before : List FieldWriter) (expected : VmNamedVariableSchemas)
      (items : VmNamedDynamicVariables)
      → fields ≡ before ++ fields_writers items
      → Matches expected items
      → fields_found expected fields ≡ schemas_length expected
  unfolding fields_found schemas_length fields_writers
  fields_found-eq before no_schemas no_fields e h = refl
  fields_found-eq before no_schemas (more_fields x items) e h = absurd h
  fields_found-eq before (more_schemas x expected) no_fields e h = absurd h
  fields_found-eq before (more_schemas (named_schema name (variable_schema t d)) expected)
        (more_fields (named_variable name' v) items) e (en, et, hv, hs) =
      let step : get name.value fields ≡ some (field_writer (named_variable name' v)) =
        rw en (get-field fields distinct before name' v (fields_writers items) e) in
      rw step (
        omega (
          arith,
          fields_found-eq (before ++ field_writer (named_variable name' v) ∷ []) expected items
              (splits-suc fields before (field_writer (named_variable name' v))
                (fields_writers items) e)
              hs,
        ))

pub length-fields_writers :
    (expected : VmNamedVariableSchemas) (items : VmNamedDynamicVariables)
    → Matches expected items
    → length (fields_writers items) ≡ schemas_length expected
unfolding fields_writers schemas_length
length-fields_writers no_schemas no_fields h = refl
length-fields_writers no_schemas (more_fields x items) h = absurd h
length-fields_writers (more_schemas x expected) no_fields h = absurd h
length-fields_writers (more_schemas (named_schema name (variable_schema t d)) expected)
      (more_fields (named_variable name' v) items) (en, et, hv, hs) =
    ap suc (length-fields_writers expected items hs)
