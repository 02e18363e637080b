-- ===== src/Carbon/Schemas/Reading.antt =====
-- The reading of a schema ends: the methods take a byte before they call one another.
use phantasma_py.Carbon.Codec.Recursion.{
  Guarded, Takes, Takes-bind, Takes-weaken, read_recursively-eq, Takes-pure, read1-Takes,
  Takes-bind_first, Takes-if, Takes-lift, read-Takes, read_length-Takes, read_recursively-shrinks,
}
use phantasma_py.Carbon.Reader.{CarbonReader, Read}
use phantasma_py.Carbon.Values.{read_small_string}
use phantasma_py.Prelude.{ℕ, ◌≡◌, arith, suc, zero}
use phantasma_py.Carbon.Schemas.{
  no_struct, no_schemas, read_variable_schema, read_variable_schema_with, read_vm_type,
  VmVariableSchema, variable_schema_body, read_named_variable_schema_with, read_schemas_with,
  read_struct_def_with, read_struct_schema_with, VmType, has_struct, vm_type, read_struct_schema,
}

module _ {n : ℕ} where
  pub read_small_string-Takes : Takes 1 n read_small_string read_small_string
  unfolding read_small_string
  read_small_string-Takes =
      Takes-bind _ _ read1-Takes
        λ k. Takes-bind _ _ (Takes-weaken 0 (omega arith) (read-Takes k)) λ raw. Takes-lift _

  pub read_vm_type-Takes : Takes 1 n read_vm_type read_vm_type
  unfolding read_vm_type
  read_vm_type-Takes = Takes-bind _ _ read1-Takes λ c. Takes-lift (vm_type c)

module _ {n : ℕ} {rs rs' : Read VmVariableSchema} (t : Takes 0 n rs rs') where
  named-Takes : Takes 1 n (read_named_variable_schema_with rs) (read_named_variable_schema_with rs')
  unfolding read_named_variable_schema_with
  named-Takes =
      Takes-bind _ _ read_small_string-Takes λ name. Takes-bind _ _ t λ schema. Takes-pure _

  schemas-Takes : (count : ℕ) → Takes 0 n (read_schemas_with rs count) (read_schemas_with rs' count)
  unfolding read_schemas_with
  schemas-Takes zero = Takes-pure no_schemas
  schemas-Takes (suc count) =
      Takes-weaken 0 (omega arith) (
        Takes-bind _ _ named-Takes
          λ item. Takes-bind _ _ (schemas-Takes count) λ rest. Takes-pure _)

  pub read_struct_schema_with-Takes :
      Takes 1 n (read_struct_schema_with rs) (read_struct_schema_with rs')
  unfolding read_struct_schema_with
  read_struct_schema_with-Takes = Takes-weaken 1 (omega arith) (
      Takes-bind _ _ read_length-Takes λ count.
        Takes-bind _ _ (schemas-Takes count)
          λ fields. Takes-bind _ _ read1-Takes λ flags. Takes-pure _)

  struct_def-Takes :
      (v : VmType) → Takes 0 n (read_struct_def_with rs v) (read_struct_def_with rs' v)
  unfolding read_struct_def_with
  struct_def-Takes v =
      Takes-if (has_struct v)
        (Takes-weaken 0 (omega arith)
          (Takes-bind _ _ read_struct_schema_with-Takes λ s. Takes-pure _))
        (Takes-pure no_struct)

variable_schema_body-Guarded : Guarded variable_schema_body
unfolding read_variable_schema_with
variable_schema_body-Guarded n rs rs' h _ = Takes-weaken 0 (omega arith) (
    Takes-bind_first _ _ read_vm_type-Takes (omega arith)
      λ m fewer v. Takes-bind _ _ (struct_def-Takes (h m fewer tt) v) λ d. Takes-pure _)

-- `read_variable_schema` computes what `VMVariableSchema.read_carbon` does, which reads a type, and
-- for a struct or an array of structs the struct's fields, each with the same method: however deep
-- the schemas are nested, the limit on the calls is never met.
pub read_variable_schema-eq :
    (s : CarbonReader) → read_variable_schema s ≡ read_variable_schema_with read_variable_schema s
unfolding read_variable_schema
read_variable_schema-eq = read_recursively-eq variable_schema_body variable_schema_body-Guarded tt

pub read_struct_schema-Takes : {n : ℕ} → Takes 1 n read_struct_schema read_struct_schema
unfolding read_struct_schema read_variable_schema
read_struct_schema-Takes =
    read_struct_schema_with-Takes
      (read_recursively-shrinks variable_schema_body variable_schema_body-Guarded tt)
