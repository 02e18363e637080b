-- ===== src/Carbon/Schemas/RoundTrip.antt =====
-- A schema reads back.
use phantasma_py.Carbon.Codec.Arrays.{Encodes-length}
use phantasma_py.Carbon.Schemas.Reading.{read_variable_schema-eq}
use phantasma_py.Carbon.Values.SmallStrings.{IsSmallString, write_small_string_lem}
use phantasma_py.Carbon.Codec.Numbers.{write1_lem}
use phantasma_py.Carbon.Codec.{
  Encodes, Encodes-lift, Encodes-read, Encodes-bind, Encodes-last, Encodes-weaken, Encodes-pure,
  Encodes-bind_sum,
}
use phantasma_py.Prelude.{
  true, false, Bool, ◌<◌, ◌≡◌, ok, refl, arith, ◌^◌, if◌then◌else◌, pure, ◌>>=◌, suc, ltb→lt,
  guard-eq-ok, ltb, Error,
}
use phantasma_py.Carbon.Schemas.{
  dynamic, array_dynamic, bytes, array_bytes, struct, array_struct, int8, array_int8, int16,
  array_int16, int32, array_int32, int64, array_int64, int256, array_int256, bytes16, array_bytes16,
  bytes32, array_bytes32, bytes64, array_bytes64, string, array_string, no_struct, some_struct,
  variable_schema, named_schema, no_schemas, more_schemas, struct_schema, VmVariableSchema,
  read_struct_schema, vm_type, vm_type_value, write_variable_schema, write_vm_type, VmStructSchema,
  VmType, has_struct, read_variable_schema_with, read_vm_type, read_struct_def_with, VmStructDef,
  read_named_variable_schema_with, write_struct_schema, VmNamedVariableSchema, read_schemas_with,
  read_struct_schema_with, VmNamedVariableSchemas, schemas_length, read_variable_schema,
  write_struct_def, write_named_variable_schema, write_schemas, TokenSchemas, write_token_schemas,
  read_token_schemas_value,
}

vm_type-vm_type_value : (t : VmType) → vm_type (vm_type_value t) ≡ ok t
unfolding vm_type vm_type_value
vm_type-vm_type_value dynamic = refl
vm_type-vm_type_value array_dynamic = refl
vm_type-vm_type_value bytes = refl
vm_type-vm_type_value array_bytes = refl
vm_type-vm_type_value struct = refl
vm_type-vm_type_value array_struct = refl
vm_type-vm_type_value int8 = refl
vm_type-vm_type_value array_int8 = refl
vm_type-vm_type_value int16 = refl
vm_type-vm_type_value array_int16 = refl
vm_type-vm_type_value int32 = refl
vm_type-vm_type_value array_int32 = refl
vm_type-vm_type_value int64 = refl
vm_type-vm_type_value array_int64 = refl
vm_type-vm_type_value int256 = refl
vm_type-vm_type_value array_int256 = refl
vm_type-vm_type_value bytes16 = refl
vm_type-vm_type_value array_bytes16 = refl
vm_type-vm_type_value bytes32 = refl
vm_type-vm_type_value array_bytes32 = refl
vm_type-vm_type_value bytes64 = refl
vm_type-vm_type_value array_bytes64 = refl
vm_type-vm_type_value string = refl
vm_type-vm_type_value array_string = refl

vm_type_value-lt : (t : VmType) → vm_type_value t < 24
unfolding vm_type
vm_type_value-lt t =
    ltb→lt _ _ (guard-eq-ok (ltb (vm_type_value t) 24) Error.value (vm_type-vm_type_value t)).0

pub write_vm_type_lem : (t : VmType) → Encodes 1 (write_vm_type t) read_vm_type t
unfolding write_vm_type read_vm_type
write_vm_type_lem t =
    Encodes-lift (write1_lem (vm_type_value t) (omega (arith, vm_type_value-lt t))) vm_type
      (vm_type-vm_type_value t)

-- A struct or an array of structs has a struct, and no other type has one; the names are those
-- that a `SmallString` admits, and the numbers fit.
abbrev mutual
  pub IsVariableSchema : VmVariableSchema → Type 0
  IsVariableSchema (variable_schema t d) = IsStructDef (has_struct t) d

  pub IsStructDef : Bool → VmStructDef → Type 0
  IsStructDef true (some_struct s) = IsStructSchema s
  IsStructDef false no_struct = Unit
  IsStructDef true no_struct = ⊥
  IsStructDef false (some_struct s) = ⊥

  pub IsNamedVariableSchema : VmNamedVariableSchema → Type 0
  IsNamedVariableSchema (named_schema name schema) = IsSmallString name × IsVariableSchema schema

  pub AreSchemas : VmNamedVariableSchemas → Type 0
  AreSchemas no_schemas = Unit
  AreSchemas (more_schemas item rest) = IsNamedVariableSchema item × AreSchemas rest

  pub IsStructSchema : VmStructSchema → Type 0
  IsStructSchema (struct_schema fields flags) =
      (schemas_length fields < 2 ^ 31) × AreSchemas fields × (flags < 256)

mutual
  unfolding write_variable_schema read_variable_schema_with read_struct_def_with
      read_named_variable_schema_with read_schemas_with read_struct_schema_with schemas_length

  pub write_variable_schema_lem :
      (v : VmVariableSchema)
      → IsVariableSchema v
      → Encodes 1 (write_variable_schema v) read_variable_schema v
  write_variable_schema_lem (variable_schema t d) h =
      Encodes-read read_variable_schema-eq
        (Encodes-bind (write_vm_type_lem t) _ (Encodes-last (struct_def_lem (has_struct t) d h) _))

  struct_def_lem :
      (b : Bool) (d : VmStructDef)
      → IsStructDef b d
      → Encodes 0
          (if b then write_struct_def d else pure tt)
          (if b
            then (do s ← read_struct_schema_with read_variable_schema; pure (some_struct s))
            else pure no_struct)
          d
  struct_def_lem true (some_struct s) h =
      Encodes-weaken 0 (omega arith) (Encodes-last (struct_schema_lem s h) some_struct)
  struct_def_lem false no_struct h = Encodes-pure no_struct
  struct_def_lem true no_struct h = absurd h
  struct_def_lem false (some_struct s) h = absurd h

  named_lem :
      (v : VmNamedVariableSchema)
      → IsNamedVariableSchema v
      → Encodes 1
          (write_named_variable_schema v)
          (read_named_variable_schema_with read_variable_schema)
          v
  named_lem (named_schema name schema) (hn, hs) =
      Encodes-bind (write_small_string_lem name hn) _
        (Encodes-last (write_variable_schema_lem schema hs) (λ x. named_schema name x))

  schemas_lem :
      (fields : VmNamedVariableSchemas)
      → AreSchemas fields
      → Encodes
          (schemas_length fields)
          (write_schemas fields)
          (read_schemas_with read_variable_schema (schemas_length fields))
          fields
  schemas_lem no_schemas h = Encodes-pure no_schemas
  schemas_lem (more_schemas item rest) (hi, hr) =
      Encodes-weaken (suc (schemas_length rest)) (omega arith) (
        Encodes-bind_sum (named_lem item hi) _
          (Encodes-last (schemas_lem rest hr) (λ x. more_schemas item x)))

  struct_schema_lem :
      (s : VmStructSchema)
      → IsStructSchema s
      → Encodes 4 (write_struct_schema s) (read_struct_schema_with read_variable_schema) s
  struct_schema_lem (struct_schema fields flags) (hl, hf, hb) =
      Encodes-length (schemas_length fields) _ hl (omega arith) (
        Encodes-bind (schemas_lem fields hf) _
          (Encodes-last (write1_lem flags hb) (λ x. struct_schema fields x)))

pub write_struct_schema_lem :
    (s : VmStructSchema) → IsStructSchema s → Encodes 4 (write_struct_schema s) read_struct_schema s
unfolding read_struct_schema
write_struct_schema_lem = struct_schema_lem

pub record AreTokenSchemas (s : TokenSchemas) : Type 0 where
  pub series_metadata : IsStructSchema s.series_metadata
  pub rom : IsStructSchema s.rom
  pub ram : IsStructSchema s.ram

pub write_token_schemas_lem :
    (s : TokenSchemas)
    → AreTokenSchemas s
    → Encodes 4 (write_token_schemas s) read_token_schemas_value s
unfolding write_token_schemas read_token_schemas_value
write_token_schemas_lem s h =
    Encodes-bind (write_struct_schema_lem s.series_metadata h.series_metadata) _ (
      Encodes-bind (write_struct_schema_lem s.rom h.rom) _
        (Encodes-last (write_struct_schema_lem s.ram h.ram) _))
