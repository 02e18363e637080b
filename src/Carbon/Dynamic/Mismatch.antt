-- ===== src/Carbon/Dynamic/Mismatch.antt =====
-- A field that a struct does not have, or has with another type than the schema's, is written
-- without an error, as the default of the schema's type.
use phantasma_py.Carbon.Dynamic.RoundTrip.{data_lem}
use phantasma_py.Carbon.Dynamic.Shapes.{IsData, data_least}
use phantasma_py.Carbon.Codec.{Encodes, Encodes-write, Encodes-last}
use phantasma_py.Carbon.Values.{SmallString}
use phantasma_py.Carbon.Dynamic.Writing.{variables_length, write_schema_field, write_static}
use phantasma_py.Carbon.Dynamic.Fields.{FieldWriter, get, same_type}
use phantasma_py.Carbon.Dynamic.Defaults.{default_vm_value, write_schema_field-mismatch}
use phantasma_py.Carbon.Dynamic.Reading.{read_schema_field_with, read_part, read_static_with}
use phantasma_py.Carbon.Schemas.{
  dynamic, array_dynamic, struct, array_struct, bytes, array_bytes, int8, array_int8, int16,
  array_int16, int32, array_int32, int64, array_int64, int256, array_int256, bytes16, array_bytes16,
  bytes32, array_bytes32, bytes64, array_bytes64, string, array_string, named_schema,
  variable_schema, VmType, has_struct, VmStructDef,
}
use phantasma_py.Carbon.Dynamic.{named_variable, type_of}
use phantasma_py.Prelude.{none, some, ◌⊎◌, false, List, ◌≡◌, refl, arith, subst}

type_of-default_vm_value : (t : VmType) → type_of (default_vm_value t) ≡ t
unfolding type_of default_vm_value
type_of-default_vm_value dynamic = refl
type_of-default_vm_value array_dynamic = refl
type_of-default_vm_value bytes = refl
type_of-default_vm_value array_bytes = refl
type_of-default_vm_value struct = refl
type_of-default_vm_value array_struct = refl
type_of-default_vm_value int8 = refl
type_of-default_vm_value array_int8 = refl
type_of-default_vm_value int16 = refl
type_of-default_vm_value array_int16 = refl
type_of-default_vm_value int32 = refl
type_of-default_vm_value array_int32 = refl
type_of-default_vm_value int64 = refl
type_of-default_vm_value array_int64 = refl
type_of-default_vm_value int256 = refl
type_of-default_vm_value array_int256 = refl
type_of-default_vm_value bytes16 = refl
type_of-default_vm_value array_bytes16 = refl
type_of-default_vm_value bytes32 = refl
type_of-default_vm_value array_bytes32 = refl
type_of-default_vm_value bytes64 = refl
type_of-default_vm_value array_bytes64 = refl
type_of-default_vm_value string = refl
type_of-default_vm_value array_string = refl

-- The default of a type that has no struct fits the type.
default_vm_value-IsData :
    (t : VmType) (d : VmStructDef) → has_struct t ≡ false → IsData (default_vm_value t) d
unfolding has_struct default_vm_value variables_length
default_vm_value-IsData dynamic d h = (omega arith, tt)
default_vm_value-IsData array_dynamic d h = (omega arith, tt)
default_vm_value-IsData bytes d h = omega arith
default_vm_value-IsData array_bytes d h = (omega arith, tt)
default_vm_value-IsData struct d h = absurd cc
default_vm_value-IsData array_struct d h = absurd cc
default_vm_value-IsData int8 d h = omega arith
default_vm_value-IsData array_int8 d h = (omega arith, tt)
default_vm_value-IsData int16 d h = omega arith
default_vm_value-IsData array_int16 d h = (omega arith, tt)
default_vm_value-IsData int32 d h = omega arith
default_vm_value-IsData array_int32 d h = (omega arith, tt)
default_vm_value-IsData int64 d h = omega arith
default_vm_value-IsData array_int64 d h = (omega arith, tt)
default_vm_value-IsData int256 d h = omega arith
default_vm_value-IsData array_int256 d h = (omega arith, tt)
default_vm_value-IsData bytes16 d h = refl
default_vm_value-IsData array_bytes16 d h = (omega arith, tt)
default_vm_value-IsData bytes32 d h = refl
default_vm_value-IsData array_bytes32 d h = (omega arith, tt)
default_vm_value-IsData bytes64 d h = refl
default_vm_value-IsData array_bytes64 d h = (omega arith, tt)
default_vm_value-IsData string d h = (tt, refl)
default_vm_value-IsData array_string d h = (omega arith, tt)

default_lem :
    (t : VmType) (d : VmStructDef)
    → has_struct t ≡ false
    → Encodes
        (data_least t d)
        (write_static (default_vm_value t) d)
        (read_static_with read_part t d)
        (default_vm_value t)
default_lem t d h =
    subst
      (λ u.
        Encodes (data_least u d) (write_static (default_vm_value t) d)
          (read_static_with read_part u d) (default_vm_value t))
      (type_of-default_vm_value t) (data_lem (default_vm_value t) d (default_vm_value-IsData t d h))

-- The struct has no field of the name, or one of another type.
abbrev pub IsMismatch : List FieldWriter → SmallString → VmType → Type 0
IsMismatch fields name t =
    (get name.value fields ≡ none)
    ⊎ ((f : FieldWriter) × (get name.value fields ≡ some f) × (same_type f.kind t ≡ false))

pub mismatch_lem :
    (fields : List FieldWriter) (name : SmallString) (t : VmType) (d : VmStructDef)
    → has_struct t ≡ false
    → IsMismatch fields name t
    → Encodes
        (data_least t d)
        (write_schema_field fields (named_schema name (variable_schema t d)))
        (read_schema_field_with read_part (named_schema name (variable_schema t d)))
        (named_variable name (default_vm_value t))
unfolding read_schema_field_with
mismatch_lem fields name t d leaf h =
    Encodes-write (write_schema_field-mismatch fields name t d h)
      (Encodes-last (default_lem t d leaf) (λ v. named_variable name v))
