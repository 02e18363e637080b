-- ===== src/Carbon/Dynamic.antt =====
-- `VMDynamicVariable`, `VMNamedDynamicVariable`, `VMDynamicStruct` and `VMStructArray` of carbon.py,
-- which hold one another; their methods are in the modules below. A variable's data is of the kind
-- that its type calls for, so the type is the constructor's. The methods that return whether what
-- was written matches the schema return true on every path; here they return nothing.
pub mod Fields
pub mod Writing
pub mod Reading
pub mod Ending
pub mod Shapes
pub mod Defaults
pub mod Leaves
pub mod Lookup
pub mod RoundTrip
pub mod Mismatch
pub mod Order
use phantasma_py.Text.Sorting.{sort_by}
use phantasma_py.Carbon.Values.{SmallString}
use phantasma_py.Text.{Text}
use phantasma_py.Bytes.{Bytes}
use phantasma_py.Carbon.Schemas.{
  dynamic, array_dynamic, struct, array_struct, bytes, array_bytes, int8, array_int8, int16,
  array_int16, int32, array_int32, int64, array_int64, int256, array_int256, bytes16, array_bytes16,
  bytes32, array_bytes32, bytes64, array_bytes64, string, array_string, VmStructSchema, VmType,
}
use phantasma_py.Prelude.{List, [], ℤ, ◌∷◌}

mutual
  pub data VmDynamicVariable : Type 0 where
    dynamic_value : VmDynamicVariable → VmDynamicVariable
    array_dynamic_value : VmDynamicVariables → VmDynamicVariable
    struct_value : VmDynamicStruct → VmDynamicVariable
    array_struct_value : VmStructArray → VmDynamicVariable
    bytes_value bytes16_value bytes32_value bytes64_value : Bytes → VmDynamicVariable
    array_bytes_value array_bytes16_value array_bytes32_value array_bytes64_value :
        List Bytes → VmDynamicVariable
    int8_value int16_value int32_value int64_value int256_value : ℤ → VmDynamicVariable
    array_int8_value array_int16_value array_int32_value array_int64_value array_int256_value :
        List ℤ → VmDynamicVariable
    string_value : Text → VmDynamicVariable
    array_string_value : List Text → VmDynamicVariable

  pub data VmDynamicVariables : Type 0 where
    no_variables : VmDynamicVariables
    more_variables : VmDynamicVariable → VmDynamicVariables → VmDynamicVariables

  pub data VmNamedDynamicVariable : Type 0 where
    named_variable : SmallString → VmDynamicVariable → VmNamedDynamicVariable

  pub data VmNamedDynamicVariables : Type 0 where
    no_fields : VmNamedDynamicVariables
    more_fields : VmNamedDynamicVariable → VmNamedDynamicVariables → VmNamedDynamicVariables

  pub data VmDynamicStruct : Type 0 where
    dynamic_struct : VmNamedDynamicVariables → VmDynamicStruct

  pub data VmDynamicStructs : Type 0 where
    no_structs : VmDynamicStructs
    more_structs : VmDynamicStruct → VmDynamicStructs → VmDynamicStructs

  pub data VmStructArray : Type 0 where
    struct_array : VmStructSchema → VmDynamicStructs → VmStructArray

-- `self.type`
unfoldable pub type_of : VmDynamicVariable → VmType
type_of (dynamic_value x) = dynamic
type_of (array_dynamic_value x) = array_dynamic
type_of (struct_value x) = struct
type_of (array_struct_value x) = array_struct
type_of (bytes_value x) = bytes
type_of (array_bytes_value x) = array_bytes
type_of (int8_value x) = int8
type_of (array_int8_value x) = array_int8
type_of (int16_value x) = int16
type_of (array_int16_value x) = array_int16
type_of (int32_value x) = int32
type_of (array_int32_value x) = array_int32
type_of (int64_value x) = int64
type_of (array_int64_value x) = array_int64
type_of (int256_value x) = int256
type_of (array_int256_value x) = array_int256
type_of (bytes16_value x) = bytes16
type_of (array_bytes16_value x) = array_bytes16
type_of (bytes32_value x) = bytes32
type_of (array_bytes32_value x) = array_bytes32
type_of (bytes64_value x) = bytes64
type_of (array_bytes64_value x) = array_bytes64
type_of (string_value x) = string
type_of (array_string_value x) = array_string

abbrev pub field_name : VmNamedDynamicVariable → Text
field_name (named_variable name variable) = name.value

unfoldable pub fields_list : VmNamedDynamicVariables → List VmNamedDynamicVariable
fields_list no_fields = []
fields_list (more_fields item rest) = item ∷ fields_list rest

unfoldable pub fields_of_list : List VmNamedDynamicVariable → VmNamedDynamicVariables
fields_of_list [] = no_fields
fields_of_list (item ∷ rest) = more_fields item (fields_of_list rest)

-- `_sort`
unfoldable pub sort : VmDynamicStruct → VmDynamicStruct
sort (dynamic_struct fields) =
    dynamic_struct (fields_of_list (sort_by field_name (fields_list fields)))
