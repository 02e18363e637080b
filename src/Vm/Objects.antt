-- ===== src/Vm/Objects.antt =====
-- `VMObject` of vm.py: its bytes in both directions, and its conversions to numbers, Booleans and bytes.
-- The data of an object is of the kind that its type calls for, so the type is the constructor's.
pub mod Reading
pub mod Ending
pub mod RoundTrip
use phantasma_py.Binary.BigInts.{vm_bytes_to_big_int, write_big_integer, big_int_to_vm_bytes}
use phantasma_py.Text.Sorting.{same_text}
use phantasma_py.Carbon.Codec.{serialize}
use phantasma_py.Binary.{
  write_u8, write_var_bytes, write_var_uint, write_string, write_u32_le, write_bool,
}
use phantasma_py.Text.{Text, encode_utf8}
use phantasma_py.Carbon.Writer.{Write}
use phantasma_py.Bytes.{Bytes, from_le, to_le}
use phantasma_py.Prelude.{
  pos, negsuc, true, false, ok, err, Bool, Result, if◌then◌else◌, ℕ, ℤ, length, ltb, serialization,
  suc, unhashable, ◌==◌, ◌>>=◌, lift, not, same_int, ◌>>◌, ◌^◌, get_or, same, ◌∷◌, [], overflow,
  pure,
}
use phantasma_py.Vm.{
  none_type, struct_type, bytes_type, number_type, string_type, timestamp_type, bool_type,
  enum_type, object_type, VmObjectType,
}

mutual
  pub data VmObject : Type 0 where
    none_object : VmObject
    struct_object : VmEntries → VmObject
    bytes_object object_object : Bytes → VmObject
    number_object timestamp_object enum_object : ℤ → VmObject
    string_object : Text → VmObject
    bool_object : Bool → VmObject

  -- The dict of a struct, in the order of insertion
  pub data VmEntries : Type 0 where
    no_entries : VmEntries
    more_entries : VmObject → VmObject → VmEntries → VmEntries

unfoldable pub object_type_of : VmObject → VmObjectType
object_type_of none_object = none_type
object_type_of (struct_object items) = struct_type
object_type_of (bytes_object raw) = bytes_type
object_type_of (object_object raw) = object_type
object_type_of (number_object value) = number_type
object_type_of (timestamp_object value) = timestamp_type
object_type_of (enum_object value) = enum_type
object_type_of (string_object text) = string_type
object_type_of (bool_object flag) = bool_type

unfoldable pub entries_length : VmEntries → ℕ
entries_length no_entries = 0
entries_length (more_entries key value rest) = suc (entries_length rest)

-- `write_var_bytes` of the bytes that another `write_var_bytes` writes
unfoldable pub write_object_bytes : Bytes → Write
write_object_bytes raw = do
  payload ← lift (serialize (write_var_bytes raw))
  write_var_bytes payload

-- An enum is written in one byte: a value out of its range raises either way.
unfoldable mutual
  pub write_object : VmObject → Write
  write_object none_object = write_u8 (pos 0)
  write_object (struct_object items) = do
    write_u8 (pos 1)
    write_var_uint (pos (entries_length items))
    write_entries items
  write_object (bytes_object raw) = do write_u8 (pos 2); write_var_bytes raw
  write_object (number_object value) = do write_u8 (pos 3); write_big_integer value
  write_object (string_object text) = do write_u8 (pos 4); write_string text
  write_object (timestamp_object value) = do write_u8 (pos 5); write_u32_le value
  write_object (bool_object flag) = do write_u8 (pos 6); write_bool flag
  write_object (enum_object value) = do write_u8 (pos 7); write_u8 value
  write_object (object_object raw) = do write_u8 (pos 8); write_object_bytes raw

  pub write_entries : VmEntries → Write
  write_entries no_entries = pure tt
  write_entries (more_entries key value rest) = do
    write_object key
    write_object value
    write_entries rest

unfoldable pub object_to_bytes : VmObject → Result Bytes
object_to_bytes o = serialize (write_object o)

-- `==` on the objects that are hashable, and `hash`, which raises on a struct
unfoldable pub same_object : VmObject → VmObject → Bool
same_object none_object none_object = true
same_object (bytes_object raw) (bytes_object raw') = same_text raw raw'
same_object (object_object raw) (object_object raw') = same_text raw raw'
same_object (number_object v) (number_object v') = same_int v v'
same_object (timestamp_object v) (timestamp_object v') = same_int v v'
same_object (enum_object v) (enum_object v') = same_int v v'
same_object (string_object text) (string_object text') = same_text text text'
same_object (bool_object flag) (bool_object flag') = same flag flag'
same_object _ _ = false

unfoldable pub is_hashable : VmObject → Bool
is_hashable (struct_object items) = false
is_hashable _ = true

-- `items[key] = value` of a hashable key
unfoldable pub put_entry : VmObject → VmObject → VmEntries → VmEntries
put_entry key value no_entries = more_entries key value no_entries
put_entry key value (more_entries key' value' rest) =
    let later = put_entry key value rest in
    if same_object key' key then more_entries key' value rest else more_entries key' value' later

unfoldable pub set_entry : VmObject → VmObject → VmEntries → Result VmEntries
set_entry key value items =
    if is_hashable key then ok (put_entry key value items) else err unhashable

-- `int(self.data)` of a string is Python's, and a parameter.
unfoldable pub as_number : (Text → Result ℤ) → VmObject → Result ℤ
as_number parse_int (number_object value) = ok value
as_number parse_int (bytes_object raw) = ok (vm_bytes_to_big_int raw)
as_number parse_int (object_object raw) =
    if length raw == 32 then ok (pos (from_le raw)) else err serialization
as_number parse_int (bool_object flag) = ok (pos (if flag then 1 else 0))
as_number parse_int (string_object text) = parse_int text
as_number parse_int (enum_object value) = ok value
as_number parse_int (timestamp_object value) = ok value
as_number parse_int none_object = ok (pos 0)
as_number parse_int (struct_object items) = err serialization

-- `int.to_bytes(4, "little", signed=False)`
unfoldable pub four_bytes : ℤ → Result Bytes
four_bytes (pos n) = if ltb n (2 ^ 32) then ok (to_le 4 n) else err overflow
four_bytes (negsuc n) = err overflow

unfoldable pub as_bytes : VmObject → Result Bytes
as_bytes none_object = err serialization
as_bytes (string_object text) = encode_utf8 text
as_bytes (bytes_object raw) = ok raw
as_bytes (object_object raw) = ok raw
as_bytes (bool_object flag) = ok ((if flag then 1 else 0) ∷ [])
as_bytes (enum_object value) = four_bytes value
as_bytes (timestamp_object value) = four_bytes value
as_bytes (number_object value) = big_int_to_vm_bytes value
as_bytes (struct_object items) = object_to_bytes (struct_object items)

unfoldable pub is_zero : ℤ → Bool
is_zero (pos n) = n == 0
is_zero (negsuc n) = false

unfoldable pub as_bool : VmObject → Result Bool
as_bool (bool_object flag) = ok flag
as_bool (bytes_object raw) =
    if length raw == 1 then ok (not (get_or raw 0 0 == 0)) else err serialization
as_bool (number_object value) = ok (not (is_zero value))
as_bool _ = err serialization
