-- ===== src/Vm/Objects/Reading.antt =====
-- `VMObject.read`. A struct's keys and values are objects: the method is given itself.
use phantasma_py.Binary.BigInts.{read_big_integer}
use phantasma_py.Binary.{
  read_bool, read_u8, read_var_bytes, max_array_size, read_string, read_u32_le, read_var_uint,
}
use phantasma_py.Carbon.Codec.{deserialize}
use phantasma_py.Carbon.Codec.Recursion.{read_recursively}
use phantasma_py.Carbon.Reader.{Read}
use phantasma_py.Bytes.{Bytes}
use phantasma_py.Prelude.{
  pos, negsuc, ok, err, List, ℕ, Result, if◌then◌else◌, pure, ℤ, ◌>>=◌, ◌∷◌, [], length, ltb, suc,
  get_or, lift, ◌==◌, serialization, ◌&&◌, drop, zero,
}
use phantasma_py.Vm.{
  none_type, struct_type, bytes_type, number_type, string_type, timestamp_type, bool_type,
  enum_type, object_type, VmObjectType,
}
use phantasma_py.Vm.Objects.{
  none_object, struct_object, bytes_object, object_object, number_object, timestamp_object,
  enum_object, string_object, bool_object, no_entries, VmObject, VmEntries, set_entry,
}

abbrev vm_object_types : List VmObjectType
vm_object_types =
    none_type ∷ struct_type ∷ bytes_type ∷ number_type ∷ string_type ∷ timestamp_type ∷ bool_type
    ∷ enum_type ∷ object_type ∷ []

-- `VMType(n)`, whose ValueError is raised again as a SerializationError
unfoldable pub vm_object_type : ℕ → Result VmObjectType
vm_object_type n = if ltb n 9 then ok (get_or vm_object_types n none_type) else err serialization

-- Only an address, with its length before it, is kept as an object.
unfoldable pub object_of : Bytes → VmObject
object_of payload =
    if (length payload == 35) && (get_or payload 0 0 == 34)
    then object_object (drop 1 payload)
    else bytes_object payload

module _ (read_rest : Read VmObject) where
  unfoldable pub read_entries_with : ℕ → VmEntries → Read VmEntries
  read_entries_with zero entries = pure entries
  read_entries_with (suc count) entries = do
    key ← read_rest
    value ← read_rest
    items ← lift (set_entry key value entries)
    read_entries_with count items

  unfoldable pub read_struct_with : ℤ → Read VmObject
  read_struct_with (negsuc n) = pure (struct_object no_entries)
  read_struct_with (pos count) = do
    entries ← read_entries_with count no_entries
    pure (struct_object entries)

  unfoldable pub read_data_with : VmObjectType → Read VmObject
  read_data_with none_type = pure none_object
  read_data_with bool_type = do flag ← read_bool; pure (bool_object flag)
  read_data_with bytes_type = do raw ← read_var_bytes max_array_size; pure (bytes_object raw)
  read_data_with enum_type = do n ← read_u8; pure (enum_object (pos n))
  read_data_with number_type = do value ← read_big_integer; pure (number_object value)
  read_data_with string_type = do text ← read_string; pure (string_object text)
  read_data_with timestamp_type = do value ← read_u32_le; pure (timestamp_object value)
  read_data_with object_type = do payload ← read_var_bytes max_array_size; pure (object_of payload)
  read_data_with struct_type = do count ← read_var_uint; read_struct_with count

  unfoldable pub read_object_with : Read VmObject
  read_object_with = do n ← read_u8; t ← lift (vm_object_type n); read_data_with t

abbrev pub object_body : (Unit {0} → Read VmObject) → Unit {0} → Read VmObject
object_body read_rest _ = read_object_with (read_rest tt)

unfoldable pub read_object : Read VmObject
read_object = read_recursively object_body tt

unfoldable pub object_from_bytes : Bytes → Result VmObject
object_from_bytes = deserialize read_object
