-- ===== src/Vm/Objects/Ending.antt =====
-- The reading of an object ends: a byte is taken before the method comes back to itself.
use phantasma_py.Carbon.Codec.Shrinking.{read_unsigned-Takes}
use phantasma_py.Binary.BigInts.{read_big_integer}
use phantasma_py.Carbon.Codec.Recursion.{
  Guarded, Takes, Takes-bind, Takes-weaken, read_recursively-eq, read-Takes, Takes-bind_first,
  Takes-lift, Takes-pure, Takes-if,
}
use phantasma_py.Carbon.Reader.{CarbonReader, Read}
use phantasma_py.Binary.{
  read_u8, read_var_bytes, read_var_uint, read_sized, read_var_uint_from, read_u16_le, read_bool,
  read_u32_le, read_string, read_u64_le, check_size, max_array_size,
}
use phantasma_py.Vm.Objects.Reading.{
  read_object, read_object_with, object_body, read_data_with, read_entries_with, read_struct_with,
  vm_object_type,
}
use phantasma_py.Prelude.{pos, negsuc, ℕ, ◌≡◌, arith, ℤ, suc, ◌==◌, zero}
use phantasma_py.Vm.{
  none_type, struct_type, bytes_type, number_type, string_type, timestamp_type, bool_type,
  enum_type, object_type, VmObjectType,
}
use phantasma_py.Vm.Objects.{no_entries, VmObject, VmEntries, set_entry}

module _ {n : ℕ} where
  read_u8-Takes : Takes 1 n read_u8 read_u8
  unfolding read_u8
  read_u8-Takes = Takes-bind _ _ (read-Takes 1) λ raw. Takes-pure _

  read_var_uint-Takes : Takes 1 n read_var_uint read_var_uint
  unfolding read_var_uint read_var_uint_from read_u16_le read_u32_le read_u64_le
  read_var_uint-Takes = Takes-bind _ _ read_u8-Takes λ first.
      Takes-if (first == 0xfd) (read_unsigned-Takes 2) (
        Takes-if (first == 0xfe) (read_unsigned-Takes 4)
          (Takes-if (first == 0xff) (read_unsigned-Takes 8) (Takes-pure _)))

  read_var_bytes-Takes :
      (max_size : ℕ) → Takes 0 n (read_var_bytes max_size) (read_var_bytes max_size)
  unfolding read_var_bytes read_sized
  read_var_bytes-Takes max_size = Takes-weaken 0 (omega arith) (
      Takes-bind _ _ read_var_uint-Takes λ size.
        Takes-bind _ _ (Takes-lift (check_size max_size size))
          λ k. Takes-weaken 0 (omega arith) (read-Takes k))

  module _ {r r' : Read VmObject} (t : Takes 0 n r r') where
    entries-Takes :
        (count : ℕ) (items : VmEntries)
        → Takes 0 n (read_entries_with r count items) (read_entries_with r' count items)
    unfolding read_entries_with
    entries-Takes zero items = Takes-pure items
    entries-Takes (suc count) items = Takes-bind _ _ t λ key. Takes-bind _ _ t λ value.
        Takes-bind _ _ (Takes-lift (set_entry key value items)) λ more. entries-Takes count more

    struct-Takes : (count : ℤ) → Takes 0 n (read_struct_with r count) (read_struct_with r' count)
    unfolding read_struct_with
    struct-Takes (pos count) = Takes-bind _ _ (entries-Takes count no_entries) λ items. Takes-pure _
    struct-Takes (negsuc count) = Takes-pure _

    data-Takes : (o : VmObjectType) → Takes 0 n (read_data_with r o) (read_data_with r' o)
    unfolding read_data_with read_bool read_string read_big_integer read_u32_le
    data-Takes none_type = Takes-pure _
    data-Takes bool_type =
        Takes-weaken 0 (omega arith)
          (Takes-bind _ _ (Takes-bind _ _ read_u8-Takes λ k. Takes-pure _) λ flag. Takes-pure _)
    data-Takes bytes_type = Takes-bind _ _ (read_var_bytes-Takes max_array_size) λ raw. Takes-pure _
    data-Takes enum_type =
        Takes-weaken 0 (omega arith) (Takes-bind _ _ read_u8-Takes λ k. Takes-pure _)
    data-Takes number_type =
        Takes-bind _ _ (Takes-bind _ _ (read_var_bytes-Takes max_array_size) λ raw. Takes-pure _)
          λ value. Takes-pure _
    data-Takes string_type =
        Takes-bind _ _ (Takes-bind _ _ (read_var_bytes-Takes max_array_size) λ raw. Takes-lift _)
          λ text. Takes-pure _
    data-Takes timestamp_type = Takes-bind _ _ (read_unsigned-Takes 4) λ value. Takes-pure _
    data-Takes object_type =
        Takes-bind _ _ (read_var_bytes-Takes max_array_size) λ raw. Takes-pure _
    data-Takes struct_type =
        Takes-weaken 0 (omega arith)
          (Takes-bind _ _ read_var_uint-Takes λ count. struct-Takes count)

object_body-Guarded : Guarded object_body
unfolding read_object_with
object_body-Guarded n r r' h _ = Takes-weaken 0 (omega arith) (
    Takes-bind_first _ _ read_u8-Takes (omega arith)
      λ m fewer k. Takes-bind _ _ (Takes-lift (vm_object_type k)) λ o. data-Takes (h m fewer tt) o)

-- `read_object` computes what `VMObject.read` does, which comes back to itself for the keys and the
-- values of a struct: however deep they are nested, the limit on the calls is never met.
pub read_object-eq : (s : CarbonReader) → read_object s ≡ read_object_with read_object s
unfolding read_object
read_object-eq = read_recursively-eq object_body object_body-Guarded tt
