-- ===== src/Vm/Objects/RoundTrip.antt =====
-- An object reads back.
use phantasma_py.Carbon.Reader.{Read, CarbonReader}
use phantasma_py.Binary.BigInts.Words.{write_big_integer_lem}
use phantasma_py.Binary.RoundTrip.{
  write_u8_lem, write_var_uint_lem, write_var_bytes_lem, write_string_lem, write_u32_le_lem,
  write_bool_lem,
}
use phantasma_py.Vm.Objects.Ending.{read_object-eq}
use phantasma_py.Carbon.Codec.Numbers.{Encodes-checked}
use phantasma_py.Text.{encode_utf8}
use phantasma_py.Binary.BigInts.{big_int_to_vm_bytes}
use phantasma_py.Carbon.Writer.{write, Write}
use phantasma_py.Bytes.{Bytes}
use phantasma_py.Binary.{
  write_var_bytes, write_var_uint, read_var_bytes, write_u8, max_array_size, read_u8,
}
use phantasma_py.Carbon.Codec.{
  serialize, Encodes, Encodes-bind, Encodes-last, Encodes-read, Encodes-weaken, Encodes-stop,
  Encodes-pure, Encodes-RoundTrips,
}
use phantasma_py.Vm.Objects.Reading.{
  object_of, vm_object_type, read_object_with, read_data_with, read_struct_with, read_entries_with,
  read_object, object_from_bytes,
}
use phantasma_py.Prelude.{
  pos, negsuc, true, ok, ℤ, IsUnsigned, ◌≡◌, ap, length, ◌<◌, ◌>>=◌, arith, lift, refl, ◌^◌, ◌∷◌, ℕ,
  ◌≤◌, pure, ◌>>◌, subst, Result, sym, ◌++◌, err, serialization,
}
use phantasma_py.Vm.{
  none_type, struct_type, bytes_type, number_type, string_type, timestamp_type, bool_type,
  enum_type, object_type, object_type_value, VmObjectType,
}
use phantasma_py.Vm.Objects.{
  none_object, struct_object, bytes_object, object_object, number_object, timestamp_object,
  enum_object, string_object, bool_object, no_entries, more_entries, VmEntries, VmObject, set_entry,
  write_object, write_object_bytes, entries_length, is_hashable, write_entries, put_entry,
  object_to_bytes,
}

unfoldable pub append_entries : VmEntries → VmEntries → VmEntries
append_entries no_entries items = items
append_entries (more_entries key value rest) items =
    more_entries key value (append_entries rest items)

abbrev pub add_entry : VmEntries → VmObject → VmObject → VmEntries
add_entry items key value = append_entries items (more_entries key value no_entries)

-- The keys are hashable, and each is new where it is set.
abbrev pub IsDict : VmEntries → VmEntries → Type 0
IsDict before no_entries = Unit
IsDict before (more_entries key value rest) =
    (is_hashable key ≡ true)
    × (put_entry key value before ≡ add_entry before key value)
    × IsDict (add_entry before key value) rest

abbrev mutual
  pub IsObject : VmObject → Type 0
  IsObject none_object = Unit
  IsObject (struct_object items) =
      (entries_length items < 2 ^ 64) × IsDict no_entries items × AreObjects items
  IsObject (bytes_object raw) = length raw ≤ max_array_size
  IsObject (number_object value) =
      (raw : Bytes) × (big_int_to_vm_bytes value ≡ ok raw) × (length raw ≤ max_array_size)
  IsObject (string_object text) =
      (raw : Bytes) × (encode_utf8 text ≡ ok raw) × (length raw ≤ max_array_size)
  IsObject (timestamp_object value) = IsUnsigned 32 value
  IsObject (bool_object flag) = Unit
  IsObject (enum_object value) = IsUnsigned 8 value
  IsObject (object_object raw) = length raw ≡ 34

  pub AreObjects : VmEntries → Type 0
  AreObjects no_entries = Unit
  AreObjects (more_entries key value rest) = IsObject key × IsObject value × AreObjects rest

vm_object_type-object_type_value : (t : VmObjectType) → vm_object_type (object_type_value t) ≡ ok t
unfolding vm_object_type object_type_value
vm_object_type-object_type_value none_type = refl
vm_object_type-object_type_value struct_type = refl
vm_object_type-object_type_value bytes_type = refl
vm_object_type-object_type_value number_type = refl
vm_object_type-object_type_value string_type = refl
vm_object_type-object_type_value timestamp_type = refl
vm_object_type-object_type_value bool_type = refl
vm_object_type-object_type_value enum_type = refl
vm_object_type-object_type_value object_type = refl

object_type_value-lt : (t : VmObjectType) → object_type_value t < 256
unfolding object_type_value
object_type_value-lt none_type = omega arith
object_type_value-lt struct_type = omega arith
object_type_value-lt bytes_type = omega arith
object_type_value-lt number_type = omega arith
object_type_value-lt string_type = omega arith
object_type_value-lt timestamp_type = omega arith
object_type_value-lt bool_type = omega arith
object_type_value-lt enum_type = omega arith
object_type_value-lt object_type = omega arith

-- The type, and the data that is read for the type
typed_lem :
    {k : ℕ} (t : VmObjectType) {w : Write} {o : VmObject}
    → Encodes k w (read_data_with read_object t) o
    → Encodes 1 (write_u8 (pos (object_type_value t)) >> w) read_object o
unfolding read_object_with ◌>>=◌ lift
typed_lem t e = Encodes-read read_object-eq (
    Encodes-bind (write_u8_lem (object_type_value t) (object_type_value-lt t)) _
      (Encodes-read (λ reader. rw (vm_object_type-object_type_value t)) e))

serialize-address :
    (raw : Bytes) → length raw ≡ 34 → serialize (write_var_bytes raw) ≡ ok (34 ∷ raw)
unfolding serialize write_var_bytes write_var_uint write_u8 write ◌>>◌
serialize-address raw h = rw h

object_of-address : (raw : Bytes) → length raw ≡ 34 → object_of (34 ∷ raw) ≡ object_object raw
unfolding object_of
object_of-address raw h = rw h

object_bytes_lem :
    (raw : Bytes)
    → length raw ≡ 34
    → Encodes 1
        (write_object_bytes raw)
        (read_var_bytes max_array_size >>= λ x. pure (object_of x))
        (object_object raw)
unfolding write_object_bytes
object_bytes_lem raw h =
    Encodes-checked (serialize (write_var_bytes raw)) write_var_bytes (serialize-address raw h) (
      subst
        (λ o.
          Encodes 1 (write_var_bytes (34 ∷ raw))
            (read_var_bytes max_array_size >>= λ x. pure (object_of x)) o)
        (object_of-address raw h)
        (Encodes-last (write_var_bytes_lem max_array_size (34 ∷ raw) (omega arith) (omega arith))
          object_of))

enum_lem :
    (value : ℤ)
    → IsUnsigned 8 value
    → Encodes 1 (write_u8 value) (read_u8 >>= λ n. pure (enum_object (pos n))) (enum_object value)
enum_lem (pos n) h = Encodes-last (write_u8_lem n h) (λ k. enum_object (pos k))
enum_lem (negsuc n) h = absurd h

add_entry-append :
    (before : VmEntries) (key value : VmObject) (rest : VmEntries)
    → append_entries (add_entry before key value) rest
      ≡ append_entries before (more_entries key value rest)
unfolding append_entries
add_entry-append no_entries key value rest = refl
add_entry-append (more_entries k v before) key value rest =
    ap (λ items. more_entries k v items) (add_entry-append before key value rest)

set_entry-new :
    (before : VmEntries) (key value : VmObject)
    → is_hashable key ≡ true
    → put_entry key value before ≡ add_entry before key value
    → set_entry key value before ≡ ok (add_entry before key value)
unfolding set_entry
set_entry-new before key value h e = rw (h, e)

append_entries-nil : (items : VmEntries) → append_entries items no_entries ≡ items
unfolding append_entries
append_entries-nil no_entries = refl
append_entries-nil (more_entries key value rest) =
    ap (λ items. more_entries key value items) (append_entries-nil rest)

none_lem : Encodes 1 (write_u8 (pos 0)) read_object none_object
unfolding read_object_with ◌>>=◌ lift vm_object_type read_data_with pure
none_lem =
    Encodes-read read_object-eq (Encodes-stop (write_u8_lem 0 (omega arith)) _ (λ reader. refl))

lifted :
    {A B : Type 0} {m : Result A} {a : A} (f : A → Read B)
    → m ≡ ok a
    → (reader : CarbonReader) → (lift m >>= f) reader ≡ f a reader
unfolding ◌>>=◌ lift
lifted f e reader = rw e

mutual
  unfolding append_entries write_object write_entries read_data_with read_struct_with
      read_entries_with entries_length object_type_value

  pub object_lem : (o : VmObject) → IsObject o → Encodes 1 (write_object o) read_object o
  object_lem none_object h = none_lem
  object_lem (struct_object items) (few, dict, h) = typed_lem struct_type (
      Encodes-bind (write_var_uint_lem (pos (entries_length items)) few)
        (read_struct_with read_object)
        (Encodes-last (entries_lem no_entries items dict h) struct_object))
  object_lem (bytes_object raw) h =
      typed_lem bytes_type
        (Encodes-last (write_var_bytes_lem max_array_size raw h (omega arith)) bytes_object)
  object_lem (number_object value) (raw, e, short) =
      typed_lem number_type (Encodes-last (write_big_integer_lem value e short) number_object)
  object_lem (string_object text) (raw, e, short) =
      typed_lem string_type (Encodes-last (write_string_lem text e short) string_object)
  object_lem (timestamp_object value) h =
      typed_lem timestamp_type (Encodes-last (write_u32_le_lem value h) timestamp_object)
  object_lem (bool_object flag) h =
      typed_lem bool_type (Encodes-last (write_bool_lem flag) bool_object)
  object_lem (enum_object value) h = typed_lem enum_type (enum_lem value h)
  object_lem (object_object raw) h = typed_lem object_type (object_bytes_lem raw h)

  entries_lem :
      (before items : VmEntries)
      → IsDict before items
      → AreObjects items
      → Encodes 0
          (write_entries items)
          (read_entries_with read_object (entries_length items) before)
          (append_entries before items)
  entries_lem before no_entries dict h =
      subst (λ x. Encodes 0 (pure tt) (pure before) x) (sym (append_entries-nil before))
        (Encodes-pure before)
  entries_lem before (more_entries key value rest) (hashable, new, dict) (hk, hv, hr) =
      Encodes-weaken 0 (omega arith) (
        Encodes-bind (object_lem key hk) _ (
          Encodes-bind (object_lem value hv) _ (
            Encodes-read (λ reader. lifted _ (set_entry-new before key value hashable new) reader)
              (subst
                (λ x.
                  Encodes 0 (write_entries rest)
                    (read_entries_with read_object (entries_length rest)
                      (add_entry before key value))
                    x)
                (add_entry-append before key value rest)
                (entries_lem (add_entry before key value) rest dict hr)))))

-- An object whose numbers and lengths fit, whose structs have hashable keys, no two of them equal,
-- and which is of the type Object only with the 34 bytes of an address, has bytes that read back as
-- the object, and are refused with any byte behind them.
pub object_to_bytes-object_from_bytes :
    (o : VmObject)
    → IsObject o
    → (raw : Bytes) × (object_to_bytes o ≡ ok raw)
      × (object_from_bytes raw ≡ ok o)
      × ((x : ℕ) (extra : Bytes) → object_from_bytes (raw ++ x ∷ extra) ≡ err serialization)
unfolding object_to_bytes object_from_bytes
object_to_bytes-object_from_bytes o h = Encodes-RoundTrips (object_lem o h)
