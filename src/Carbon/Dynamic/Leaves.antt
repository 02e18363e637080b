-- ===== src/Carbon/Dynamic/Leaves.antt =====
-- Data that holds no other dynamic values reads back, with a schema's struct or without one.
use phantasma_py.Carbon.Codec.SignedArrays.{
  write_int8_array_lem, write_int16_array_lem, write_int32_array_lem, write_int64_array_lem,
  write_int8_lem,
}
use phantasma_py.Carbon.Codec.BigInts.{write_big_int_signed}
use phantasma_py.Carbon.Codec.Numbers.{
  write16_lem, write32_lem, write64_lem, write2_lem, write4_lem, write8_lem,
}
use phantasma_py.Carbon.Codec.Arrays.{
  write_byte_array_lem, write_byte_arrays_lem, write_carbon_array_lem, write_string_z_lem,
}
use phantasma_py.Carbon.Dynamic.Shapes.{FitsType}
use phantasma_py.Carbon.Schemas.{VmStructDef}
use phantasma_py.Carbon.Codec.{Encodes, Encodes-weaken, Encodes-last}
use phantasma_py.Carbon.Reader.{Read, read_string_z_array, read_big_int_array}
use phantasma_py.Carbon.Dynamic.Reading.{read_static_with, read_part}
use phantasma_py.Carbon.Writer.{Write, write_string_z_array, write_big_int_array}
use phantasma_py.Carbon.Dynamic.Writing.{write_static}
use phantasma_py.Prelude.{ℕ, suc, arith}
use phantasma_py.Carbon.Dynamic.{
  bytes_value, bytes16_value, bytes32_value, bytes64_value, array_bytes_value, array_bytes16_value,
  array_bytes32_value, array_bytes64_value, int8_value, int16_value, int32_value, int64_value,
  int256_value, array_int8_value, array_int16_value, array_int32_value, array_int64_value,
  array_int256_value, string_value, array_string_value, dynamic_value, array_dynamic_value,
  struct_value, array_struct_value, type_of, VmDynamicVariable,
}

item_lem :
    {A : Type 0} {j : ℕ} {P : A → Type 0} {w : A → Write} {r : Read A}
    → ((x : A) → P x → Encodes (suc j) (w x) r x)
    → (x : A) → P x
    → Encodes 1 (w x) r x
item_lem item x h = Encodes-weaken 1 (omega arith) (item x h)

pub leaf_lem :
    (v : VmDynamicVariable) (d : VmStructDef)
    → FitsType v
    → Encodes 1 (write_static v d) (read_static_with read_part (type_of v) d) v
unfolding write_static read_static_with type_of read_string_z_array write_string_z_array
    read_big_int_array write_big_int_array
leaf_lem (bytes_value raw) d h =
    Encodes-weaken 1 (omega arith) (Encodes-last (write_byte_array_lem raw h) bytes_value)
leaf_lem (bytes16_value raw) d h =
    Encodes-weaken 1 (omega arith) (Encodes-last (write16_lem raw h) bytes16_value)
leaf_lem (bytes32_value raw) d h =
    Encodes-weaken 1 (omega arith) (Encodes-last (write32_lem raw h) bytes32_value)
leaf_lem (bytes64_value raw) d h =
    Encodes-weaken 1 (omega arith) (Encodes-last (write64_lem raw h) bytes64_value)
leaf_lem (array_bytes_value raws) d h =
    Encodes-weaken 1 (omega arith)
      (Encodes-last (write_byte_arrays_lem raws h.0 h.1) array_bytes_value)
leaf_lem (array_bytes16_value raws) d h =
    Encodes-weaken 1 (omega arith) (
      Encodes-last (write_carbon_array_lem (item_lem write16_lem) raws h.0 h.1) array_bytes16_value)
leaf_lem (array_bytes32_value raws) d h =
    Encodes-weaken 1 (omega arith) (
      Encodes-last (write_carbon_array_lem (item_lem write32_lem) raws h.0 h.1) array_bytes32_value)
leaf_lem (array_bytes64_value raws) d h =
    Encodes-weaken 1 (omega arith) (
      Encodes-last (write_carbon_array_lem (item_lem write64_lem) raws h.0 h.1) array_bytes64_value)
leaf_lem (int8_value v) d h = write_int8_lem int8_value v h
leaf_lem (int16_value v) d h =
    Encodes-weaken 1 (omega arith) (Encodes-last (write2_lem v h) int16_value)
leaf_lem (int32_value v) d h =
    Encodes-weaken 1 (omega arith) (Encodes-last (write4_lem v h) int32_value)
leaf_lem (int64_value v) d h =
    Encodes-weaken 1 (omega arith) (Encodes-last (write8_lem v h) int64_value)
leaf_lem (int256_value v) d h =
    Encodes-weaken 1 (omega arith) (Encodes-last (write_big_int_signed v h) int256_value)
leaf_lem (array_int8_value vs) d h =
    Encodes-weaken 1 (omega arith) (Encodes-last (write_int8_array_lem vs h.0 h.1) array_int8_value)
leaf_lem (array_int16_value vs) d h =
    Encodes-weaken 1 (omega arith)
      (Encodes-last (write_int16_array_lem vs h.0 h.1) array_int16_value)
leaf_lem (array_int32_value vs) d h =
    Encodes-weaken 1 (omega arith)
      (Encodes-last (write_int32_array_lem vs h.0 h.1) array_int32_value)
leaf_lem (array_int64_value vs) d h =
    Encodes-weaken 1 (omega arith)
      (Encodes-last (write_int64_array_lem vs h.0 h.1) array_int64_value)
leaf_lem (array_int256_value vs) d h =
    Encodes-weaken 1 (omega arith)
      (Encodes-last (write_carbon_array_lem write_big_int_signed vs h.0 h.1) array_int256_value)
leaf_lem (string_value text) d h =
    Encodes-weaken 1 (omega arith) (Encodes-last (write_string_z_lem text h.0 h.1) string_value)
leaf_lem (array_string_value texts) d h = Encodes-weaken 1 (omega arith) (
    Encodes-last
      (write_carbon_array_lem (λ text fits. write_string_z_lem text fits.0 fits.1) texts h.0 h.1)
      array_string_value)
leaf_lem (dynamic_value x) d h = absurd h
leaf_lem (array_dynamic_value x) d h = absurd h
leaf_lem (struct_value x) d h = absurd h
leaf_lem (array_struct_value x) d h = absurd h
