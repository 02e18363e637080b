-- ===== src/Binary/Examples.antt =====
-- The round trips of binary.py on concrete values.
use phantasma_py.Binary.BigInts.Words.{vm_bytes_to_big_int-words}
use phantasma_py.Binary.BigInts.{big_int_to_csharp_bytes, vm_bytes_to_big_int, big_int_to_vm_bytes}
use phantasma_py.Carbon.Writer.{write_unsigned, write}
use phantasma_py.Binary.RoundTrip.{var_bytes-too_large}
use phantasma_py.Prelude.{
  pos, ◌∷◌, [], ◌≡◌, arith, ok, refl, err, serialization, lift, ◌>>=◌, ◌>>◌, negsuc,
}
use phantasma_py.Bytes.{Bytes, check_unsigned, to_le}
use phantasma_py.Binary.{write_var_uint, write_u8, write_var_bytes, write_u16_le, read_var_bytes}
use phantasma_py.Carbon.Codec.{serialize, deserialize}

var_bytes-too_large_example :
    (written : Bytes) × (serialize (write_var_bytes (1 ∷ 2 ∷ 3 ∷ [])) ≡ ok written)
    × (deserialize (read_var_bytes 2) written ≡ err serialization)
var_bytes-too_large_example = var_bytes-too_large 2 (1 ∷ 2 ∷ 3 ∷ []) (omega arith) (omega arith)

two_marker_bytes : serialize (write_var_uint (pos 0xfd)) ≡ ok (0xfd ∷ 0xfd ∷ 0 ∷ [])
unfolding serialize write_var_uint write_u8 write_u16_le write_unsigned check_unsigned to_le write
    lift ◌>>=◌ ◌>>◌
two_marker_bytes = refl

vm_bytes_to_big_int-words_example :
    ((raw : Bytes) × (big_int_to_csharp_bytes (negsuc 127) ≡ ok raw)
      × (vm_bytes_to_big_int raw ≡ negsuc 127))
    × ((raw : Bytes) × (big_int_to_vm_bytes (negsuc 127) ≡ ok raw)
        × (vm_bytes_to_big_int raw ≡ negsuc 127))
vm_bytes_to_big_int-words_example = vm_bytes_to_big_int-words (negsuc 127)
