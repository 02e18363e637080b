-- ===== src/Binary/RoundTrip.antt =====
-- What `BinaryWriter` writes, `BinaryReader` reads back.
use phantasma_py.Text.RoundTrip.{decode_utf8-encode_utf8}
use phantasma_py.Bytes.{Bytes}
use phantasma_py.Text.{Text, encode_utf8, decode_utf8}
use phantasma_py.Carbon.Codec.Numbers.{
  write_lem, write_unsigned_lem, write_signed_lem, Encodes-checked,
}
use phantasma_py.Carbon.Codec.{
  Encodes, Encodes-stop, Encodes-bind, Encodes-last, RoundTrips, Encodes-RoundTrips, Encodes-weaken,
  Encodes-lift, serialize, deserialize, new_writer,
}
use phantasma_py.Carbon.Reader.{Read}
use phantasma_py.Carbon.Writer.{Write, write}
use phantasma_py.Prelude.{
  ℕ, ℤ, ◌≤◌, IsUnsigned, pure, ◌<◌, ◌^◌, ◌≡◌, if◌then◌else◌, negsuc, pos, Bool-cases, leb, le→ltb,
  ◌>>◌, arith, ltb, inl, subst, ltb→lt, sym, inr, ◌∷◌, [], get_or, refl, Bool, IsSigned, length,
  ◌>>=◌, leb→le, lift, not, ok, ◌==◌, true, false, err, serialization, ◌++◌, lt→ltb,
}
use phantasma_py.Binary.{
  read_var_uint, write_u8, write_var_uint, read_u8, read_var_uint_from, write_u16_le, write_u32_le,
  write_u64_le, read_sized, read_u16_le, write_bool, write_i64_le, write_string, write_var_bytes,
  check_size, read_bool, read_i64_le, read_string, read_u32_le, read_var_bytes, read_u64_le,
  max_array_size,
}

pub write_u8_lem : (n : ℕ) → n < 256 → Encodes 1 (write_u8 (pos n)) read_u8 n
unfolding write_u8 read_u8
write_u8_lem n h =
    rw (le→ltb 0xff n (omega arith)) (Encodes-last (write_lem (n ∷ [])) (λ raw. get_or raw 0 0))

-- A marker, and the number in the width that it stands for
marked_lem :
    (marker : ℕ) {k : ℕ} {w : Write} {r : Read ℤ} {v : ℤ}
    → marker < 256
    → read_var_uint_from marker ≡ r
    → Encodes k w r v
    → Encodes 1 (write_u8 (pos marker) >> w) read_var_uint v
unfolding read_var_uint
marked_lem marker {k} {w} {r} {v} h e number =
    Encodes-bind (write_u8_lem marker h) read_var_uint_from
      (subst (λ x. Encodes k w x v) (sym e) number)

small_lem : (n : ℕ) → n < 0xfd → Encodes 1 (write_u8 (pos n)) read_var_uint (pos n)
unfolding read_var_uint read_var_uint_from pure
small_lem n h =
    Encodes-stop (write_u8_lem n (omega arith)) read_var_uint_from (λ reader. ground arith)

large_lem :
    (n : ℕ)
    → n < 2 ^ 64
    → Encodes 1
        (if leb n 0xffff
          then (write_u8 (pos 0xfd) >> write_u16_le (pos n))
          else if leb n 0xffffffff
          then (write_u8 (pos 0xfe) >> write_u32_le (pos n))
          else (write_u8 (pos 0xff) >> write_u64_le (pos n)))
        read_var_uint
        (pos n)
unfolding write_u16_le write_u32_le write_u64_le read_var_uint_from read_u16_le read_u32_le
    read_u64_le
large_lem n h = elim (Bool-cases (leb n 0xffff)) [
  | inl short ↦ rw short (
      marked_lem 0xfd (omega arith) refl
        (write_unsigned_lem 2 refl refl (pos n) (omega (arith, leb→le n 0xffff short))))
  | inr long ↦ elim (Bool-cases (leb n 0xffffffff)) [
    | inl word ↦
        rw (long, word)
          (marked_lem 0xfe (omega arith) refl
            (write_unsigned_lem 4 refl refl (pos n) (omega (arith, leb→le n 0xffffffff word))))
    | inr longer ↦
        rw (long, longer)
          (marked_lem 0xff (omega arith) refl (write_unsigned_lem 8 refl refl (pos n) h))
  ]
]

pub write_var_uint_lem : (v : ℤ) → IsUnsigned 64 v → Encodes 1 (write_var_uint v) read_var_uint v
unfolding write_var_uint
write_var_uint_lem (negsuc n) h = absurd h
write_var_uint_lem (pos n) h = elim (Bool-cases (ltb n 0xfd)) [
  | inl small ↦ rw small (small_lem n (ltb→lt n 0xfd small))
  | inr large ↦ rw large (large_lem n h)
]

sized_lem :
    (max_size : ℕ) (raw : Bytes)
    → length raw ≤ max_size
    → Encodes 0 (write raw) (read_sized max_size (pos (length raw))) raw
unfolding read_sized check_size ◌>>=◌ lift
sized_lem max_size raw h =
    rw (le→ltb max_size (length raw) h) (Encodes-weaken 0 (omega arith) (write_lem raw))

-- A byte string of at most `max_size` bytes
pub write_var_bytes_lem :
    (max_size : ℕ) (raw : Bytes)
    → length raw ≤ max_size
    → length raw < 2 ^ 64
    → Encodes 1 (write_var_bytes raw) (read_var_bytes max_size) raw
unfolding write_var_bytes read_var_bytes read_sized
write_var_bytes_lem max_size raw h h' =
    Encodes-bind (write_var_uint_lem (pos (length raw)) h') (read_sized max_size)
      (sized_lem max_size raw h)

pub write_string_lem :
    (text : Text) {raw : Bytes}
    → encode_utf8 text ≡ ok raw
    → length raw ≤ max_array_size
    → Encodes 1 (write_string text) read_string text
unfolding write_string read_string
write_string_lem text {raw} e h = Encodes-checked (encode_utf8 text) write_var_bytes e (
    Encodes-lift (write_var_bytes_lem max_array_size raw h (omega arith)) decode_utf8
      (decode_utf8-encode_utf8 text e))

pub write_i64_le_lem : (v : ℤ) → IsSigned 64 v → Encodes 8 (write_i64_le v) read_i64_le v
unfolding write_i64_le read_i64_le
write_i64_le_lem = write_signed_lem 8 refl refl

pub write_bool_lem : (flag : Bool) → Encodes 1 (write_bool flag) read_bool flag
unfolding write_bool read_bool
write_bool_lem true = Encodes-last (write_u8_lem 1 (omega arith)) (λ n. not (n == 0))
write_bool_lem false = Encodes-last (write_u8_lem 0 (omega arith)) (λ n. not (n == 0))

-- An unsigned 64-bit integer is written in one, three, five or nine bytes, reads back, and is
-- refused with any byte behind it.
pub var_uint-RoundTrips : (v : ℤ) → IsUnsigned 64 v → RoundTrips (write_var_uint v) read_var_uint v
var_uint-RoundTrips v h = Encodes-RoundTrips (write_var_uint_lem v h)

-- A text whose UTF-8 has at most 2 ^ 24 bytes is written with its length before it, reads back,
-- and is refused with any byte behind it.
pub string-RoundTrips :
    (text : Text) {raw : Bytes}
    → encode_utf8 text ≡ ok raw
    → length raw ≤ max_array_size
    → RoundTrips (write_string text) read_string text
string-RoundTrips text e h = Encodes-RoundTrips (write_string_lem text e h)

-- The writer has no limit where the reader has one: more than `max_size` bytes, below 2 ^ 64, are
-- written, and what is written is refused.
pub var_bytes-too_large :
    (max_size : ℕ) (raw : Bytes)
    → max_size < length raw
    → length raw < 2 ^ 64
    → (written : Bytes) × (serialize (write_var_bytes raw) ≡ ok written)
      × (deserialize (read_var_bytes max_size) written ≡ err serialization)
unfolding serialize deserialize write_var_bytes read_var_bytes read_sized check_size ◌>>=◌ ◌>>◌ lift
    write
var_bytes-too_large max_size raw h h' =
    let e = write_var_uint_lem (pos (length raw)) h' in
    (e.bytes ++ raw, rw (e.writes new_writer), rw (e.reads [] raw, lt→ltb max_size (length raw) h))

pub write_u32_le_lem : (v : ℤ) → IsUnsigned 32 v → Encodes 4 (write_u32_le v) read_u32_le v
unfolding write_u32_le read_u32_le
write_u32_le_lem = write_unsigned_lem 4 refl refl
