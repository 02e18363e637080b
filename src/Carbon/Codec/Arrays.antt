-- ===== src/Carbon/Codec/Arrays.antt =====
-- Arrays, byte arrays and zero-terminated strings: what is written reads back.
use phantasma_py.Prelude.{
  ℕ, ◌≡◌, List, length, suc, ◌>>=◌, ◌≤◌, All, pos, ◌<◌, ◌>>◌, ok, ◌^◌, ◌∷◌, arith, le→ltb, ◌++◌,
  append_assoc, length-append, ap, [], false, refl, drop, ◌+◌, drop-append_self, sym, ℤ, IsUnsigned,
}
use phantasma_py.Bytes.{Bytes}
use phantasma_py.Text.{has_zero, Text, encode_utf8, decode_utf8}
use phantasma_py.Text.RoundTrip.{
  IsScalar, encode_utf8_total, encode_utf8-has_zero, decode_utf8-encode_utf8,
}
use phantasma_py.Carbon.Writer.{
  Write, write_int_item, write_int_array, write, write1, write4, write_each, write_carbon_array,
  write_byte_array, write_byte_arrays, write_string_z,
}
use phantasma_py.Carbon.Reader.{
  Read, check_length, read_length, read_each, read_carbon_array, read_byte_array, read_byte_arrays,
  read_string_z, read_raw_z, scan_zero, read_int_array, read_int_item,
}
use phantasma_py.Carbon.Codec.{
  Encodes, at, remaining-at, Encodes-lift, Encodes-last, Encodes-pure, Encodes-weaken,
  Encodes-bind_sum,
}
use phantasma_py.Carbon.Codec.Numbers.{write8u_lem, Encodes-checked, write_lem, write4_lem}

check_length-at :
    (n : ℕ) (done rest : Bytes)
    → n ≤ length rest
    → check_length (pos n) (at done rest) ≡ ok (n, at done rest)
unfolding check_length
check_length-at n done rest h = rw (remaining-at done rest, le→ltb _ _ h)

-- A length, checked against the bytes that are left, and what it is the length of.
pub Encodes-length :
    {A : Type 0} {k : ℕ} (n : ℕ) {w : Write} (f : ℕ → Read A) {v : A}
    → n < 2 ^ 31
    → n ≤ k
    → Encodes k w (f n) v
    → Encodes 4 (write4 (pos n) >> w) (read_length >>= f) v
unfolding ◌>>=◌ ◌>>◌ read_length
Encodes-length n f {v} h fits e =
    let number = write4_lem (pos n) h in
    record {
      bytes = number.bytes ++ e.bytes;
      writes = λ b. rw (number.writes, e.writes, append_assoc);
      reads = λ done rest.
          rw
            (
              append_assoc number.bytes e.bytes rest,
              number.reads,
              check_length-at n (done ++ number.bytes) (e.bytes ++ rest)
                  (omega (arith, length-append {0} e.bytes rest, e.size)),
              e.reads,
            )
            (ap (λ d. ok (v, at d rest)) (append_assoc done number.bytes e.bytes));
      size = omega (arith, number.size, length-append {0} number.bytes e.bytes);
    }

module _ {A : Type 0} {k : ℕ} {P : A → Type 0} {w : A → Write} {r : Read A}
    (item : (x : A) → P x → Encodes (suc k) (w x) r x) where
  pub write_each_lem :
      (xs : List A) → All P xs → Encodes (length xs) (write_each w xs) (read_each (length xs) r) xs
  unfolding write_each read_each
  write_each_lem [] h = Encodes-pure []
  write_each_lem (x ∷ xs) (hx, hxs) =
      Encodes-weaken (suc (length xs)) (omega arith)
        (Encodes-bind_sum (item x hx) _ (Encodes-last (write_each_lem xs hxs) (λ ys. x ∷ ys)))

  pub write_carbon_array_lem :
      (xs : List A)
      → length xs < 2 ^ 31
      → All P xs
      → Encodes 4 (write_carbon_array w xs) (read_carbon_array r) xs
  unfolding write_carbon_array read_carbon_array
  write_carbon_array_lem xs h hs =
      Encodes-length (length xs) _ h (omega arith) (write_each_lem xs hs)

pub write_byte_array_lem :
    (raw : Bytes) → length raw < 2 ^ 31 → Encodes 4 (write_byte_array raw) read_byte_array raw
unfolding write_byte_array read_byte_array
write_byte_array_lem raw h = Encodes-length (length raw) _ h (omega arith) (write_lem raw)

pub write_byte_arrays_lem :
    (raws : List Bytes)
    → length raws < 2 ^ 31
    → All (λ raw. length raw < 2 ^ 31) raws
    → Encodes 4 (write_byte_arrays raws) read_byte_arrays raws
unfolding write_byte_arrays read_byte_arrays
write_byte_arrays_lem = write_carbon_array_lem write_byte_array_lem

-- The first zero ends the bytes of a text that has none.
scan_zero-append : (raw rest : Bytes) → has_zero raw ≡ false → scan_zero (raw ++ 0 ∷ rest) ≡ ok raw
unfolding scan_zero
scan_zero-append [] rest h = refl
scan_zero-append (b ∷ raw) rest h = ground (arith, scan_zero-append raw rest)

past_zero : (raw done : Bytes) → length done + length raw + 1 ≡ length (done ++ (raw ++ 0 ∷ []))
past_zero raw done =
    omega (arith, length-append {0} done (raw ++ 0 ∷ []), length-append {0} raw (0 ∷ []))

read_raw_z-at :
    (raw done rest : Bytes)
    → has_zero raw ≡ false
    → read_raw_z (at done ((raw ++ 0 ∷ []) ++ rest)) ≡ ok (raw, at (done ++ (raw ++ 0 ∷ [])) rest)
unfolding read_raw_z
read_raw_z-at raw done rest h =
    let scanned : scan_zero (drop (length done) (done ++ ((raw ++ 0 ∷ []) ++ rest))) ≡ ok raw =
      rw (drop-append_self, append_assoc raw (0 ∷ []) rest) (scan_zero-append raw rest h) in
    rw scanned (λ i. ok (
      raw,
      record {
        contents = sym (append_assoc done (raw ++ 0 ∷ []) rest) i;
        offset = past_zero raw done i;
      },
    ))

-- The bytes before a zero, and the zero
raw_z_lem :
    (raw : Bytes) → has_zero raw ≡ false → Encodes 1 (write raw >> write1 (pos 0)) read_raw_z raw
unfolding write write1 ◌>>◌
raw_z_lem raw h = record {
  bytes = raw ++ 0 ∷ [];
  writes = λ b. rw append_assoc;
  reads = λ done rest. read_raw_z-at raw done rest h;
  size = omega (arith, length-append {0} raw (0 ∷ []));
}

-- A text with no zero and no surrogate
pub write_string_z_lem :
    (text : Text)
    → All IsScalar text
    → has_zero text ≡ false
    → Encodes 1 (write_string_z text) read_string_z text
unfolding write_string_z read_string_z
write_string_z_lem text h no_zero =
    let (raw, e) = encode_utf8_total text h in
    rw no_zero (
      Encodes-checked (encode_utf8 text) (λ x. write x >> write1 (pos 0)) e
        (Encodes-lift (raw_z_lem raw (encode_utf8-has_zero text no_zero e)) decode_utf8
          (decode_utf8-encode_utf8 text e)))

write_int_item_u64 :
    (v : ℤ) → IsUnsigned 64 v → Encodes 8 (write_int_item 8 false v) (read_int_item 8 false) v
unfolding write_int_item read_int_item
write_int_item_u64 v h = write8u_lem v h

pub write_int_array_u64 :
    (vs : List ℤ)
    → length vs < 2 ^ 31
    → All (IsUnsigned 64) vs
    → Encodes 4 (write_int_array vs 8 false) (read_int_array 8 false) vs
unfolding write_int_array read_int_array
write_int_array_u64 = write_carbon_array_lem write_int_item_u64
