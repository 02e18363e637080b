-- ===== src/Carbon/Codec/Shrinking.antt =====
-- The reading methods that take bytes off and never put any back.
use phantasma_py.Carbon.Codec.Recursion.{
  Takes, Takes-bind, Takes-if, Takes-pure, Takes-weaken, Takes-lift, Takes-raise, read-Takes,
  read1-Takes, read_length-Takes,
}
use phantasma_py.Carbon.Reader.{
  read16, read32, read64, read_big_int, read_big_int_with_header, read_byte_array,
  read_carbon_array, read_each, read_fixed, read_int_array, read_int_item, read_raw_z, read_signed,
  read_string_z, read_unsigned, Read, read2, remaining, read4, read8, scan_zero, read8u,
}
use phantasma_py.Prelude.{
  ℕ, Bool, and_then-eq-ok, [], arith, ◌==◌, drop, suc, serialization, zero, ◌+◌, length, ◌≡◌, refl,
}

module _ {n : ℕ} where
  read_fixed-Takes : (size : ℕ) → Takes 0 n (read_fixed size) (read_fixed size)
  unfolding read_fixed
  read_fixed-Takes size =
      Takes-bind _ _ (Takes-weaken 0 (omega arith) (read-Takes size)) λ raw. Takes-lift _

  pub read16-Takes : Takes 0 n read16 read16
  unfolding read16
  read16-Takes = read_fixed-Takes 16

  pub read32-Takes : Takes 0 n read32 read32
  unfolding read32
  read32-Takes = read_fixed-Takes 32

  pub read64-Takes : Takes 0 n read64 read64
  unfolding read64
  read64-Takes = read_fixed-Takes 64

  pub read_number-Takes : (width : ℕ) → Takes 0 n (read_signed width) (read_signed width)
  unfolding read_signed
  read_number-Takes width =
      Takes-bind _ _ (Takes-weaken 0 (omega arith) (read-Takes width)) λ raw. Takes-pure _

  pub read_unsigned-Takes : (width : ℕ) → Takes 0 n (read_unsigned width) (read_unsigned width)
  unfolding read_unsigned
  read_unsigned-Takes width =
      Takes-bind _ _ (Takes-weaken 0 (omega arith) (read-Takes width)) λ raw. Takes-pure _

  read_big_int_with_header-Takes :
      (header : ℕ) → Takes 0 n (read_big_int_with_header header) (read_big_int_with_header header)
  unfolding read_big_int_with_header
  read_big_int_with_header-Takes header = Takes-if (header == 0) (Takes-pure _) (
      Takes-if _ (Takes-raise 0 serialization)
        (Takes-bind _ _ (Takes-weaken 0 (omega arith) (read-Takes _)) λ raw. Takes-lift _))

  pub read_big_int-Takes : Takes 0 n read_big_int read_big_int
  unfolding read_big_int
  read_big_int-Takes =
      Takes-weaken 0 (omega arith) (Takes-bind _ _ read1-Takes read_big_int_with_header-Takes)

  read_raw_z-Takes : Takes 0 n read_raw_z read_raw_z
  unfolding read_raw_z remaining
  read_raw_z-Takes = record {
    agrees = λ s few. refl;
    shrinks = λ s s' v few e.
        let (raw, e', e″) = and_then-eq-ok (scan_zero (drop s.offset s.contents)) _ e in
        let same_reader : record s { offset = s.offset + length raw + 1 } ≡ s' = cc in
        rw (← same_reader) (omega arith);
  }

  pub read_string_z-Takes : Takes 0 n read_string_z read_string_z
  unfolding read_string_z
  read_string_z-Takes = Takes-bind _ _ read_raw_z-Takes λ raw. Takes-lift _

  read_each-Takes :
      {A : Type 0} {r : Read A} (count : ℕ)
      → Takes 0 n r r
      → Takes 0 n (read_each count r) (read_each count r)
  unfolding read_each
  read_each-Takes zero t = Takes-pure []
  read_each-Takes (suc count) t =
      Takes-bind _ _ t λ x. Takes-bind _ _ (read_each-Takes count t) λ xs. Takes-pure _

  pub read_carbon_array-Takes :
      {A : Type 0} {r : Read A}
      → Takes 0 n r r
      → Takes 0 n (read_carbon_array r) (read_carbon_array r)
  unfolding read_carbon_array
  read_carbon_array-Takes t =
      Takes-weaken 0 (omega arith)
        (Takes-bind _ _ read_length-Takes λ count. read_each-Takes count t)

  pub read_byte_array-Takes : Takes 0 n read_byte_array read_byte_array
  unfolding read_byte_array
  read_byte_array-Takes =
      Takes-weaken 0 (omega arith)
        (Takes-bind _ _ read_length-Takes λ count. Takes-weaken 0 (omega arith) (read-Takes count))

  read_int_item-Takes :
      (width : ℕ) (signed : Bool)
      → Takes 0 n (read_int_item width signed) (read_int_item width signed)
  unfolding read_int_item read2 read4 read8 read8u
  read_int_item-Takes width signed =
      Takes-if (width == 1)
        (Takes-weaken 0 (omega arith) (Takes-bind _ _ read1-Takes λ k. Takes-pure _))
        (Takes-if (width == 2) (read_number-Takes 2) (
          Takes-if (width == 4) (read_number-Takes 4) (
            Takes-if (width == 8) (Takes-if signed (read_number-Takes 8) (read_unsigned-Takes 8))
              (Takes-raise 0 serialization))))

  pub read_int_array-Takes :
      (width : ℕ) (signed : Bool)
      → Takes 0 n (read_int_array width signed) (read_int_array width signed)
  unfolding read_int_array
  read_int_array-Takes width signed = read_carbon_array-Takes (read_int_item-Takes width signed)
