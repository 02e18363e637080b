-- ===== src/Carbon/Codec/BigInts.antt =====
-- The compact form of a 256-bit integer: the bytes of its two's complement without the highest
-- ones that only repeat the sign, and a header with their number and the sign.
use phantasma_py.Prelude.{
  ◌≡◌, arith, suc, zero, ◌<◌, ◌^◌, ok, refl, true, ℤ, pure, pos, fits_bit_length, negsuc, IsSigned,
  lift, ◌>>=◌, subst,
}
use phantasma_py.Bytes.{to_le, twos_complement, from_twos_complement}
use phantasma_py.Bytes.LittleEndian.{from_twos_complement-twos_complement}
use phantasma_py.Carbon.Writer.{write1, write_word, big_int_word, write_big_int}
use phantasma_py.Carbon.Reader.{read_big_int_with_header, read_big_int}
use phantasma_py.Carbon.Codec.{Encodes, Encodes-stop}
use phantasma_py.Carbon.Codec.Numbers.{Encodes-checked, write1_lem}
use phantasma_py.Carbon.Codec.Words.{write_word_lem}

pub big_int_word-eq :
    (v : ℤ)
    → fits_bit_length 256 v ≡ true
    → (big_int_word v ≡ ok (to_le 32 (twos_complement 256 v))) × (twos_complement 256 v < 2 ^ 256)
unfolding big_int_word twos_complement
big_int_word-eq (pos n) h = (rw h, ground arith)
big_int_word-eq (negsuc n) h = (rw h, ground arith)

-- What the reader makes of a value: the signed number with the same bits.
abbrev pub wrap_256 : ℤ → ℤ
wrap_256 v = from_twos_complement 256 (twos_complement 256 v)

word_lem :
    (v : ℤ)
    → fits_bit_length 256 v ≡ true
    → Encodes 1 (lift (big_int_word v) >>= write_word) read_big_int (wrap_256 v)
word_lem v h =
    let (word, small) = big_int_word-eq v h in
    Encodes-checked (big_int_word v) write_word word (write_word_lem (twos_complement 256 v) small)

zero_lem : Encodes 1 (write1 (pos 0)) read_big_int (wrap_256 (pos 0))
unfolding read_big_int read_big_int_with_header pure from_twos_complement twos_complement
zero_lem = Encodes-stop (write1_lem 0 (omega arith)) read_big_int_with_header (λ reader. refl)

-- A value of at most 256 bits and a sign reads back with the sign of its highest bit.
pub write_big_int_lem :
    (v : ℤ) → fits_bit_length 256 v ≡ true → Encodes 1 (write_big_int v) read_big_int (wrap_256 v)
unfolding write_big_int
write_big_int_lem (pos zero) h = zero_lem
write_big_int_lem (pos (suc n)) h = word_lem (pos (suc n)) h
write_big_int_lem (negsuc n) h = word_lem (negsuc n) h

pub fits_of_IsSigned : (v : ℤ) → IsSigned 256 v → fits_bit_length 256 v ≡ true
fits_of_IsSigned (pos n) h = ground arith
fits_of_IsSigned (negsuc n) h = ground arith

-- A signed 256-bit value reads back as itself.
pub write_big_int_signed : (v : ℤ) → IsSigned 256 v → Encodes 1 (write_big_int v) read_big_int v
write_big_int_signed v h =
    subst (λ x. Encodes 1 (write_big_int v) read_big_int x)
      (from_twos_complement-twos_complement 256 v refl h)
      (write_big_int_lem v (fits_of_IsSigned v h))
