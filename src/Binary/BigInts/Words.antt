-- ===== src/Binary/BigInts/Words.antt =====
-- A word of an integer is read as the integer, and so is one that is longer by bytes of its sign.
use phantasma_py.Binary.RoundTrip.{write_var_bytes_lem}
use phantasma_py.Carbon.Codec.Numbers.{Encodes-checked}
use phantasma_py.Carbon.Codec.{Encodes, Encodes-last}
use phantasma_py.Binary.{max_array_size, write_var_bytes, read_var_bytes}
use phantasma_py.Binary.BigInts.{
  big_int_to_csharp_bytes, big_int_to_vm_bytes, bit_length, halvings, magnitude, padding,
  vm_bytes_to_big_int, write_big_integer, last_byte, read_big_integer, signed_to_bytes,
}
use phantasma_py.Bytes.LittleEndian.{
  from_twos_complement-twos_complement, length-to_le, twos_complement-lt, from_le-to_le,
}
use native.Mathlib.Nat.{pow-suc, pow-le-pow_right}
use phantasma_py.Bytes.{Bytes, from_twos_complement, from_le, to_le, twos_complement}
use phantasma_py.Prelude.{
  pos, negsuc, ℕ, ℤ, max, suc, ◌<◌, ◌∷◌, ◌≤◌, length, ok, ◌+◌, ◌/◌, ◌^◌, [], zero, ◌*◌, ◌++◌, ◌-◌,
  ◌==◌, arith, not, ◌≡◌, lt→ltb, refl, ◌∙◌, ap, IsSigned, length-append, append-nil, if_elim, subst,
  append_assoc, ◌>>=◌, pure,
}

halvings-lt : (k n : ℕ) → n ≤ k → n < 2 ^ halvings k n
unfolding halvings
halvings-lt zero n h = omega arith
halvings-lt (suc k) zero h = omega arith
halvings-lt (suc k) (suc n) h =
    omega (arith, halvings-lt k (suc n / 2) (omega arith), pow-suc 2 (halvings k (suc n / 2)))

-- The width of the shortest word, in bytes
word_width : ℤ → ℕ
word_width value = max 1 ((bit_length (magnitude value) + 1 + 7) / 8)

magnitude-lt : (value : ℤ) → magnitude value < 2 ^ (8 * word_width value - 1)
unfolding word_width bit_length
magnitude-lt value =
    let m = magnitude value in
    let longer : 2 ^ halvings m m ≤ 2 ^ (8 * max 1 ((halvings m m + 1 + 7) / 8) - 1) =
      pow-le-pow_right (omega arith) (omega arith) in
    omega (arith, halvings-lt m m (omega arith), longer)

csharp_word : ℤ → Bytes
csharp_word value = to_le (word_width value) (twos_complement (8 * word_width value) value)

big_int_to_csharp_bytes-eq : (value : ℤ) → big_int_to_csharp_bytes value ≡ ok (csharp_word value)
unfolding big_int_to_csharp_bytes csharp_word signed_to_bytes word_width bit_length halvings
    magnitude to_le twos_complement
big_int_to_csharp_bytes-eq (pos zero) = refl
big_int_to_csharp_bytes-eq (pos (suc n)) = rw (lt→ltb _ _ (magnitude-lt (pos (suc n))))
big_int_to_csharp_bytes-eq (negsuc n) = rw (lt→ltb _ _ (magnitude-lt (negsuc n)))

from_le-zero : (raw : Bytes) → from_le (raw ++ 0 ∷ []) ≡ from_le raw
unfolding from_le
from_le-zero [] = refl
from_le-zero (b ∷ raw) = omega (arith, from_le-zero raw)

from_le-ones : (raw : Bytes) → from_le (raw ++ 0xff ∷ []) ≡ from_le raw + 255 * 256 ^ length raw
unfolding from_le
from_le-ones [] = omega arith
from_le-ones (b ∷ raw) = omega (arith, from_le-ones raw, pow-suc 256 (length raw))

pow_of_byte : (m : ℕ) → 2 ^ (8 + m) ≡ 256 * 2 ^ m
pow_of_byte m =
    let e : 8 + m ≡ suc (suc (suc (suc (suc (suc (suc (suc m))))))) = omega arith in
    rw e (
      omega (
        arith,
        pow-suc 2 m,
        pow-suc 2 (suc m),
        pow-suc 2 (suc (suc m)),
        pow-suc 2 (suc (suc (suc m))),
        pow-suc 2 (suc (suc (suc (suc m)))),
        pow-suc 2 (suc (suc (suc (suc (suc m))))),
        pow-suc 2 (suc (suc (suc (suc (suc (suc m)))))),
        pow-suc 2 (suc (suc (suc (suc (suc (suc (suc m))))))),
      ))

pow_of_bytes : (w : ℕ) → 2 ^ (8 * w) ≡ 256 ^ w
pow_of_bytes zero = omega arith
pow_of_bytes (suc w) =
    let e : 8 * suc w ≡ 8 + 8 * w = omega arith in
    rw e (omega (arith, pow_of_byte (8 * w), pow_of_bytes w, pow-suc 256 w))

pow_half : (m : ℕ) → 1 ≤ m → 2 ^ m ≡ 2 * 2 ^ (m - 1)
pow_half zero h = absurd (omega arith)
pow_half (suc m) h = let e : suc m - 1 ≡ m = omega arith in rw e (omega (arith, pow-suc 2 m))

-- The sign of a value, as a byte
sign_byte : ℤ → ℕ
sign_byte (pos n) = 0
sign_byte (negsuc n) = 0xff

-- The bytes are a word of the value, with its sign.
record IsWord (value : ℤ) (raw : Bytes) : Type 0 where
  some_bytes : 1 ≤ length raw
  fits : magnitude value < 2 ^ (8 * length raw - 1)
  word : from_le raw ≡ twos_complement (8 * length raw) value

vm_bytes_to_big_int-eq :
    (raw : Bytes)
    → 1 ≤ length raw
    → vm_bytes_to_big_int raw ≡ from_twos_complement (8 * length raw) (from_le raw)
unfolding vm_bytes_to_big_int
vm_bytes_to_big_int-eq [] h = absurd (omega arith)
vm_bytes_to_big_int-eq (b ∷ raw) h = refl

magnitude-IsSigned : (bits : ℕ) (value : ℤ) → magnitude value < 2 ^ (bits - 1) → IsSigned bits value
unfolding magnitude
magnitude-IsSigned bits (pos n) h = h
magnitude-IsSigned bits (negsuc n) h = h

IsWord-read : (value : ℤ) (raw : Bytes) → IsWord value raw → vm_bytes_to_big_int raw ≡ value
IsWord-read value raw h =
    vm_bytes_to_big_int-eq raw h.some_bytes
    ∙ ap (from_twos_complement (8 * length raw)) h.word
    ∙ from_twos_complement-twos_complement (8 * length raw) value
        (pow_half (8 * length raw) (omega (arith, h.some_bytes)))
        (magnitude-IsSigned (8 * length raw) value h.fits)

-- A byte more that repeats the sign
longer_word :
    (value : ℤ) (raw : Bytes)
    → IsWord value raw
    → from_le (raw ++ sign_byte value ∷ []) ≡ twos_complement (8 + 8 * length raw) value
unfolding twos_complement sign_byte magnitude
longer_word (pos n) raw h = from_le-zero raw ∙ h.word
longer_word (negsuc n) raw h = omega (
  arith,
  from_le-ones raw,
  h.word,
  h.fits,
  h.some_bytes,
  pow_of_byte (8 * length raw),
  pow_of_bytes (length raw),
  pow_half (8 * length raw) (omega (arith, h.some_bytes)),
)

IsWord-append :
    (value : ℤ) (raw : Bytes) → IsWord value raw → IsWord value (raw ++ sign_byte value ∷ [])
IsWord-append value raw h =
    let longer : length (raw ++ sign_byte value ∷ []) ≡ length raw + 1 =
      omega (arith, length-append {0} raw (sign_byte value ∷ [])) in
    let bits : 8 * length (raw ++ sign_byte value ∷ []) ≡ 8 + 8 * length raw =
      omega (arith, longer) in
    let wider : 2 ^ (8 * length raw - 1) ≤ 2 ^ (8 + 8 * length raw - 1) =
      pow-le-pow_right (omega arith) (omega arith) in
    record {
      some_bytes = omega (arith, longer);
      fits = rw bits (omega (arith, h.fits, wider));
      word = rw bits (longer_word value raw h);
    }

word_width-positive : (value : ℤ) → 1 ≤ word_width value
unfolding word_width
word_width-positive value = omega arith

csharp_word-IsWord : (value : ℤ) → IsWord value (csharp_word value)
unfolding csharp_word
csharp_word-IsWord value =
    let w = word_width value in
    let size = length-to_le w (twos_complement (8 * w) value) in
    let small : twos_complement (8 * w) value < 2 ^ (8 * w) =
      twos_complement-lt (8 * w) value (pow_half (8 * w) (omega (arith, word_width-positive value)))
        (magnitude-IsSigned (8 * w) value (magnitude-lt value)) in
    record {
      some_bytes = omega (arith, size, word_width-positive value);
      fits = rw size (magnitude-lt value);
      word =
          rw size (
            from_le-to_le w (twos_complement (8 * w) value) (omega (arith, small, pow_of_bytes w)));
    }

twice_longer :
    (value : ℤ) (raw : Bytes)
    → IsWord value raw
    → IsWord value (raw ++ sign_byte value ∷ sign_byte value ∷ [])
twice_longer value raw h =
    subst (IsWord value) (append_assoc raw (sign_byte value ∷ []) (sign_byte value ∷ []))
      (IsWord-append value (raw ++ sign_byte value ∷ []) (IsWord-append value raw h))

unpadded : (value : ℤ) (raw : Bytes) → IsWord value raw → IsWord value (raw ++ [])
unpadded value raw h = rw append-nil h

padded-IsWord :
    (value : ℤ) (raw : Bytes) → IsWord value raw → IsWord value (raw ++ padding value raw)
unfolding padding sign_byte
padded-IsWord (pos n) raw h =
    if_elim (λ more. IsWord (pos n) (raw ++ more)) (not (last_byte raw == 0))
      (IsWord-append (pos n) raw h) (unpadded (pos n) raw h)
padded-IsWord (negsuc n) raw h =
    if_elim (λ more. IsWord (negsuc n) (raw ++ more)) (length raw == 1)
      (twice_longer (negsuc n) raw h)
      (if_elim (λ more. IsWord (negsuc n) (raw ++ more)) (last_byte raw == 0xff)
        (IsWord-append (negsuc n) raw h) (unpadded (negsuc n) raw h))

-- Every integer has a word of C#'s and a padded word, and both are read as the integer.
pub vm_bytes_to_big_int-words :
    (value : ℤ)
    → ((raw : Bytes) × (big_int_to_csharp_bytes value ≡ ok raw) × (vm_bytes_to_big_int raw ≡ value))
      × ((raw : Bytes) × (big_int_to_vm_bytes value ≡ ok raw) × (vm_bytes_to_big_int raw ≡ value))
unfolding big_int_to_vm_bytes
vm_bytes_to_big_int-words value =
    let raw = csharp_word value in
    let word = csharp_word-IsWord value in
    (
      (raw, big_int_to_csharp_bytes-eq value, IsWord-read value raw word),
      (
        raw ++ padding value raw,
        rw (big_int_to_csharp_bytes-eq value),
        IsWord-read value (raw ++ padding value raw) (padded-IsWord value raw word),
      ),
    )

-- A big integer whose padded word is not too long for the reader
pub write_big_integer_lem :
    (value : ℤ) {raw : Bytes}
    → big_int_to_vm_bytes value ≡ ok raw
    → length raw ≤ max_array_size
    → Encodes 1 (write_big_integer value) read_big_integer value
unfolding write_big_integer read_big_integer
write_big_integer_lem value {raw} e short =
    let (_, (raw', e', read_back)) = vm_bytes_to_big_int-words value in
    let same_word : raw' ≡ raw = cc in
    Encodes-checked (big_int_to_vm_bytes value) write_var_bytes e (
      subst
        (λ v.
          Encodes 1 (write_var_bytes raw)
            (read_var_bytes max_array_size >>= λ x. pure (vm_bytes_to_big_int x)) v)
        (rw (← same_word) read_back)
        (Encodes-last (write_var_bytes_lem max_array_size raw short (omega arith))
          vm_bytes_to_big_int))
