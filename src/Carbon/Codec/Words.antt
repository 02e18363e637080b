-- ===== src/Carbon/Codec/Words.antt =====
-- The bytes of a 32-byte word that are written behind the header: those that do not only repeat
-- the sign. With the header they give the word back.
use Prim.Native.Nat.{bit_and}
use native.Mathlib.Nat.{sub_self, div-div-eq-div-mul, pow-suc}
use phantasma_py.Prelude.{
  ℕ, ◌≡◌, ◌≤◌, length, take, ◌++◌, replicate, ◌-◌, arith, suc, Bool-cases, zero, ◌∷◌, [], get_or,
  replicate-suc, ◌==◌, append_assoc, Bool, inl, ◌<◌, if◌then◌else◌, ◌+◌, ◌/◌, ◌^◌, ◌∙◌, ok,
  take-suc, ◌%◌, ==_iff, ap, inr, append-nil, refl, leb, true, ℤ, pure, ◌*◌, pos, false, le→ltb,
  length-take, ◌>>◌, take_of_length-le, All, All-take,
}
use phantasma_py.Bytes.{Bytes, to_le, from_le, from_twos_complement}
use phantasma_py.Bytes.LittleEndian.{to_le-IsByte, IsByte, length-to_le, from_le-to_le}
use phantasma_py.Bytes.Bits.{bit_and_3f, bit_and_40, bit_and_80, bit_or_80}
use phantasma_py.Carbon.Writer.{
  write, write1, trimmed_length, word_fill, big_int_header, write_word,
}
use phantasma_py.Carbon.Reader.{
  int_from_word, word_of, check_word, read_big_int_with_header, read_big_int,
}
use phantasma_py.Carbon.Codec.{Encodes, Encodes-bind, Encodes-lift, Encodes-weaken}
use phantasma_py.Carbon.Codec.Numbers.{write1_lem, write-length}

-- What is cut off are copies of `fill`.
trimmed_length-le : (word : Bytes) (fill n : ℕ) → trimmed_length word fill n ≤ n
unfolding trimmed_length
trimmed_length-le word fill zero = omega arith
trimmed_length-le word fill (suc n) = ground (arith, trimmed_length-le word fill n)

module _ (word : Bytes) (fill : ℕ) where
  restored : ℕ → ℕ → Bytes
  restored k n = take k word ++ replicate (n - k) fill

  restored-suc : (k n : ℕ) → k ≤ n → restored k (suc n) ≡ restored k n ++ fill ∷ []
  unfolding restored
  restored-suc k n h =
      let e : suc n - k ≡ suc (n - k) = omega arith in
      rw (e, replicate-suc (n - k) fill, append_assoc)

  restored_step :
      (n : ℕ)
      → n < length word
      → restored (trimmed_length word fill n) n ≡ take n word
      → restored (trimmed_length word fill (suc n)) (suc n) ≡ take (suc n) word
  restored_step n h ih = elim (Bool-cases (get_or word n 0 == fill)) [
    | inl same ↦
        unfold trimmed_length in
        rw same (
          restored-suc _ n (trimmed_length-le word fill n)
          ∙ rw (ih, take-suc n word 0 h, (==_iff _ _).0 same))
    | inr other ↦ unfold trimmed_length restored in rw other (rw (sub_self (suc n)) (append-nil _))
  ]

  restored_lem : (n : ℕ) → n ≤ length word → restored (trimmed_length word fill n) n ≡ take n word
  restored_lem zero h = unfold restored trimmed_length in refl
  restored_lem (suc n) h = restored_step n h (restored_lem n (omega arith))

get_or-to_le : (width n i : ℕ) → i < width → get_or (to_le width n) i 0 ≡ n / 256 ^ i % 256
unfolding to_le
get_or-to_le zero n i h = absurd (omega arith)
get_or-to_le (suc width) n zero h = omega arith
get_or-to_le (suc width) n (suc i) h =
    get_or-to_le width (n / 256) i (omega arith)
    ∙ ap (λ m. m % 256)
        (div-div-eq-div-mul n 256 (256 ^ i) ∙ ap (λ m. n / m) omega (arith, pow-suc 256 i))

abbrev pub is_high : ℕ → Bool
is_high u = leb (2 ^ 255) u

abbrev pub sign_fill : Bool → ℕ
sign_fill negative = if negative then 0xff else 0

abbrev pub sign_bit : Bool → ℕ
sign_bit negative = if negative then 0x80 else 0

-- The highest bit of the last byte is the sign.
pub top_bit : (u : ℕ) → u < 2 ^ 256 → bit_and (get_or (to_le 32 u) 31 0) 0x80 ≡ sign_bit (is_high u)
top_bit u h =
    rw (get_or-to_le 32 u 31 (omega arith), bit_and_80 (u / 256 ^ 31 % 256) (omega arith))
      (ground arith)

word_fill-to_le : (u : ℕ) → u < 2 ^ 256 → word_fill (to_le 32 u) ≡ sign_fill (is_high u)
unfolding word_fill
word_fill-to_le u h = rw (top_bit u h) (ground arith)

pub int_from_word-to_le :
    (u : ℕ) → u < 2 ^ 256 → int_from_word (to_le 32 u) ≡ ok (from_twos_complement 256 u)
unfolding int_from_word from_twos_complement
int_from_word-to_le u h = rw (length-to_le 32 u, top_bit u h, from_le-to_le 32 u h) (ground arith)

big_int_header-eq :
    (n : ℕ) (negative : Bool)
    → n ≤ 32
    → big_int_header n (sign_fill negative) ≡ n + sign_bit negative
unfolding big_int_header
big_int_header-eq n true h =
    rw (bit_and_3f n (omega arith), bit_or_80 (n % 64) (omega arith)) (omega arith)
big_int_header-eq n false h = rw (bit_and_3f n (omega arith)) (omega arith)

zeroes-value : int_from_word (replicate 32 0) ≡ ok (pos 0)
unfolding int_from_word from_le
zeroes-value = refl

-- The word of zeroes: nothing is written behind the header, and nothing is read.
zero_word :
    (raw word : Bytes) (v : ℤ)
    → length raw ≡ 0
    → raw ++ replicate 32 0 ≡ word
    → int_from_word word ≡ ok v
    → Encodes 0 (write raw) (pure (pos 0)) v
zero_word (b ∷ raw) word v size completes value = absurd (omega arith)
zero_word [] word v size completes value =
    let value' : int_from_word (replicate 32 0) ≡ ok v = rw completes value in
    let e : pos 0 ≡ v = cc (value', zeroes-value) in
    rw (← e) (
      unfold write pure in
      record {
        bytes = [];
        writes = λ b. rw append-nil;
        reads = λ done rest. rw append-nil;
        size = omega arith;
      })

-- Any bytes that the fill completes to the word
module _ (word raw : Bytes) (n : ℕ) (negative : Bool) (v : ℤ) (fits : n ≤ 32)
    (size : length raw ≡ n) (completes : raw ++ replicate (32 - n) (sign_fill negative) ≡ word)
    (sign : bit_and (get_or word 31 0) 0x80 ≡ sign_bit negative)
    (value : int_from_word word ≡ ok v) where
  header_bits : bit_and (n + sign_bit negative) 0x80 ≡ sign_bit negative
  header_bits = rw (bit_and_80 (n + sign_bit negative) (ground arith)) (ground arith)

  check_word-word_of :
      check_word (n + sign_bit negative) (word_of (n + sign_bit negative) n raw) ≡ ok v
  unfolding check_word word_of
  check_word-word_of = rw (header_bits) (
      let fill-eq : (if sign_bit negative == 0 then 0x00 else 0xff) ≡ sign_fill negative =
        ground arith in
      rw (fill-eq, completes, sign, value) (ground arith))

  unmasked : bit_and (n + sign_bit negative) 0x3f ≡ n
  unmasked = rw (bit_and_3f (n + sign_bit negative) (ground arith)) (ground arith)

  plain : ((n + sign_bit negative) / 64 % 2 * 64 == 0) ≡ true
  plain = ground arith

  pub read_big_int_with_header_lem :
      Encodes 0 (write raw) (read_big_int_with_header (n + sign_bit negative)) v
  unfolding read_big_int_with_header
  read_big_int_with_header_lem = elim (Bool-cases (n + sign_bit negative == 0)) [
    | inl zeroes ↦ rw zeroes (
        zero_word raw word v (ground arith)
          (let e : sign_fill negative ≡ 0 = ground arith in
            let e' : n ≡ 0 = ground arith in rw (e, e') at completes)
          value)
    | inr other ↦
        rw
          (
            other,
            unmasked,
            bit_and_40 (n + sign_bit negative) (ground arith),
            plain,
            le→ltb 32 n fits,
          )
          (Encodes-weaken 0 (omega arith) (
            Encodes-lift (write-length n raw size)
              (λ x. check_word (n + sign_bit negative) (word_of (n + sign_bit negative) n x))
              check_word-word_of))
  ]

-- The number of bytes that are written of a word
module _ (u : ℕ) (h : u < 2 ^ 256) where
  pub significant : ℕ
  significant = trimmed_length (to_le 32 u) (sign_fill (is_high u)) 32

  pub significant-le : significant ≤ 32
  unfolding significant
  significant-le = trimmed_length-le (to_le 32 u) (sign_fill (is_high u)) 32

  pub significant_bytes : Bytes
  significant_bytes = take significant (to_le 32 u)

  pub length-significant_bytes : length significant_bytes ≡ significant
  unfolding significant_bytes
  length-significant_bytes =
      length-take significant (to_le 32 u) (omega (arith, significant-le, length-to_le 32 u))

  pub significant_bytes-IsByte : All IsByte significant_bytes
  unfolding significant_bytes
  significant_bytes-IsByte = All-take IsByte significant (to_le 32 u) (to_le-IsByte 32 u)

  pub significant_bytes-completes :
      significant_bytes ++ replicate (32 - significant) (sign_fill (is_high u)) ≡ to_le 32 u
  unfolding significant_bytes significant restored
  significant_bytes-completes =
      restored_lem (to_le 32 u) (sign_fill (is_high u)) 32 (omega (arith, length-to_le 32 u))
      ∙ take_of_length-le 32 (to_le 32 u) (omega (arith, length-to_le 32 u))

  pub write_word-eq :
      write_word (to_le 32 u)
      ≡ (write1 (pos (significant + sign_bit (is_high u))) >> write significant_bytes)
  unfolding write_word significant_bytes significant
  write_word-eq =
      rw (word_fill-to_le u h, length-to_le 32 u, big_int_header-eq _ (is_high u) significant-le)

  pub header-lt : significant + sign_bit (is_high u) < 256
  header-lt = ground (arith, significant-le)

  pub significant-read :
      Encodes 0
        (write significant_bytes)
        (read_big_int_with_header (significant + sign_bit (is_high u)))
        (from_twos_complement 256 u)
  significant-read =
      read_big_int_with_header_lem (to_le 32 u) significant_bytes significant (is_high u) _
        significant-le length-significant_bytes significant_bytes-completes (top_bit u h)
        (int_from_word-to_le u h)

  pub write_word_lem : Encodes 1 (write_word (to_le 32 u)) read_big_int (from_twos_complement 256 u)
  unfolding read_big_int
  write_word_lem =
      rw write_word-eq (
        Encodes-bind (write1_lem (significant + sign_bit (is_high u)) header-lt) _ significant-read)
