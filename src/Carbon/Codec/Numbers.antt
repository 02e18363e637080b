-- ===== src/Carbon/Codec/Numbers.antt =====
-- The numbers and the byte strings of a fixed length: what is written reads back.
use phantasma_py.Prelude.{
  ℕ, ◌≡◌, length, ℤ, ◌<◌, ◌>>=◌, arith, lift, pos, subst, ◌^◌, le→ltb, ◌*◌, ◌-◌, ◌∷◌, IsSigned,
  IsUnsigned, [], get_or, ok, Result, negsuc, pure, refl, ap, suc, ◌∙◌,
}
use phantasma_py.Bytes.{
  Bytes, to_le, from_le, twos_complement, from_twos_complement, check_unsigned, check_signed,
}
use phantasma_py.Bytes.LittleEndian.{
  length-to_le, from_le-to_le, from_twos_complement-twos_complement, twos_complement-lt,
}
use phantasma_py.Carbon.Writer.{
  write, write1, write2, write4, write4u, write8, write8u, write16, write32, write64, write_signed,
  write_unsigned, write_fixed, fixed_bytes,
}
use phantasma_py.Carbon.Reader.{
  Read, read, read1, read1_int, read2, read4, read4u, read8, read8u, read16, read32, read64,
  read_signed, read_unsigned, read_fixed,
}
use phantasma_py.Carbon.Codec.{Encodes, read-at, Encodes-lift, Encodes-last, Write}

-- Raw bytes, read by their number
pub write_lem : (raw : Bytes) → Encodes (length raw) (write raw) (read (length raw)) raw
unfolding write
write_lem raw = record {
  bytes = raw;
  writes = λ b. refl;
  reads = λ done rest. read-at done raw rest;
  size = omega arith;
}

-- The same where the number of the bytes is known.
pub write-length : (n : ℕ) (raw : Bytes) → length raw ≡ n → Encodes n (write raw) (read n) raw
write-length n raw h = subst (λ m. Encodes m (write raw) (read m) raw) h (write_lem raw)

-- A method that checks its argument and writes what the check returned.
pub Encodes-checked :
    {A B : Type 0} {k : ℕ} (check : Result B) (put : B → Write) {b : B} {r : Read A} {v : A}
    → check ≡ ok b
    → Encodes k (put b) r v
    → Encodes k (lift check >>= put) r v
unfolding ◌>>=◌ lift
Encodes-checked check put h e = record {
  bytes = e.bytes;
  writes = λ w. rw h (e.writes w);
  reads = e.reads;
  size = e.size;
}

pub write1_lem : (n : ℕ) → n < 256 → Encodes 1 (write1 (pos n)) read1 n
unfolding write1 read1
write1_lem n h =
    rw (le→ltb 0xff n (omega arith)) (Encodes-last (write_lem (n ∷ [])) (λ raw. get_or raw 0 0))

pub check_signed-eq-ok : (bits : ℕ) (v : ℤ) → IsSigned bits v → check_signed bits v ≡ ok v
unfolding check_signed
check_signed-eq-ok bits (pos n) h = ground arith
check_signed-eq-ok bits (negsuc n) h = ground arith

check_unsigned-eq-ok : (bits n : ℕ) → n < 2 ^ bits → check_unsigned bits (pos n) ≡ ok n
unfolding check_unsigned
check_unsigned-eq-ok bits n h = ground arith

module _ (width : ℕ) (doubles : 2 ^ (8 * width) ≡ 2 * 2 ^ (8 * width - 1))
    (bytes : 2 ^ (8 * width) ≡ 256 ^ width) where
  to_le-read :
      {A : Type 0} (n : ℕ) (g : ℕ → A) {v : A}
      → n < 2 ^ (8 * width)
      → g n ≡ v
      → Encodes width (write (to_le width n)) (read width >>= λ raw. pure (g (from_le raw))) v
  to_le-read {A} n g h e =
      subst
        (λ (v : A).
          Encodes width (write (to_le width n)) (read width >>= λ raw. pure (g (from_le raw))) v)
        (ap g (from_le-to_le width n (omega arith)) ∙ e)
        (Encodes-last (write-length width (to_le width n) (length-to_le width n))
          (λ raw. g (from_le raw)))

  pub write_signed_lem :
      (v : ℤ) → IsSigned (8 * width) v → Encodes width (write_signed width v) (read_signed width) v
  unfolding write_signed read_signed
  write_signed_lem v h =
      Encodes-checked _ (λ x. write (to_le width (twos_complement (8 * width) x)))
        (check_signed-eq-ok _ v h)
        (to_le-read (twos_complement (8 * width) v) (from_twos_complement (8 * width))
          (twos_complement-lt _ v doubles h) (from_twos_complement-twos_complement _ v doubles h))

  pub write_unsigned_lem :
      (v : ℤ)
      → IsUnsigned (8 * width) v
      → Encodes width (write_unsigned width v) (read_unsigned width) v
  unfolding write_unsigned read_unsigned
  write_unsigned_lem (pos n) h =
      Encodes-checked _ (λ x. write (to_le width x)) (check_unsigned-eq-ok _ n h)
        (to_le-read n pos h refl)
  write_unsigned_lem (negsuc n) h = absurd h

pub write2_lem : (v : ℤ) → IsSigned 16 v → Encodes 2 (write2 v) read2 v
unfolding write2 read2
write2_lem = write_signed_lem 2 refl refl

pub write4_lem : (v : ℤ) → IsSigned 32 v → Encodes 4 (write4 v) read4 v
unfolding write4 read4
write4_lem = write_signed_lem 4 refl refl

pub write4u_lem : (v : ℤ) → IsUnsigned 32 v → Encodes 4 (write4u v) read4u v
unfolding write4u read4u
write4u_lem = write_unsigned_lem 4 refl refl

pub write8_lem : (v : ℤ) → IsSigned 64 v → Encodes 8 (write8 v) read8 v
unfolding write8 read8
write8_lem = write_signed_lem 8 refl refl

pub write8u_lem : (v : ℤ) → IsUnsigned 64 v → Encodes 8 (write8u v) read8u v
unfolding write8u read8u
write8u_lem = write_unsigned_lem 8 refl refl

pub fixed_bytes-eq-ok :
    (n : ℕ) (raw : Bytes) → length raw ≡ suc n → fixed_bytes (suc n) raw ≡ ok raw
unfolding fixed_bytes
fixed_bytes-eq-ok n [] h = absurd (omega arith)
fixed_bytes-eq-ok n (b ∷ raw) h = ground arith

write_fixed_lem :
    (n : ℕ) (raw : Bytes)
    → length raw ≡ suc n
    → Encodes (suc n) (write_fixed (suc n) raw) (read_fixed (suc n)) raw
unfolding write_fixed read_fixed
write_fixed_lem n raw h =
    Encodes-checked _ write (fixed_bytes-eq-ok n raw h)
      (Encodes-lift (write-length (suc n) raw h) (fixed_bytes (suc n)) (fixed_bytes-eq-ok n raw h))

pub write16_lem : (raw : Bytes) → length raw ≡ 16 → Encodes 16 (write16 raw) read16 raw
unfolding write16 read16
write16_lem = write_fixed_lem 15

pub write32_lem : (raw : Bytes) → length raw ≡ 32 → Encodes 32 (write32 raw) read32 raw
unfolding write32 read32
write32_lem = write_fixed_lem 31

pub write64_lem : (raw : Bytes) → length raw ≡ 64 → Encodes 64 (write64 raw) read64 raw
unfolding write64 read64
write64_lem = write_fixed_lem 63

pub write1_int_lem : (v : ℤ) → IsUnsigned 8 v → Encodes 1 (write1 v) read1_int v
unfolding read1_int
write1_int_lem (pos n) h = Encodes-last (write1_lem n h) pos
write1_int_lem (negsuc n) h = absurd h
