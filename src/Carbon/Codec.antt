-- ===== src/Carbon/Codec.antt =====
-- `serialize` and `deserialize` of carbon.py, and what it means that a reading method undoes a
-- writing method, with a rule for each way in which the methods are put together.
pub mod Numbers
pub mod Arrays
pub mod Words
pub mod BigInts
pub mod Recursion
pub mod SignedArrays
pub mod Shrinking
use phantasma_py.Prelude.{
  ℕ, ◌≡◌, ok, err, [], length, pure, ◌++◌, ◌>>=◌, ◌∷◌, append-nil, arith, lift, ltb, serialization,
  ◌+◌, ◌>>◌, ◌≤◌, append_assoc, false, length-append, sym, le→ltb, drop-append_self,
  take-append_self, Result, ap, and_then, ◌∙◌,
}
use phantasma_py.Bytes.{Bytes}
use phantasma_py.Carbon.Writer.{CarbonWriter, Write}
use phantasma_py.Carbon.Reader.{CarbonReader, Read, remaining, read, assert_eof}

abbrev pub new_writer : CarbonWriter
new_writer = record { buffer = [] }

abbrev pub new_reader : Bytes → CarbonReader
new_reader raw = record { contents = raw; offset = 0 }

-- The argument is the value's `write_carbon`.
unfoldable pub serialize : Write → Result Bytes
serialize write_carbon = and_then (write_carbon new_writer) (λ p. ok p.1.buffer)

-- The argument is the class's `read_carbon`.
unfoldable pub deserialize : {A : Type 0} → Read A → Bytes → Result A
deserialize read_carbon raw =
    let whole = (do value ← read_carbon; assert_eof; pure value) in
    and_then (whole (new_reader raw)) (λ p. ok p.0)

-- The value is written, what is written reads back as the value, and with anything behind it it is
-- refused.
abbrev pub RoundTrips : {A : Type 0} → Write → Read A → A → Type 0
RoundTrips w r v =
    (raw : Bytes) × (serialize w ≡ ok raw)
    × (deserialize r raw ≡ ok v)
    × ((x : ℕ) (extra : Bytes) → deserialize r (raw ++ x ∷ extra) ≡ err serialization)

-- A reader that has passed `done` and has `rest` before it.
abbrev pub at : Bytes → Bytes → CarbonReader
at done rest = record { contents = done ++ rest; offset = length done }

-- `w` appends bytes, `least` of them or more, and `r` takes these bytes off and returns `v`.
pub record Encodes {A : Type 0} (least : ℕ) (w : Write) (r : Read A) (v : A) : Type 0 where
  pub bytes : Bytes
  pub writes : (b : CarbonWriter) → w b ≡ ok (tt, record { buffer = b.buffer ++ bytes })
  pub reads : (done rest : Bytes) → r (at done (bytes ++ rest)) ≡ ok (v, at (done ++ bytes) rest)
  pub size : least ≤ length bytes

pub remaining-at : (done rest : Bytes) → remaining (at done rest) ≡ length rest
unfolding remaining
remaining-at done rest = omega (arith, length-append {0} done rest)

pub at-append :
    (done raw rest : Bytes)
    → ◌≡◌ {A = CarbonReader}
        (record { contents = done ++ (raw ++ rest); offset = length done + length raw })
        (at (done ++ raw) rest)
at-append done raw rest = λ i. record {
  contents = sym (append_assoc done raw rest) i;
  offset = sym (length-append {0} done raw) i;
}

-- `read` takes off what stands before it.
pub read-at :
    (done raw rest : Bytes)
    → read (length raw) (at done (raw ++ rest)) ≡ ok (raw, at (done ++ raw) rest)
unfolding read
read-at done raw rest =
    let short : ltb (remaining (at done (raw ++ rest))) (length raw) ≡ false =
      le→ltb _ _ (omega (arith, remaining-at done (raw ++ rest), length-append {0} raw rest)) in
    rw (short, drop-append_self, take-append_self, at-append)

assert_eof-at : (done : Bytes) → assert_eof (at done []) ≡ ok (tt, at done [])
unfolding assert_eof
assert_eof-at done = rw (remaining-at done [])

assert_eof-at_cons :
    (done rest : Bytes) (x : ℕ) → assert_eof (at done (x ∷ rest)) ≡ err serialization
unfolding assert_eof
assert_eof-at_cons done rest x = rw (remaining-at done (x ∷ rest)) (ground arith)

module _ {A : Type 0} {k : ℕ} {w : Write} {r : Read A} {v : A} (e : Encodes k w r v) where
  deserialize-append :
      (rest : Bytes)
      → deserialize r (e.bytes ++ rest) ≡ and_then (assert_eof (at e.bytes rest)) (λ _. ok v)
  unfolding deserialize ◌>>=◌ ◌>>◌ pure
  deserialize-append rest = rw (e.reads [] rest) (ground (arith))

  -- What encodes also round trips.
  pub Encodes-RoundTrips : RoundTrips w r v
  unfolding serialize
  Encodes-RoundTrips = (
    e.bytes,
    rw (e.writes new_writer),
    ap (deserialize r) (sym (append-nil e.bytes))
        ∙ deserialize-append []
        ∙ rw (assert_eof-at e.bytes),
    λ x extra. deserialize-append (x ∷ extra) ∙ rw (assert_eof-at_cons e.bytes extra x),
  )

pub Encodes-weaken :
    {A : Type 0} {j : ℕ} (k : ℕ) {w : Write} {r : Read A} {v : A}
    → k ≤ j
    → Encodes j w r v
    → Encodes k w r v
Encodes-weaken k h e = record {
  bytes = e.bytes;
  writes = e.writes;
  reads = e.reads;
  size = omega (arith, e.size);
}

-- A method that reads the same
pub Encodes-read :
    {A : Type 0} {k : ℕ} {w : Write} {r r' : Read A} {v : A}
    → ((reader : CarbonReader) → r reader ≡ r' reader)
    → Encodes k w r' v
    → Encodes k w r v
Encodes-read h e = record {
  bytes = e.bytes;
  writes = e.writes;
  reads = λ done rest. h (at done (e.bytes ++ rest)) ∙ e.reads done rest;
  size = e.size;
}

-- A method that writes the same
pub Encodes-write :
    {A : Type 0} {k : ℕ} {w w' : Write} {r : Read A} {v : A}
    → ((writer : CarbonWriter) → w writer ≡ w' writer)
    → Encodes k w' r v
    → Encodes k w r v
Encodes-write h e = record {
  bytes = e.bytes;
  writes = λ b. h b ∙ e.writes b;
  reads = e.reads;
  size = e.size;
}

module _ {A B : Type 0} {j : ℕ} {w : Write} {r : Read A} {a : A} (e : Encodes j w r a) where
  -- One method after the other
  pub Encodes-bind_sum :
      {k : ℕ} {w' : Write} (f : A → Read B) {v : B}
      → Encodes k w' (f a) v
      → Encodes (j + k) (w >> w') (r >>= f) v
  unfolding ◌>>=◌ ◌>>◌
  Encodes-bind_sum f {v} e' = record {
    bytes = e.bytes ++ e'.bytes;
    writes = λ b. rw (e.writes, e'.writes, append_assoc);
    reads = λ done rest.
        rw (append_assoc e.bytes e'.bytes rest, e.reads, e'.reads)
          (ap (λ d. ok (v, at d rest)) (append_assoc done e.bytes e'.bytes));
    size = omega (arith, e.size, e'.size, length-append {0} e.bytes e'.bytes);
  }

  pub Encodes-bind :
      {k : ℕ} {w' : Write} (f : A → Read B) {v : B}
      → Encodes k w' (f a) v
      → Encodes j (w >> w') (r >>= f) v
  Encodes-bind f e' = Encodes-weaken j (omega arith) (Encodes-bind_sum f e')

  -- The last method of a block, and the object made of what was read.
  pub Encodes-last : (g : A → B) → Encodes j w (r >>= λ x. pure (g x)) (g a)
  unfolding ◌>>=◌ pure
  Encodes-last g = record {
    bytes = e.bytes;
    writes = e.writes;
    reads = λ done rest. rw e.reads;
    size = e.size;
  }

  -- What follows takes nothing off.
  pub Encodes-stop :
      (f : A → Read B) {v : B}
      → ((reader : CarbonReader) → f a reader ≡ ok (v, reader))
      → Encodes j w (r >>= f) v
  unfolding ◌>>=◌
  Encodes-stop f h = record {
    bytes = e.bytes;
    writes = e.writes;
    reads = λ done rest. rw (e.reads, h);
    size = e.size;
  }

  -- A value that is read and then checked or converted
  pub Encodes-lift : (f : A → Result B) {b : B} → f a ≡ ok b → Encodes j w (r >>= λ x. lift (f x)) b
  unfolding ◌>>=◌ lift
  Encodes-lift f h = record {
    bytes = e.bytes;
    writes = e.writes;
    reads = λ done rest. rw (e.reads, h);
    size = e.size;
  }

-- Nothing is written and nothing is read.
pub Encodes-pure : {A : Type 0} (v : A) → Encodes 0 (pure tt) (pure v) v
unfolding pure
Encodes-pure v = record {
  bytes = [];
  writes = λ b. rw append-nil;
  reads = λ done rest. rw append-nil;
  size = omega arith;
}
