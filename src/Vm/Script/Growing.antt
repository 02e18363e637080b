-- ===== src/Vm/Script/Growing.antt =====
-- What every method of the script builder keeps: the bytes that were emitted, the first failure, and
-- the places of the jumps, which are apart from one another and within the script.
use phantasma_py.Vm.{Opcode, opcode_value}
use phantasma_py.Binary.{write_u8, write_var_uint, write_u16_le, write_u32_le, write_u64_le}
use phantasma_py.Text.Sorting.{same_text}
use phantasma_py.Text.{Text}
use phantasma_py.Bytes.{Bytes, check_unsigned, to_le}
use phantasma_py.Carbon.Writer.{Write, write, CarbonWriter, write_unsigned}
use phantasma_py.Vm.Script.{
  Emit, ScriptBuilder, fail, on_writer, set_jump, set_label, Failure, LabelLocation, current_size,
  Jump, first_failure, add_label, jump_to, byte, emit, emit_raw, emit_var_bytes,
}
use phantasma_py.Prelude.{
  some, pos, negsuc, false, ok, err, pure, ℕ, ◌>>=◌, ◌>>◌, Bool, List, [], and_then-eq-ok, lift,
  ◌++◌, ◌≡◌, All, Result, append-nil, if◌then◌else◌, subst, ◌∙◌, ◌≤◌, ap, arith, if_elim, ◌+◌, ◌∷◌,
  append_assoc, ◌==◌, length, raise, refl, sym, Error, length-append, ℤ, ltb, serialization, ◌*◌,
  leb,
}

-- Each jump has two bytes for its target, behind those of the jump before it.
abbrev pub Spaced : ℕ → ℕ → List Jump → Type 0
Spaced low size [] = low ≤ size
Spaced low size (j ∷ rest) = (low ≤ j.place) × Spaced (j.place + 2) size rest

abbrev pub Within : ℕ → LabelLocation → Type 0
Within size l = l.location ≤ size

pub record IsBuilder (b : ScriptBuilder) : Type 0 where
  pub jumps : Spaced 0 (current_size b) b.jump_locations
  pub labels : All (Within (current_size b)) b.label_locations

pub record Grows (b b' : ScriptBuilder) : Type 0 where
  pub more : Bytes
  pub extends : b'.writer.buffer ≡ b.writer.buffer ++ more
  pub keeps_failure : (f : Failure) → b.failure ≡ some f → b'.failure ≡ some f
  pub keeps_builder : IsBuilder b → IsBuilder b'

Spaced-weaken :
    (low size size' : ℕ) (jumps : List Jump)
    → size ≤ size'
    → Spaced low size jumps
    → Spaced low size' jumps
Spaced-weaken low size size' [] h s = omega arith
Spaced-weaken low size size' (j ∷ rest) h (first, s) =
    (first, Spaced-weaken (j.place + 2) size size' rest h s)

pub Spaced-le : (low size : ℕ) (jumps : List Jump) → Spaced low size jumps → low ≤ size
Spaced-le low size [] h = h
Spaced-le low size (j ∷ rest) (first, s) = omega (arith, Spaced-le (j.place + 2) size rest s)

-- A new jump stands behind the others.
Spaced-set_jump :
    (low size : ℕ) (label : Text) (jumps : List Jump)
    → Spaced low size jumps
    → Spaced low (size + 2) (set_jump size label jumps)
unfolding set_jump
Spaced-set_jump low size label [] h = (h, omega arith)
Spaced-set_jump low size label (j ∷ rest) (first, s) =
    let other : (j.place == size) ≡ false = ground (arith, Spaced-le (j.place + 2) size rest s) in
    rw other (first, Spaced-set_jump (j.place + 2) size label rest s)

Within-weaken :
    (size size' : ℕ) (labels : List LabelLocation)
    → size ≤ size'
    → All (Within size) labels
    → All (Within size') labels
Within-weaken size size' [] h s = tt
Within-weaken size size' (l ∷ rest) h (first, s) = (omega arith, Within-weaken size size' rest h s)

Within-set_label :
    (size location : ℕ) (name : Text) (labels : List LabelLocation)
    → location ≤ size
    → All (Within size) labels
    → All (Within size) (set_label name location labels)
unfolding set_label
Within-set_label size location name [] h s = (h, tt)
Within-set_label size location name (l ∷ rest) h (first, s) =
    if_elim (All (Within size)) (same_text l.name name) (h, s)
      (first, Within-set_label size location name rest h s)

Grows-refl : (b : ScriptBuilder) → Grows b b
Grows-refl b = record {
  more = [];
  extends = rw append-nil;
  keeps_failure = λ f e. e;
  keeps_builder = λ h. h;
}

pub Grows-trans : {a b c : ScriptBuilder} → Grows a b → Grows b c → Grows a c
Grows-trans {a} g g' = record {
  more = g.more ++ g'.more;
  extends =
      g'.extends ∙ ap (λ l. l ++ g'.more) g.extends ∙ append_assoc a.writer.buffer g.more g'.more;
  keeps_failure = λ f e. g'.keeps_failure f (g.keeps_failure f e);
  keeps_builder = λ h. g'.keeps_builder (g.keeps_builder h);
}

-- A method after which the builder has grown
pub record Growing (m : Emit) : Type 0 where
  pub grows : (b b' : ScriptBuilder) → m b ≡ ok (tt, b') → Grows b b'

pub Growing-pure : Growing (pure tt)
unfolding pure
Growing-pure = record {
  grows = λ b b' h. let same_builder : b ≡ b' = cc in subst (Grows b) same_builder (Grows-refl b);
}

pub Growing-then : {m n : Emit} → Growing m → Growing n → Growing (m >> n)
unfolding ◌>>◌
Growing-then {m} g g' = record {
  grows = λ b b' h.
      let (p, e, e') = and_then-eq-ok (m b) _ h in
      Grows-trans (g.grows b p.1 e) (g'.grows p.1 b' e');
}

pub Growing-if : {m n : Emit} (c : Bool) → Growing m → Growing n → Growing (if c then m else n)
Growing-if c g g' = if_elim Growing c g g'

pub Growing-lift :
    {A : Type 0} (r : Result A) {f : A → Emit} → ((a : A) → Growing (f a)) → Growing (lift r >>= f)
unfolding ◌>>=◌ lift
Growing-lift (ok a) g = g a
Growing-lift (err e) g = record { grows = λ b b' h. absurd cc }

pub Growing-fail : (f : Failure) → Growing (fail f)
unfolding fail first_failure current_size
Growing-fail f = record {
  grows = λ b b' h.
      let same_builder : record b { failure = first_failure b.failure f } ≡ b' = cc in
      subst (Grows b) same_builder (record {
        more = [];
        extends = rw append-nil;
        keeps_failure = λ f' e. rw e;
        keeps_builder = λ i. record { jumps = i.jumps; labels = i.labels };
      });
}

-- A writing method that only appends
abbrev Appends : Write → Type 0
Appends w =
    (s s' : CarbonWriter) → w s ≡ ok (tt, s') → (more : Bytes) × (s'.buffer ≡ s.buffer ++ more)

Appends-write : (raw : Bytes) → Appends (write raw)
unfolding write
Appends-write raw s s' h =
    let same_writer : record s { buffer = s.buffer ++ raw } ≡ s' = cc in
    (raw, ap (λ (w : CarbonWriter). w.buffer) (sym same_writer))

Appends-raise : (e : Error) → Appends (raise e)
unfolding raise
Appends-raise e s s' h = absurd cc

Appends-then : {w w' : Write} → Appends w → Appends w' → Appends (w >> w')
unfolding ◌>>◌
Appends-then {w} a a' s s' h =
    let (p, e, e') = and_then-eq-ok (w s) _ h in
    let (more, f) = a s p.1 e in
    let (more', f') = a' p.1 s' e' in
    (more ++ more', f' ∙ ap (λ l. l ++ more') f ∙ append_assoc s.buffer more more')

Appends-lift :
    {A : Type 0} (r : Result A) {f : A → Write} → ((a : A) → Appends (f a)) → Appends (lift r >>= f)
unfolding ◌>>=◌ lift
Appends-lift (ok a) g s s' h = g a s s' h
Appends-lift (err e) g s s' h = absurd cc

pub Appends-write_u8 : (v : ℤ) → Appends (write_u8 v)
unfolding write_u8
Appends-write_u8 (pos n) =
    if_elim Appends (ltb 0xff n) (Appends-raise serialization) (Appends-write (n ∷ []))
Appends-write_u8 (negsuc n) = Appends-raise serialization

Appends-write_unsigned : (width : ℕ) (v : ℤ) → Appends (write_unsigned width v)
unfolding write_unsigned
Appends-write_unsigned width v =
    Appends-lift (check_unsigned (8 * width) v) λ n. Appends-write (to_le width n)

Appends-write_var_uint : (v : ℤ) → Appends (write_var_uint v)
unfolding write_var_uint write_u16_le write_u32_le write_u64_le
Appends-write_var_uint (negsuc n) = Appends-raise serialization
Appends-write_var_uint (pos n) = if_elim Appends (ltb n 0xfd) (Appends-write_u8 (pos n)) (
    if_elim Appends (leb n 0xffff)
      (Appends-then (Appends-write_u8 (pos 0xfd)) (Appends-write_unsigned 2 (pos n)))
      (if_elim Appends (leb n 0xffffffff)
        (Appends-then (Appends-write_u8 (pos 0xfe)) (Appends-write_unsigned 4 (pos n)))
        (Appends-then (Appends-write_u8 (pos 0xff)) (Appends-write_unsigned 8 (pos n)))))

module _ (b : ScriptBuilder) (raw : Bytes) where
  appended : ScriptBuilder
  appended = record b { writer = record { buffer = b.writer.buffer ++ raw } }

  current_size-appended : current_size appended ≡ current_size b + length raw
  unfolding current_size appended
  current_size-appended = length-append {0} b.writer.buffer raw

  appended-IsBuilder : IsBuilder b → IsBuilder appended
  unfolding appended
  appended-IsBuilder i = record {
    jumps =
        Spaced-weaken 0 (current_size b) _ b.jump_locations (omega (arith, current_size-appended))
          i.jumps;
    labels =
        Within-weaken (current_size b) _ b.label_locations (omega (arith, current_size-appended))
          i.labels;
  }

  Grows-appended : Grows b appended
  unfolding appended
  Grows-appended = record {
    more = raw;
    extends = refl;
    keeps_failure = λ f e. e;
    keeps_builder = appended-IsBuilder;
  }

pub Growing-on_writer : {w : Write} → Appends w → Growing (on_writer w)
unfolding on_writer
Growing-on_writer {w} a = record {
  grows = λ b b' h.
      let (p, e, e') = and_then-eq-ok (w b.writer) _ h in
      let (more, f) = a b.writer p.1 e in
      let written : record b { writer = p.1 } ≡ b' = cc in
      let unwritten : appended b more ≡ record b { writer = p.1 } =
        unfold appended in λ i. record b { writer = record { buffer = sym f i } } in
      let same_builder : appended b more ≡ b' = unwritten ∙ written in
      subst (Grows b) same_builder (Grows-appended b more);
}

-- The room for a target, and the note of its place
jump_to-eq :
    (label : Text) (b : ScriptBuilder)
    → jump_to label b
      ≡ ok (
        tt,
        record (appended b (0 ∷ 0 ∷ [])) {
          jump_locations = set_jump (current_size b) label b.jump_locations;
        },
      )
unfolding jump_to appended on_writer write_u16_le write_unsigned write ◌>>=◌ lift check_unsigned
    to_le
jump_to-eq label b = refl

pub Growing-jump_to : (label : Text) → Growing (jump_to label)
unfolding appended current_size
Growing-jump_to label = record {
  grows = λ b b' h.
      let room = appended b (0 ∷ 0 ∷ []) in
      let noted = record room {
        jump_locations = set_jump (current_size b) label b.jump_locations;
      } in
      let same_builder : noted ≡ b' = (let e = sym (jump_to-eq label b) ∙ h in cc) in
      subst (Grows b) same_builder (record {
        more = 0 ∷ 0 ∷ [];
        extends = refl;
        keeps_failure = λ f e. e;
        keeps_builder = λ i. record {
          jumps =
              Spaced-weaken 0 (length b.writer.buffer + 2) _ noted.jump_locations
                (omega (arith, current_size-appended b (0 ∷ 0 ∷ [])))
                (Spaced-set_jump 0 (length b.writer.buffer) label b.jump_locations i.jumps);
          labels = (appended-IsBuilder b (0 ∷ 0 ∷ []) i).labels;
        };
      });
}

pub Growing-add_label : (lower : Text → Text) (label : Text) → Growing (add_label lower label)
unfolding add_label current_size
Growing-add_label lower label = record {
  grows = λ b b' h.
      let same_builder : record b {
        label_locations = set_label (lower label) (current_size b) b.label_locations;
      }
          ≡ b' =
        cc in
      subst (Grows b) same_builder (record {
        more = [];
        extends = rw append-nil;
        keeps_failure = λ f e. e;
        keeps_builder = λ i. record {
          jumps = i.jumps;
          labels =
              Within-set_label (current_size b) (current_size b) (lower label) b.label_locations
                (omega arith) i.labels;
        };
      });
}

pub Growing-byte : (v : ℤ) → Growing (byte v)
unfolding byte
Growing-byte v = Growing-on_writer (Appends-write_u8 v)

pub Growing-emit : (opcode : Opcode) → Growing (emit opcode)
unfolding emit
Growing-emit opcode = Growing-on_writer (Appends-write_u8 (pos (opcode_value opcode)))

pub Growing-write : (raw : Bytes) → Growing (on_writer (write raw))
Growing-write raw = Growing-on_writer (Appends-write raw)

pub Growing-write_var_uint : (value : ℤ) → Growing (on_writer (write_var_uint value))
Growing-write_var_uint value = Growing-on_writer (Appends-write_var_uint value)

pub Growing-emit_raw : (raw : Bytes) → Growing (emit_raw raw)
unfolding emit_raw
Growing-emit_raw raw = Growing-on_writer (Appends-write raw)

pub Growing-emit_var_bytes : (value : ℤ) → Growing (emit_var_bytes value)
unfolding emit_var_bytes
Growing-emit_var_bytes value = Growing-on_writer (Appends-write_var_uint value)

-- The parts that the methods are put together from
pub ruleset growing_parts = (
  Growing-pure, Growing-then, Growing-if, Growing-lift, Growing-fail, Growing-byte, Growing-emit,
  Growing-emit_raw, Growing-emit_var_bytes, Growing-write, Growing-write_var_uint, Growing-jump_to,
  Growing-add_label,
)
