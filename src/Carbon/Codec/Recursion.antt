-- ===== src/Carbon/Codec/Recursion.antt =====
-- Reading methods that call themselves. Such a method takes a byte off before it calls itself, so
-- one more call than there are bytes left is enough.
use phantasma_py.Prelude.{
  ℕ, suc, zero, ◌≡◌, ◌+◌, ◌≤◌, ◌<◌, Bool, serialization, Bool-cases, arith, if◌then◌else◌, lift, ok,
  pure, raise, ◌>>=◌, Error, Result, Result-cases, and_then-eq-ok, ltb, refl, true, err, false, inl,
  length, inr, ◌-◌, get_or, ℤ, pos, negsuc,
}
use phantasma_py.Carbon.Reader.{
  CarbonReader, Read, remaining, read, check_length, read1, read4, read_length, read_signed,
}

-- A family of methods, each written over the others, with at most so many calls
unfoldable pub upto :
    {I : Type 0} {A : I → Type 0}
    → (((i : I) → Read (A i)) → (i : I) → Read (A i))
    → ℕ
    → (i : I) → Read (A i)
upto body zero i = raise serialization
upto body (suc calls) i = body (upto body calls) i

-- The method itself: a call more than there are bytes left.
unfoldable pub read_recursively :
    {I : Type 0} {A : I → Type 0}
    → (((i : I) → Read (A i)) → (i : I) → Read (A i))
    → (i : I) → Read (A i)
read_recursively body i r = upto body (suc (remaining r)) i r

-- With `bound` bytes before them or fewer, `r` and `r'` do the same, and take `least` bytes or more.
pub record Takes {A : Type 0} (least bound : ℕ) (r r' : Read A) : Type 0 where
  pub agrees : (s : CarbonReader) → remaining s ≤ bound → r s ≡ r' s
  pub shrinks :
      (s s' : CarbonReader) (v : A)
      → remaining s ≤ bound
      → r s ≡ ok (v, s')
      → least + remaining s' ≤ remaining s

module _ {A : Type 0} {n : ℕ} where
  pub Takes-weaken : {j : ℕ} (k : ℕ) {r r' : Read A} → k ≤ j → Takes j n r r' → Takes k n r r'
  Takes-weaken k h t = record {
    agrees = t.agrees;
    shrinks = λ s s' v few e. omega (arith, t.shrinks s s' v few e);
  }

  pub Takes-pure : (v : A) → Takes 0 n (pure v) (pure v)
  unfolding pure
  Takes-pure v = record {
    agrees = λ s few. refl;
    shrinks = λ s s' v' few e. let same_reader : s ≡ s' = cc in rw same_reader (omega arith);
  }

  pub Takes-lift : (m : Result A) → Takes 0 n (lift m) (lift m)
  unfolding lift
  Takes-lift (ok a) = record {
    agrees = λ s few. refl;
    shrinks = λ s s' v' few e. let same_reader : s ≡ s' = cc in rw same_reader (omega arith);
  }
  Takes-lift (err e) = record { agrees = λ s few. refl; shrinks = λ s s' v' few h. absurd cc }

  pub Takes-raise : (k : ℕ) (e : Error) → Takes {A = A} k n (raise e) (raise e)
  unfolding raise
  Takes-raise k e = record { agrees = λ s few. refl; shrinks = λ s s' v' few h. absurd cc }

  pub Takes-if :
      {k : ℕ} (b : Bool) {x x' y y' : Read A}
      → Takes k n x x'
      → Takes k n y y'
      → Takes k n (if b then x else y) (if b then x' else y')
  Takes-if true t t' = t
  Takes-if false t t' = t'

module _ {A B : Type 0} {j n : ℕ} {r r' : Read A} (f f' : A → Read B) (t : Takes j n r r') where
  bind-agrees :
      ((s s' : CarbonReader) (v : A) → remaining s ≤ n → r s ≡ ok (v, s') → f v s' ≡ f' v s')
      → (s : CarbonReader) → remaining s ≤ n
      → (r >>= f) s ≡ (r' >>= f') s
  unfolding ◌>>=◌
  bind-agrees h s few =
      rw (← t.agrees s few)
        (elim (Result-cases (r s)) [ inl (p, e) ↦ rw e (h s p.1 p.0 few e) | inr (x, e) ↦ rw e ])

  bind-shrinks :
      (k : ℕ)
      → ((s : CarbonReader) (s' s″ : CarbonReader) (v : A) (w : B)
          → remaining s ≤ n
          → r s ≡ ok (v, s')
          → f v s' ≡ ok (w, s″)
          → k + remaining s″ ≤ remaining s')
      → (s s″ : CarbonReader) (w : B) → remaining s ≤ n
      → (r >>= f) s ≡ ok (w, s″)
      → (j + k) + remaining s″ ≤ remaining s
  unfolding ◌>>=◌
  bind-shrinks k h s s″ w few e =
      let (p, e', e″) = and_then-eq-ok (r s) _ e in
      omega (arith, t.shrinks s p.1 p.0 few e', h s p.1 s″ p.0 w few e' e″)

  pub Takes-bind :
      {k : ℕ} → ((a : A) → Takes k n (f a) (f' a)) → Takes (j + k) n (r >>= f) (r' >>= f')
  Takes-bind h = record {
    agrees = bind-agrees λ s s' v few e. (h v).agrees s' (omega (arith, t.shrinks s s' v few e));
    shrinks =
        bind-shrinks _
          λ s s' s″ v w few e e'. (h v).shrinks s' s″ w (omega (arith, t.shrinks s s' v few e)) e';
  }

  -- What follows a method that takes a byte has fewer bytes before it.
  pub Takes-bind_first :
      {k : ℕ}
      → 1 ≤ j
      → ((m : ℕ) → m < n → (a : A) → Takes k m (f a) (f' a))
      → Takes (j + k) n (r >>= f) (r' >>= f')
  Takes-bind_first some_taken h = record {
    agrees = bind-agrees λ s s' v few e.
        (h (remaining s') (omega (arith, t.shrinks s s' v few e)) v).agrees s' (omega arith);
    shrinks = bind-shrinks _ λ s s' s″ v w few e e'.
        (h (remaining s') (omega (arith, t.shrinks s s' v few e)) v).shrinks s' s″ w (omega arith)
          e';
  }

pub read-Takes : {n : ℕ} (count : ℕ) → Takes count n (read count) (read count)
unfolding read remaining
read-Takes count = record {
  agrees = λ s few. refl;
  shrinks = λ s s' v few e. elim (Bool-cases (ltb (length s.contents - s.offset) count)) [
    | inl short ↦ absurd (let e″ = rw short at e in cc)
    | inr enough ↦
        let e″ = rw enough at e in
        let same_reader : record s { offset = s.offset + count } ≡ s' = cc in
        rw (← same_reader) (ground arith)
  ];
}

module _ {n : ℕ} where
  pub read1-Takes : Takes 1 n read1 read1
  unfolding read1
  read1-Takes = Takes-bind _ _ (read-Takes 1) (λ raw. Takes-pure (get_or raw 0 0))

  pub read4-Takes : Takes 4 n read4 read4
  unfolding read4 read_signed
  read4-Takes = Takes-bind _ _ (read-Takes 4) (λ raw. Takes-pure _)

  check_length-Takes : (v : ℤ) → Takes 0 n (check_length v) (check_length v)
  unfolding check_length raise
  check_length-Takes (pos c) = record {
    agrees = λ s few. refl;
    shrinks = λ s s' v few e. elim (Bool-cases (ltb (remaining s) c)) [
      | inl short ↦ absurd (let e' = rw short at e in cc)
      | inr enough ↦
          let e' = rw enough at e in let same_reader : s ≡ s' = cc in rw same_reader (omega arith)
    ];
  }
  check_length-Takes (negsuc c) = Takes-raise 0 serialization

  pub read_length-Takes : Takes 4 n read_length read_length
  unfolding read_length
  read_length-Takes = Takes-bind _ _ read4-Takes check_length-Takes

-- A family whose methods take a byte before they call one another.
abbrev pub Guarded :
    {I : Type 0} {A : I → Type 0} → (((i : I) → Read (A i)) → (i : I) → Read (A i)) → Type 0
Guarded {I} {A} body =
    (n : ℕ) (rec rec' : (i : I) → Read (A i))
    → ((m : ℕ) → m < n → (i : I) → Takes 0 m (rec i) (rec' i))
    → (i : I) → Takes 0 n (body rec i) (body rec' i)

module _ {I : Type 0} {A : I → Type 0} (body : ((i : I) → Read (A i)) → (i : I) → Read (A i))
    (guarded : Guarded body) where
  upto-Takes :
      (n calls more : ℕ)
      → n < calls
      → n < more
      → (i : I) → Takes 0 n (upto body calls i) (upto body more i)
  unfolding upto
  upto-Takes n zero more h h' = absurd (omega arith)
  upto-Takes n (suc calls) zero h h' = absurd (omega arith)
  upto-Takes n (suc calls) (suc more) h h' =
      guarded n (upto body calls) (upto body more)
        (λ m fewer. upto-Takes m calls more (omega arith) (omega arith))

  read_recursively-Takes :
      (n calls : ℕ) → n < calls → (i : I) → Takes 0 n (upto body calls i) (read_recursively body i)
  unfolding read_recursively
  read_recursively-Takes n calls h i = record {
    agrees = λ s few.
        (upto-Takes (remaining s) calls (suc (remaining s)) (omega arith) (omega arith) i).agrees s
          (omega arith);
    shrinks = (upto-Takes n calls calls h h i).shrinks;
  }

  -- The method that is limited to so many calls is the one that calls itself without a limit.
  pub read_recursively-eq :
      (i : I) (s : CarbonReader) → read_recursively body i s ≡ body (read_recursively body) i s
  unfolding read_recursively upto
  read_recursively-eq i s =
      (guarded (remaining s) (upto body (remaining s)) (read_recursively body)
          (λ m fewer. read_recursively-Takes m (remaining s) fewer) i).agrees
        s (omega arith)

  pub read_recursively-shrinks :
      {n : ℕ} (i : I) → Takes 0 n (read_recursively body i) (read_recursively body i)
  unfolding read_recursively
  read_recursively-shrinks i = record {
    agrees = λ s few. refl;
    shrinks = λ s s' v few e.
        (upto-Takes (remaining s) (suc (remaining s)) (suc (remaining s)) (omega arith)
            (omega arith) i).shrinks
          s s' v (omega arith) e;
  }
