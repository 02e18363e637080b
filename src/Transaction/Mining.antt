-- ===== src/Transaction/Mining.antt =====
-- `mine` ends, and what it returns is hard enough and differs in the payload only.
use phantasma_py.Prelude.{
  ℕ, pos, ℤ, ◌<◌, Error, Result, suc, ◌^◌, ◌≡◌, err, ok, some, ◌≤◌, Result-cases, ltb, negsuc, ◌+◌,
  arith, false, inr, true, inl, overflow, zero, Bool-cases, refl, ltb→lt, subst, le_of_ltb, ◌∙◌,
  sym, ap,
}
use phantasma_py.Bytes.{Bytes, to_le}
use phantasma_py.Transaction.{Transaction, mine, mine_from, transaction_difficulty, mine_round}

abbrev with_nonce : Transaction → ℕ → Transaction
with_nonce tx nonce = record tx { payload = to_le 4 nonce }

module _ (sha256 : Bytes → Bytes) (wanted : ℕ) where
  -- The result is hard enough, and differs from the transaction in the payload only.
  abbrev pub Mined : Transaction → Transaction → Type 0
  Mined tx tx' =
      ((d : ℕ) × (transaction_difficulty sha256 tx' ≡ ok d) × (wanted ≤ d))
      × ◌≡◌ {A = Transaction} (record tx' { payload = tx.payload }) tx

  module _ (fuel nonce : ℕ) (tx : Transaction) where
    failed_step :
        {e : Error}
        → transaction_difficulty sha256 tx ≡ err e
        → mine_from sha256 (suc fuel) wanted nonce tx ≡ some (err e)
    unfolding mine_from mine_round
    failed_step failed = rw failed

    pub last_step :
        {d : ℕ}
        → transaction_difficulty sha256 tx ≡ ok d
        → ltb d wanted ≡ false
        → mine_from sha256 (suc fuel) wanted nonce tx ≡ some (ok tx)
    unfolding mine_from mine_round
    last_step found hard = rw (found, hard)

    overflow_step :
        {d : ℕ}
        → transaction_difficulty sha256 tx ≡ ok d
        → ltb d wanted ≡ true
        → ltb (suc nonce) (2 ^ 32) ≡ false
        → mine_from sha256 (suc fuel) wanted nonce tx ≡ some (err overflow)
    unfolding mine_from mine_round
    overflow_step found easy large = rw (found, easy, large)

    next_step :
        {d : ℕ}
        → transaction_difficulty sha256 tx ≡ ok d
        → ltb d wanted ≡ true
        → ltb (suc nonce) (2 ^ 32) ≡ true
        → mine_from sha256 (suc fuel) wanted nonce tx
          ≡ mine_from sha256 fuel wanted (suc nonce) (with_nonce tx (suc nonce))
    unfolding mine_from mine_round
    next_step found easy small = rw (found, easy, small)

  mine_from_total :
      (fuel nonce : ℕ) (tx : Transaction)
      → nonce < 2 ^ 32
      → 2 ^ 32 ≤ fuel + nonce
      → (r : Result Transaction) × (mine_from sha256 fuel wanted nonce tx ≡ some r)
  mine_from_total zero nonce tx h enough = absurd (omega arith)
  mine_from_total (suc fuel) nonce tx h enough =
      elim (Result-cases (transaction_difficulty sha256 tx)) [
        | inr (e, failed) ↦ (err e, failed_step fuel nonce tx failed)
        | inl (d, found) ↦ elim (Bool-cases (ltb d wanted)) [
          | inr hard ↦ (ok tx, last_step fuel nonce tx found hard)
          | inl easy ↦ elim (Bool-cases (ltb (suc nonce) (2 ^ 32))) [
            | inr large ↦ (err overflow, overflow_step fuel nonce tx found easy large)
            | inl small ↦
                let (r, e) =
                  mine_from_total fuel (suc nonce) (with_nonce tx (suc nonce)) (ltb→lt _ _ small)
                    (omega arith) in
                (r, next_step fuel nonce tx found easy small ∙ e)
          ]
        ]
      ]

  mine_from-Mined :
      (fuel nonce : ℕ) (tx : Transaction) {tx' : Transaction}
      → mine_from sha256 fuel wanted nonce tx ≡ some (ok tx')
      → Mined tx tx'
  mine_from-Mined zero nonce tx h = unfold mine_from in cc
  mine_from-Mined (suc fuel) nonce tx {tx'} h =
      elim (Result-cases (transaction_difficulty sha256 tx)) [
        | inr (e, failed) ↦ let step = failed_step fuel nonce tx failed in cc
        | inl (d, found) ↦ elim (Bool-cases (ltb d wanted)) [
          | inr hard ↦
              let step = last_step fuel nonce tx found hard in
              let same_tx : tx ≡ tx' = cc in
              subst (Mined tx) same_tx ((d, found, omega (arith, le_of_ltb d wanted hard)), refl)
          | inl easy ↦ elim (Bool-cases (ltb (suc nonce) (2 ^ 32))) [
            | inr large ↦ let step = overflow_step fuel nonce tx found easy large in cc
            | inl small ↦
                let (hard, others) =
                  mine_from-Mined fuel (suc nonce) (with_nonce tx (suc nonce))
                    (sym (next_step fuel nonce tx found easy small) ∙ h) in
                (hard, ap (λ (t : Transaction). record t { payload = tx.payload }) others)
          ]
        ]
      ]

-- Mining ends, for every hash function: within 2 ^ 32 rounds it returns the transaction or raises.
pub mine_total :
    (sha256 : Bytes → Bytes) (wanted : ℤ) (tx : Transaction)
    → (r : Result Transaction) × (mine sha256 wanted tx ≡ some r)
unfolding mine
mine_total sha256 (negsuc n) tx = (ok tx, refl)
mine_total sha256 (pos zero) tx = (ok tx, refl)
mine_total sha256 (pos (suc n)) tx =
    mine_from_total sha256 (suc n) (2 ^ 32) 0 tx (omega arith) (omega arith)

-- A transaction that mining for a positive difficulty returns has a hash that is as difficult, and
-- every field but its payload is that of the transaction that was given.
pub mine-Mined :
    (sha256 : Bytes → Bytes) (n : ℕ) (tx : Transaction) {tx' : Transaction}
    → mine sha256 (pos (suc n)) tx ≡ some (ok tx')
    → Mined sha256 (suc n) tx tx'
unfolding mine
mine-Mined sha256 n tx h = mine_from-Mined sha256 (suc n) (2 ^ 32) 0 tx h
