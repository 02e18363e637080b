-- ===== src/Address/Keys.antt =====
-- The address of a public key is a user's, and gives the key back.
use phantasma_py.Binary.RoundTrip.{write_var_bytes_lem}
use phantasma_py.Binary.{read_var_bytes, max_array_size}
use phantasma_py.Carbon.Codec.{deserialize, Encodes-RoundTrips}
use phantasma_py.Carbon.Signed.{same_bytes}
use phantasma_py.Bytes.{Bytes}
use phantasma_py.Prelude.{
  ℕ, ◌≡◌, length, ok, ◌∷◌, refl, Bool-cases, guard-eq-ok, ◌==◌, crypto, inl, inr, subst, ==_iff,
  take, Result, arith, err,
}
use phantasma_py.Address.{
  user, from_public_key, kind, public_key, address, is_null, is_user, Address, kind_code, kind_of,
  prefixed_bytes,
}

-- The address that is made of two bytes and a key
abbrev user_address : ℕ → Bytes → Address
user_address second raw = record { «data» = 1 ∷ second ∷ raw }

user_address-kind : (second : ℕ) (raw : Bytes) → kind (user_address second raw) ≡ user
unfolding kind is_null same_bytes kind_of kind_code
user_address-kind second raw = refl

user_address-public_key : (second : ℕ) (raw : Bytes) → public_key (user_address second raw) ≡ ok raw
unfolding public_key is_user
user_address-public_key second raw = rw (user_address-kind second raw)

-- A public key of 32 bytes has the address of a user, which gives the key back.
pub from_public_key-public_key :
    (raw : Bytes)
    → length raw ≡ 32
    → (a : Address) × (from_public_key raw ≡ ok a) × (kind a ≡ user) × (public_key a ≡ ok raw)
unfolding from_public_key address kind_code
from_public_key-public_key raw h =
    (user_address 0 raw, rw h, user_address-kind 0 raw, user_address-public_key 0 raw)

user_kind : (raw : Bytes) → kind (record { «data» = 1 ∷ raw }) ≡ user
unfolding kind is_null same_bytes kind_of kind_code
user_kind raw = refl

address-user :
    (raw : Bytes) {a : Address}
    → address (1 ∷ raw) ≡ ok a
    → (kind a ≡ user) × (length a.«data» ≡ 34)
unfolding address
address-user raw {a} h =
    let (long, e) = guard-eq-ok (length (1 ∷ raw) == 34) crypto h in
    let p : ◌≡◌ {A = Address} (record { «data» = 1 ∷ raw }) a = cc in
    subst (λ (x : Address). (kind x ≡ user) × (length x.«data» ≡ 34)) p
      (user_kind raw, (==_iff _ _).0 long)

-- Whatever public key is taken, the address is a user's and has 34 bytes.
pub from_public_key-user :
    (raw : Bytes) {a : Address}
    → from_public_key raw ≡ ok a
    → (kind a ≡ user) × (length a.«data» ≡ 34)
unfolding from_public_key kind_code
from_public_key-user raw h = elim (Bool-cases (length raw == 32)) [
  | inl e ↦ address-user (0 ∷ raw) (rw e at h)
  | inr e ↦ elim (Bool-cases (length raw == 33)) [
    | inl e' ↦ address-user raw (rw (e, e') at h)
    | inr e' ↦ elim (Bool-cases (length raw == 64)) [
      | inl e'' ↦ address-user (0 ∷ take 32 raw) (rw (e, e', e'') at h)
      | inr e'' ↦
          let refused : ◌≡◌ {A = Result Address} (err crypto) (ok _) = rw (e, e', e'') at h in cc
    ]
  ]
]

-- The VM's form of an address of 34 bytes reads back as those bytes.
pub prefixed_bytes-read_var_bytes :
    (a : Address)
    → length a.«data» ≡ 34
    → (raw : Bytes) × (prefixed_bytes a ≡ ok raw)
      × (deserialize (read_var_bytes max_array_size) raw ≡ ok a.«data»)
unfolding prefixed_bytes
prefixed_bytes-read_var_bytes a h =
    let (raw, e, back, longer) =
      Encodes-RoundTrips
        (write_var_bytes_lem max_array_size a.«data» (omega arith) (omega arith)) in
    (raw, e, back)
