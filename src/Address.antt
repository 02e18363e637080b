-- ===== src/Address.antt =====
-- `Address` of crypto.py: 34 bytes, the first of which is the kind. The text form, which is Base58,
-- is left out. An address stands as its bytes.
pub mod Keys
mod Examples
use phantasma_py.Binary.{write_var_bytes}
use phantasma_py.Carbon.Codec.{serialize}
use phantasma_py.Carbon.Signed.{same_bytes}
use phantasma_py.Bytes.{Bytes}
use phantasma_py.Prelude.{
  Bool, Result, if◌then◌else◌, ℕ, get_or, leb, length, ok, replicate, true, ◌∷◌, [], drop, false,
  ◌==◌, err, ◌++◌, crypto, ◌+◌, take,
}

pub data AddressKind : Type 0 where
  invalid user system interop : AddressKind

unfoldable pub kind_code : AddressKind → ℕ
kind_code invalid = 0
kind_code user = 1
kind_code system = 2
kind_code interop = 3

pub record Address : Type 0 where
  pub «data» : Bytes

abbrev address_length : ℕ
address_length = 34

abbrev public_key_length : ℕ
public_key_length = 32

-- The constructor with `__post_init__`
unfoldable pub address : Bytes → Result Address
address raw = if length raw == address_length then ok (record { «data» = raw }) else err crypto

unfoldable pub null_address : Result Address
null_address = address (replicate address_length 0)

unfoldable pub from_public_key : Bytes → Result Address
from_public_key raw =
    if length raw == public_key_length
    then address ((kind_code user ∷ 0 ∷ []) ++ raw)
    else if length raw == public_key_length + 1
    then address ((kind_code user ∷ []) ++ raw)
    else if length raw == 64
    then address ((kind_code user ∷ 0 ∷ []) ++ take public_key_length raw)
    else err crypto

unfoldable pub is_null : Address → Bool
is_null a = same_bytes a.«data» (replicate address_length 0)

-- `kind` of an address that is not null, by its first byte
unfoldable pub kind_of : ℕ → AddressKind
kind_of first =
    if leb (kind_code interop) first
    then interop
    else if first == kind_code system
    then system
    else if first == kind_code user
    then user
    else invalid

unfoldable pub kind : Address → AddressKind
kind a = if is_null a then system else kind_of (get_or a.«data» 0 0)

unfoldable pub is_user : AddressKind → Bool
is_user user = true
is_user k = false

unfoldable pub public_key : Address → Result Bytes
public_key a = if is_user (kind a) then ok (drop 2 a.«data») else err crypto

-- `from_hash` of bytes, with SHA-256 as a parameter
unfoldable pub from_hash : (Bytes → Bytes) → Bytes → Result Address
from_hash sha256 raw = address ((kind_code user ∷ 0 ∷ []) ++ sha256 raw)

-- `prefixed_bytes`: the bytes with their number before them
unfoldable pub prefixed_bytes : Address → Result Bytes
prefixed_bytes a = serialize (write_var_bytes a.«data»)
