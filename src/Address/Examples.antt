-- ===== src/Address/Examples.antt =====
-- An address on a concrete key.
use phantasma_py.Address.Keys.{from_public_key-user, from_public_key-public_key}
use phantasma_py.Carbon.Signed.{same_bytes}
use phantasma_py.Prelude.{replicate, ◌∷◌, ◌≡◌, length, ok, refl}
use phantasma_py.Bytes.{Bytes}
use phantasma_py.Address.{
  user, system, Address, from_public_key, kind, address, is_null, kind_code, public_key,
}

abbrev key : Bytes
key = replicate 32 9

from_public_key-public_key_example :
    (a : Address) × (from_public_key key ≡ ok a) × (kind a ≡ user) × (public_key a ≡ ok key)
from_public_key-public_key_example = from_public_key-public_key key refl

-- A key of 33 bytes, whose first byte takes the place of the zero
abbrev long_key_address : Address
long_key_address = record { «data» = 1 ∷ replicate 33 5 }

long_key : from_public_key (replicate 33 5) ≡ ok long_key_address
unfolding from_public_key address kind_code
long_key = refl

from_public_key-user_example :
    (kind long_key_address ≡ user) × (length long_key_address.«data» ≡ 34)
from_public_key-user_example = from_public_key-user (replicate 33 5) long_key

-- The null address is a system address, and has no public key.
null_is_system : kind (record { «data» = replicate 34 0 }) ≡ system
unfolding kind is_null same_bytes
null_is_system = refl
