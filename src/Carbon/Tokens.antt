-- ===== src/Carbon/Tokens.antt =====
-- `TokenInfo` of carbon.py.
pub mod RoundTrip
use Prim.Native.Nat.{bit_and}
use phantasma_py.Prelude.{ℕ, ℤ, ◌>>=◌, ◌>>◌, pure, Bool, if◌then◌else◌, pos, [], not, ◌==◌}
use phantasma_py.Bytes.{Bytes}
use phantasma_py.Carbon.Writer.{Write, write1, write32, write_byte_array}
use phantasma_py.Carbon.Reader.{Read, read1, read1_int, read32, read_byte_array}
use phantasma_py.Carbon.Values.{
  SmallString, IntX, write_small_string, read_small_string, write_int_x, read_int_x,
}

pub record TokenInfo : Type 0 where
  pub max_supply : IntX
  pub flags : ℕ
  pub decimals : ℤ
  pub owner : Bytes
  pub symbol : SmallString
  pub metadata : Bytes
  pub token_schemas : Bytes

-- `flags & TokenFlags.NON_FUNGIBLE`
unfoldable pub is_non_fungible : ℕ → Bool
is_non_fungible flags = not (bit_and flags 2 == 0)

unfoldable pub write_token_info : TokenInfo → Write
write_token_info m = do
  write_int_x m.max_supply
  write1 (pos m.flags)
  write1 m.decimals
  write32 m.owner
  write_small_string m.symbol
  write_byte_array m.metadata
  if is_non_fungible m.flags then write_byte_array m.token_schemas else pure tt

unfoldable pub read_token_schemas : ℕ → Read Bytes
read_token_schemas flags = if is_non_fungible flags then read_byte_array else pure []

unfoldable pub read_token_info : Read TokenInfo
read_token_info = do
  max_supply ← read_int_x
  flags ← read1
  decimals ← read1_int
  owner ← read32
  symbol ← read_small_string
  metadata ← read_byte_array
  token_schemas ← read_token_schemas flags
  pure (record {
    max_supply = max_supply;
    flags = flags;
    decimals = decimals;
    owner = owner;
    symbol = symbol;
    metadata = metadata;
    token_schemas = token_schemas;
  })
