-- ===== src/Vm/Script/Calls.antt =====
-- The calls of ScriptBuilder: the arguments, and the methods of contracts that have a method of their
-- own. A name is a list of code points.
use phantasma_py.Bytes.{Bytes}
use phantasma_py.Text.{Text}
use phantasma_py.Vm.Script.{
  Emit, fail, emit_load_string, emit_push, nil_argument, emit, unsupported_type, byte, emit_load,
  emit_load_bool, emit_load_number, emit_load_time, max_register_count, no_registers_for_array,
}
use phantasma_py.Address.{Address, prefixed_bytes}
use phantasma_py.Prelude.{
  pos, ℕ, Bool, pure, ℤ, ◌>>◌, ◌∷◌, [], ◌>>=◌, lift, if◌then◌else◌, ltb, ◌-◌, ◌+◌, suc,
}
use phantasma_py.Vm.{
  op_cast, op_put, op_ctx, op_switch, op_extcall, none_type, bytes_type, object_type_value,
}

mutual
  -- The types that `_load_into_register` tells apart; a datetime is its number of seconds.
  pub data Argument : Type 0 where
    none_arg other_arg : Argument
    address_arg : Address → Argument
    text_arg : Text → Argument
    bool_arg : Bool → Argument
    bytes_arg : Bytes → Argument
    number_arg time_arg : ℤ → Argument
    list_arg : Arguments → Argument

  pub data Arguments : Type 0 where
    no_args : Arguments
    more_args : Argument → Arguments → Arguments

unfoldable mutual
  pub load_into_register : Argument → ℕ → Emit
  load_into_register none_arg reg = fail nil_argument
  load_into_register other_arg reg = fail unsupported_type
  load_into_register (address_arg a) reg = do
    raw ← lift (prefixed_bytes a)
    emit_load (pos reg) raw bytes_type
  load_into_register (text_arg text) reg = emit_load_string (pos reg) text
  load_into_register (bool_arg flag) reg = emit_load_bool (pos reg) flag
  load_into_register (bytes_arg raw) reg = emit_load (pos reg) raw bytes_type
  load_into_register (number_arg value) reg = emit_load_number (pos reg) value
  load_into_register (time_arg seconds) reg = emit_load_time (pos reg) seconds
  load_into_register (list_arg items) reg =
      let rest = load_items items reg 0 in
      if ltb (max_register_count - 3) reg then fail no_registers_for_array else do
        emit op_cast
        byte (pos reg)
        byte (pos reg)
        byte (pos (object_type_value none_type))
        rest

  -- The loop over the items of an array from the index on
  pub load_items : Arguments → ℕ → ℕ → Emit
  load_items no_args reg index = pure tt
  load_items (more_args item rest) reg index = do
    load_into_register item (reg + 1)
    emit_load_number (pos (reg + 2)) (pos index)
    emit op_put
    byte (pos (reg + 1))
    byte (pos reg)
    byte (pos (reg + 2))
    load_items rest reg (suc index)

-- The last argument is pushed first.
unfoldable pub insert_method_args : Arguments → Emit
insert_method_args no_args = pure tt
insert_method_args (more_args arg rest) = do
  insert_method_args rest
  load_into_register arg 0
  emit_push (pos 0)

unfoldable pub call_interop : Text → Arguments → Emit
call_interop method args = do
  insert_method_args args
  emit_load_string (pos 0) method
  emit op_extcall
  byte (pos 0)

unfoldable pub call_contract : Text → Text → Arguments → Emit
call_contract contract_name method args = do
  insert_method_args args
  emit_load_string (pos 0) method
  emit_push (pos 0)
  emit_load_string (pos 0) contract_name
  emit op_ctx
  byte (pos 0)
  byte (pos 1)
  emit op_switch
  byte (pos 1)

-- "gas"
abbrev gas_contract : Text
gas_contract = 103 ∷ 97 ∷ 115 ∷ []

-- "AllowGas"
abbrev allow_gas_method : Text
allow_gas_method = 65 ∷ 108 ∷ 108 ∷ 111 ∷ 119 ∷ 71 ∷ 97 ∷ 115 ∷ []

-- "SpendGas"
abbrev spend_gas_method : Text
spend_gas_method = 83 ∷ 112 ∷ 101 ∷ 110 ∷ 100 ∷ 71 ∷ 97 ∷ 115 ∷ []

-- "Runtime.TransferTokens"
abbrev transfer_tokens_method : Text
transfer_tokens_method =
    82 ∷ 117 ∷ 110 ∷ 116 ∷ 105 ∷ 109 ∷ 101 ∷ 46 ∷ 84 ∷ 114 ∷ 97 ∷ 110 ∷ 115 ∷ 102 ∷ 101 ∷ 114 ∷ 84
    ∷ 111 ∷ 107 ∷ 101 ∷ 110 ∷ 115 ∷ []

-- "Runtime.MintTokens"
abbrev mint_tokens_method : Text
mint_tokens_method =
    82 ∷ 117 ∷ 110 ∷ 116 ∷ 105 ∷ 109 ∷ 101 ∷ 46 ∷ 77 ∷ 105 ∷ 110 ∷ 116 ∷ 84 ∷ 111 ∷ 107 ∷ 101 ∷ 110
    ∷ 115 ∷ []

-- "Runtime.TransferBalance"
abbrev transfer_balance_method : Text
transfer_balance_method =
    82 ∷ 117 ∷ 110 ∷ 116 ∷ 105 ∷ 109 ∷ 101 ∷ 46 ∷ 84 ∷ 114 ∷ 97 ∷ 110 ∷ 115 ∷ 102 ∷ 101 ∷ 114 ∷ 66
    ∷ 97 ∷ 108 ∷ 97 ∷ 110 ∷ 99 ∷ 101 ∷ []

-- "Runtime.TransferToken"
abbrev transfer_token_method : Text
transfer_token_method =
    82 ∷ 117 ∷ 110 ∷ 116 ∷ 105 ∷ 109 ∷ 101 ∷ 46 ∷ 84 ∷ 114 ∷ 97 ∷ 110 ∷ 115 ∷ 102 ∷ 101 ∷ 114 ∷ 84
    ∷ 111 ∷ 107 ∷ 101 ∷ 110 ∷ []

-- "Runtime.SendTokens"
abbrev send_tokens_method : Text
send_tokens_method =
    82 ∷ 117 ∷ 110 ∷ 116 ∷ 105 ∷ 109 ∷ 101 ∷ 46 ∷ 83 ∷ 101 ∷ 110 ∷ 100 ∷ 84 ∷ 111 ∷ 107 ∷ 101 ∷ 110
    ∷ 115 ∷ []

-- "Runtime.SendToken"
abbrev send_token_method : Text
send_token_method =
    82 ∷ 117 ∷ 110 ∷ 116 ∷ 105 ∷ 109 ∷ 101 ∷ 46 ∷ 83 ∷ 101 ∷ 110 ∷ 100 ∷ 84 ∷ 111 ∷ 107 ∷ 101 ∷ 110
    ∷ []

-- "stake"
abbrev stake_contract : Text
stake_contract = 115 ∷ 116 ∷ 97 ∷ 107 ∷ 101 ∷ []

-- "Stake"
abbrev stake_method : Text
stake_method = 83 ∷ 116 ∷ 97 ∷ 107 ∷ 101 ∷ []

-- "Unstake"
abbrev unstake_method : Text
unstake_method = 85 ∷ 110 ∷ 115 ∷ 116 ∷ 97 ∷ 107 ∷ 101 ∷ []

unfoldable pub allow_gas : Address → Address → ℤ → ℤ → Emit
allow_gas from_address to_address gas_price gas_limit =
    call_contract gas_contract allow_gas_method (
      more_args (address_arg from_address) (
        more_args (address_arg to_address)
          (more_args (number_arg gas_price) (more_args (number_arg gas_limit) no_args))))

unfoldable pub spend_gas : Address → Emit
spend_gas from_address =
    call_contract gas_contract spend_gas_method (more_args (address_arg from_address) no_args)

unfoldable pub transfer_tokens : Text → Address → Address → ℤ → Emit
transfer_tokens symbol from_address to_address amount = call_interop transfer_tokens_method (
    more_args (address_arg from_address) (
      more_args (address_arg to_address)
        (more_args (text_arg symbol) (more_args (number_arg amount) no_args))))

unfoldable pub mint_tokens : Text → Address → Address → ℤ → Emit
mint_tokens symbol from_address to_address amount = call_interop mint_tokens_method (
    more_args (address_arg from_address) (
      more_args (address_arg to_address)
        (more_args (text_arg symbol) (more_args (number_arg amount) no_args))))

unfoldable pub transfer_balance : Text → Address → Address → Emit
transfer_balance symbol from_address to_address = call_interop transfer_balance_method (
    more_args (address_arg from_address)
      (more_args (address_arg to_address) (more_args (text_arg symbol) no_args)))

unfoldable pub transfer_nft : Text → Address → Address → ℤ → Emit
transfer_nft symbol from_address to_address token_id = call_interop transfer_token_method (
    more_args (address_arg from_address) (
      more_args (address_arg to_address)
        (more_args (text_arg symbol) (more_args (number_arg token_id) no_args))))

unfoldable pub cross_transfer_token : Address → Text → Address → Address → ℤ → Emit
cross_transfer_token destination_chain symbol from_address to_address amount =
    call_interop send_tokens_method (
      more_args (address_arg destination_chain) (
        more_args (address_arg from_address) (
          more_args (address_arg to_address)
            (more_args (text_arg symbol) (more_args (number_arg amount) no_args)))))

unfoldable pub cross_transfer_nft : Address → Text → Address → Address → ℤ → Emit
cross_transfer_nft destination_chain symbol from_address to_address token_id =
    call_interop send_token_method (
      more_args (address_arg destination_chain) (
        more_args (address_arg from_address) (
          more_args (address_arg to_address)
            (more_args (text_arg symbol) (more_args (number_arg token_id) no_args)))))

unfoldable pub stake : Address → ℤ → Emit
stake from_address amount =
    call_contract stake_contract stake_method
      (more_args (address_arg from_address) (more_args (number_arg amount) no_args))

unfoldable pub unstake : Address → ℤ → Emit
unstake from_address amount =
    call_contract stake_contract unstake_method
      (more_args (address_arg from_address) (more_args (number_arg amount) no_args))
