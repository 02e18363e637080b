-- ===== src/Carbon/Calls.antt =====
-- The calls of carbon.py: `TxMsgCall` with its argument sections, and the messages made of calls.
pub mod RoundTrip
use phantasma_py.Prelude.{
  ℤ, ◌>>=◌, ◌>>◌, pure, Bool, List, Option, if◌then◌else◌, pos, ℕ, is_negative, length, ltb, negsuc,
  none, raise, some, suc, [], serialization, zero, ◌==◌,
}
use phantasma_py.Bytes.{Bytes}
use phantasma_py.Carbon.Writer.{
  Write, write, write4, write4u, write8u, write_each, write_carbon_array,
}
use phantasma_py.Carbon.Reader.{Read, read, read4, read4u, read8u, read_each, read_carbon_array}

pub record CallArgSection : Type 0 where
  pub register_offset : ℤ
  pub args : Bytes

unfoldable pub write_call_arg_section : CallArgSection → Write
write_call_arg_section s =
    if is_negative s.register_offset
    then write4 s.register_offset
    else do write4 (pos (length s.args)); write s.args

-- `read_carbon` behind the number: a negative one is a register offset, any other a length.
unfoldable pub read_section_body : ℤ → Read CallArgSection
read_section_body (pos n) = do args ← read n; pure (record { register_offset = pos 0; args = args })
read_section_body (negsuc n) = pure (record { register_offset = negsuc n; args = [] })

unfoldable pub read_call_arg_section : Read CallArgSection
read_call_arg_section = do value ← read4; read_section_body value

pub record MsgCallArgSections : Type 0 where
  pub sections : List CallArgSection

unfoldable pub has_sections : MsgCallArgSections → Bool
has_sections s = ltb 0 (length s.sections)

-- `-n`
unfoldable pub negated : ℕ → ℤ
negated zero = pos 0
negated (suc n) = negsuc n

unfoldable pub write_msg_call_arg_sections : MsgCallArgSections → Write
write_msg_call_arg_sections s =
    if length s.sections == 0
    then raise serialization
    else do write4 (negated (length s.sections)); write_each write_call_arg_section s.sections

unfoldable pub read_with_count : ℤ → Read MsgCallArgSections
read_with_count (pos n) = raise serialization
read_with_count (negsuc n) = do
  sections ← read_each (suc n) read_call_arg_section
  pure (record { sections = sections })

pub record TxMsgCall : Type 0 where
  pub module_id : ℤ
  pub method_id : ℤ
  pub args : Bytes
  pub sections : Option MsgCallArgSections

unfoldable pub write_plain_args : Bytes → Write
write_plain_args args = do write4 (pos (length args)); write args

-- `write_carbon` behind the two ids: sections are written if there are any, else the plain bytes.
unfoldable pub write_call_body : Option MsgCallArgSections → Bytes → Write
write_call_body none args = write_plain_args args
write_call_body (some s) args =
    if has_sections s then write_msg_call_arg_sections s else write_plain_args args

unfoldable pub write_tx_msg_call : TxMsgCall → Write
write_tx_msg_call m = do write4u m.module_id; write4u m.method_id; write_call_body m.sections m.args

unfoldable pub read_call_body : ℤ → ℤ → ℤ → Read TxMsgCall
read_call_body module_id method_id (pos n) = do
  args ← read n
  pure (record { module_id = module_id; method_id = method_id; args = args; sections = none })
read_call_body module_id method_id (negsuc n) = do
  sections ← read_with_count (negsuc n)
  pure
      (record { module_id = module_id; method_id = method_id; args = []; sections = some sections })

unfoldable pub read_tx_msg_call : Read TxMsgCall
read_tx_msg_call = do
  module_id ← read4u
  method_id ← read4u
  n ← read4
  read_call_body module_id method_id n

pub record TxMsgCallMulti : Type 0 where
  pub calls : List TxMsgCall

unfoldable pub write_tx_msg_call_multi : TxMsgCallMulti → Write
write_tx_msg_call_multi m = write_carbon_array write_tx_msg_call m.calls

unfoldable pub read_tx_msg_call_multi : Read TxMsgCallMulti
read_tx_msg_call_multi = do
  calls ← read_carbon_array read_tx_msg_call
  pure (record { calls = calls })

pub record TxMsgSpecialResolution : Type 0 where
  pub resolution_id : ℤ
  pub calls : List TxMsgCall

unfoldable pub write_tx_msg_special_resolution : TxMsgSpecialResolution → Write
write_tx_msg_special_resolution m = do
  write8u m.resolution_id
  write_carbon_array write_tx_msg_call m.calls

unfoldable pub read_tx_msg_special_resolution : Read TxMsgSpecialResolution
read_tx_msg_special_resolution = do
  resolution_id ← read8u
  calls ← read_carbon_array read_tx_msg_call
  pure (record { resolution_id = resolution_id; calls = calls })
