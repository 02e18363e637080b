-- ===== src/Carbon/Calls/RoundTrip.antt =====
-- Calls with plain arguments and calls with sections read back.
use phantasma_py.Prelude.{
  ℤ, ◌>>=◌, pure, IsUnsigned, List, Option, pos, arith, length, ◌<◌, some, suc, ◌^◌, ◌≤◌, All,
  lt→ltb, negsuc, ◌≡◌, [], none, zero, refl, ◌∷◌, ◌==◌, false,
}
use phantasma_py.Bytes.{Bytes}
use phantasma_py.Carbon.Reader.{read4}
use phantasma_py.Carbon.Codec.{Encodes, Encodes-bind, Encodes-last, Encodes-weaken, Encodes-stop}
use phantasma_py.Carbon.Codec.Numbers.{write4_lem, write4u_lem, write8u_lem, write_lem}
use phantasma_py.Carbon.Codec.Arrays.{write_each_lem, write_carbon_array_lem}
use phantasma_py.Carbon.Calls.{
  CallArgSection, write_call_arg_section, read_section_body, read_call_arg_section,
  MsgCallArgSections, has_sections, negated, write_msg_call_arg_sections, read_with_count,
  TxMsgCall, write_plain_args, write_call_body, write_tx_msg_call, read_call_body, read_tx_msg_call,
  TxMsgCallMulti, write_tx_msg_call_multi, read_tx_msg_call_multi, TxMsgSpecialResolution,
  write_tx_msg_special_resolution, read_tx_msg_special_resolution,
}

-- A section is a register offset, which is negative, with no bytes, or bytes at the offset 0.
abbrev SectionFits : ℤ → Bytes → Type 0
SectionFits (pos zero) args = length args < 2 ^ 31
SectionFits (pos (suc n)) args = ⊥
SectionFits (negsuc n) args = (n < 2 ^ 31) × (args ≡ [])

abbrev pub IsCallArgSection : CallArgSection → Type 0
IsCallArgSection s = SectionFits s.register_offset s.args

section_lem :
    (offset : ℤ) (args : Bytes)
    → SectionFits offset args
    → Encodes 1
        (write_call_arg_section (record { register_offset = offset; args = args }))
        read_call_arg_section
        (record { register_offset = offset; args = args })
unfolding write_call_arg_section read_call_arg_section read_section_body
section_lem (pos zero) args h = Encodes-weaken 1 (omega arith) (
    Encodes-bind (write4_lem (pos (length args)) h) read_section_body
      (Encodes-last (write_lem args) _))
section_lem (pos (suc n)) args h = absurd h
section_lem (negsuc n) args (h, e) = rw e (
    Encodes-weaken 1 (omega arith)
      (Encodes-stop (write4_lem (negsuc n) h) read_section_body (λ reader. unfold pure in refl)))

pub write_call_arg_section_lem :
    (s : CallArgSection)
    → IsCallArgSection s
    → Encodes 1 (write_call_arg_section s) read_call_arg_section s
write_call_arg_section_lem s h = section_lem s.register_offset s.args h

-- The arguments of a call are plain bytes, or sections and no plain bytes.
abbrev CallFits : Option MsgCallArgSections → Bytes → Type 0
CallFits none args = length args < 2 ^ 31
CallFits (some s) args =
    (args ≡ [])
    × (0 < length s.sections)
    × (length s.sections ≤ 2 ^ 31)
    × All IsCallArgSection s.sections

pub record IsTxMsgCall (m : TxMsgCall) : Type 0 where
  pub module_id : IsUnsigned 32 m.module_id
  pub method_id : IsUnsigned 32 m.method_id
  pub body : CallFits m.sections m.args

sections_lem :
    (module_id method_id : ℤ) (sections : List CallArgSection)
    → 0 < length sections
    → length sections ≤ 2 ^ 31
    → All IsCallArgSection sections
    → Encodes 4
        (write_msg_call_arg_sections (record { sections = sections }))
        (read4 >>= read_call_body module_id method_id)
        (record {
          module_id = module_id;
          method_id = method_id;
          args = [];
          sections = some (record { sections = sections });
        })
unfolding write_msg_call_arg_sections read_call_body read_with_count negated
sections_lem module_id method_id [] h fits all = absurd (omega arith)
sections_lem module_id method_id (s ∷ sections) h fits all =
    let nonempty : (length (s ∷ sections) == 0) ≡ false = ground arith in
    rw nonempty (
      Encodes-bind (write4_lem (negsuc (length sections)) (omega arith))
        (read_call_body module_id method_id)
        (Encodes-last
          (Encodes-last (write_each_lem write_call_arg_section_lem (s ∷ sections) all) _) _))

call_body_lem :
    (module_id method_id : ℤ) (sections : Option MsgCallArgSections) (args : Bytes)
    → CallFits sections args
    → Encodes 4
        (write_call_body sections args)
        (read4 >>= read_call_body module_id method_id)
        (record { module_id = module_id; method_id = method_id; args = args; sections = sections })
unfolding write_call_body write_plain_args read_call_body has_sections
call_body_lem module_id method_id none args h =
    Encodes-bind (write4_lem (pos (length args)) h) _ (Encodes-last (write_lem args) _)
call_body_lem module_id method_id (some s) args (e, some_sections, fits, all) =
    rw (e, lt→ltb _ _ some_sections)
      (sections_lem module_id method_id s.sections some_sections fits all)

pub write_tx_msg_call_lem :
    (m : TxMsgCall) → IsTxMsgCall m → Encodes 4 (write_tx_msg_call m) read_tx_msg_call m
unfolding write_tx_msg_call read_tx_msg_call
write_tx_msg_call_lem m h = Encodes-bind (write4u_lem m.module_id h.module_id) _ (
    Encodes-bind (write4u_lem m.method_id h.method_id) _
      (call_body_lem m.module_id m.method_id m.sections m.args h.body))

abbrev pub AreCalls : List TxMsgCall → Type 0
AreCalls calls = (length calls < 2 ^ 31) × All IsTxMsgCall calls

pub write_tx_msg_call_multi_lem :
    (m : TxMsgCallMulti)
    → AreCalls m.calls
    → Encodes 4 (write_tx_msg_call_multi m) read_tx_msg_call_multi m
unfolding write_tx_msg_call_multi read_tx_msg_call_multi
write_tx_msg_call_multi_lem m (h, all) =
    Encodes-last (write_carbon_array_lem write_tx_msg_call_lem m.calls h all) _

pub write_tx_msg_special_resolution_lem :
    (m : TxMsgSpecialResolution)
    → IsUnsigned 64 m.resolution_id
    → AreCalls m.calls
    → Encodes 8 (write_tx_msg_special_resolution m) read_tx_msg_special_resolution m
unfolding write_tx_msg_special_resolution read_tx_msg_special_resolution
write_tx_msg_special_resolution_lem m id (h, all) =
    Encodes-bind (write8u_lem m.resolution_id id) _
      (Encodes-last (write_carbon_array_lem write_tx_msg_call_lem m.calls h all) _)
