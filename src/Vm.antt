-- ===== src/Vm.antt =====
-- vm.py: the opcodes and the types of the VM, and the script builder.
pub mod Script
pub mod Objects
mod Examples
use phantasma_py.Prelude.{ℕ}

pub data Opcode : Type 0 where
  op_nop op_move op_copy op_push op_pop op_swap op_call op_extcall op_jmp op_jmpif op_jmpnot op_ret
        op_throw op_load op_cast op_cat op_range op_left op_right op_size op_count op_not op_and
        op_or op_xor op_equal op_lt op_gt op_lte op_gte op_inc op_dec op_sign op_negate op_abs
        op_add op_sub op_mul op_div op_mod op_shl op_shr op_min op_max op_pow op_ctx op_switch
        op_put op_get op_clear op_unpack op_pack op_debug op_substr op_remove op_evm :
      Opcode

-- `int(opcode)`
unfoldable pub opcode_value : Opcode → ℕ
opcode_value op_nop = 0
opcode_value op_move = 1
opcode_value op_copy = 2
opcode_value op_push = 3
opcode_value op_pop = 4
opcode_value op_swap = 5
opcode_value op_call = 6
opcode_value op_extcall = 7
opcode_value op_jmp = 8
opcode_value op_jmpif = 9
opcode_value op_jmpnot = 10
opcode_value op_ret = 11
opcode_value op_throw = 12
opcode_value op_load = 13
opcode_value op_cast = 14
opcode_value op_cat = 15
opcode_value op_range = 16
opcode_value op_left = 17
opcode_value op_right = 18
opcode_value op_size = 19
opcode_value op_count = 20
opcode_value op_not = 21
opcode_value op_and = 22
opcode_value op_or = 23
opcode_value op_xor = 24
opcode_value op_equal = 25
opcode_value op_lt = 26
opcode_value op_gt = 27
opcode_value op_lte = 28
opcode_value op_gte = 29
opcode_value op_inc = 30
opcode_value op_dec = 31
opcode_value op_sign = 32
opcode_value op_negate = 33
opcode_value op_abs = 34
opcode_value op_add = 35
opcode_value op_sub = 36
opcode_value op_mul = 37
opcode_value op_div = 38
opcode_value op_mod = 39
opcode_value op_shl = 40
opcode_value op_shr = 41
opcode_value op_min = 42
opcode_value op_max = 43
opcode_value op_pow = 44
opcode_value op_ctx = 45
opcode_value op_switch = 46
opcode_value op_put = 47
opcode_value op_get = 48
opcode_value op_clear = 49
opcode_value op_unpack = 50
opcode_value op_pack = 51
opcode_value op_debug = 52
opcode_value op_substr = 53
opcode_value op_remove = 54
opcode_value op_evm = 255

-- `VMType` of vm.py
pub data VmObjectType : Type 0 where
  none_type struct_type bytes_type number_type string_type timestamp_type bool_type enum_type
        object_type :
      VmObjectType

unfoldable pub object_type_value : VmObjectType → ℕ
object_type_value none_type = 0
object_type_value struct_type = 1
object_type_value bytes_type = 2
object_type_value number_type = 3
object_type_value string_type = 4
object_type_value timestamp_type = 5
object_type_value bool_type = 6
object_type_value enum_type = 7
object_type_value object_type = 8
