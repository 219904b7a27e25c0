-- ===== src/Typed.antt =====
-- The macros of include/ffirpc/rpc_struct.h and rpc_struct_internal.h that store and read C variables.
pub mod RoundTrip
use ffi_rpc.Base.{ℕ, ◌+◌, ◌*◌, ◌/◌, ◌%◌, ◌^◌, Bool, true, false, String, ltb, if◌then◌else◌}
use ffi_rpc.Types.{
  RpcType, Element, rpc_number, rpc_real, rpc_string, rpc_struct, rpc_sizedbuf, rpc_function,
  rpc_unknown, is_pointer, same_type,
}
use ffi_rpc.Ext.Libs.{Libs}
use ffi_rpc.World.Cmd.{pure, ◌>>=◌}
use ffi_rpc.Struct.{Cmd}
use ffi_rpc.Struct.Api.{set_internal, get_internal, exists, is_none}

-- The types that `ctype_to_rpc` tells apart; `other_t` is any other pointer.
pub data CType : Type 0 where
  char_t int8_t uint8_t int16_t uint16_t int32_t uint32_t int64_t uint64_t float_t double_t : CType
  string_t struct_t sizedbuf_t function_t other_t : CType

-- `ctype_to_rpc`
unfoldable pub ctype_to_rpc : CType → RpcType
ctype_to_rpc float_t = rpc_real
ctype_to_rpc double_t = rpc_real
ctype_to_rpc string_t = rpc_string
ctype_to_rpc struct_t = rpc_struct
ctype_to_rpc sizedbuf_t = rpc_sizedbuf
ctype_to_rpc function_t = rpc_function
ctype_to_rpc other_t = rpc_unknown
ctype_to_rpc _ = rpc_number

-- `sizeof`, on a machine with 64-bit pointers.
unfoldable pub size_of : CType → ℕ
size_of char_t = 1
size_of int8_t = 1
size_of uint8_t = 1
size_of int16_t = 2
size_of uint16_t = 2
size_of int32_t = 4
size_of uint32_t = 4
size_of float_t = 4
size_of _ = 8

-- A C variable: its bytes as a number, the first the least significant, and the characters that a
-- `char*` points at.
pub record Variable : Type 0 where
  pub ctype : CType
  pub bits : ℕ
  pub text : String

-- The bytes that `memcpy` overwrites: the first `count` of a variable.
abbrev pub overwrite : (count : ℕ) → ℕ → ℕ → ℕ
overwrite count old new = old / 256 ^ count * 256 ^ count + new % 256 ^ count

-- `c_to_rpc`. The bytes that it leaves unset are 0 here.
unfoldable pub c_to_rpc : Variable → Element
unfolding ctype_to_rpc size_of
c_to_rpc v = elim (is_pointer (ctype_to_rpc v.ctype)) [
  | true ↦ record { word = v.bits; text = v.text; length = 0; type = ctype_to_rpc v.ctype }
  | false ↦ record {
    word = overwrite (size_of v.ctype) 0 v.bits;
    text = "";
    length = size_of v.ctype;
    type = ctype_to_rpc v.ctype;
  }
]

-- How many bytes `rpc_struct_get` copies into a variable of that size.
unfoldable pub copied : (size : ℕ) → Element → ℕ
copied size e =
    let width = if is_pointer e.type then 8 else e.length in if ltb size width then size else width

-- The `memcpy` of `rpc_struct_get` and `rpc_struct_get_unsafe`.
unfoldable pub fill : Variable → Element → Variable
unfolding copied size_of
fill out e = record out {
  bits = overwrite (copied (size_of out.ctype) e) out.bits e.word;
  text = if is_pointer e.type then e.text else out.text;
}

module _ {L : Libs} where
  -- `rpc_struct_set`
  unfoldable pub set : ℕ → String → Variable → Cmd L ℕ
  unfolding exists set_internal c_to_rpc
  set s key v = do there ← exists s key; if there then pure 1 else set_internal s key (c_to_rpc v)

  -- `rpc_struct_get`: the result and the output.
  unfoldable pub get : ℕ → String → Variable → Cmd L (ℕ × Variable)
  unfolding get_internal is_none same_type ctype_to_rpc fill
  get s key out = do
    e ← get_internal s key
    if is_none e.type
        then pure (1, out)
        else if same_type e.type (ctype_to_rpc out.ctype)
        then pure (0, fill out e)
        else pure (1, out)

  -- `rpc_struct_get_unsafe`
  unfoldable pub get_unsafe : ℕ → String → Variable → Cmd L (ℕ × Variable)
  unfolding get_internal is_none fill
  get_unsafe s key out = do
    e ← get_internal s key
    if is_none e.type then pure (1, out) else pure (0, fill out e)
