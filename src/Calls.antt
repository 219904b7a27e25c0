-- ===== src/Calls.antt =====
-- The check of a call's arguments in src/rpc_object.c. `sprintf` with "%d" is the argument `decimal`.
pub mod Prototype
use ffi_rpc.Base.{
  ℕ, ◌+◌, Bool, true, false, List, [], ◌∷◌, String, nat_eq, ◌==◌, ltb, if◌then◌else◌,
}
use ffi_rpc.Base
use ffi_rpc.Types.{RpcType, value_of}
use ffi_rpc.Ext.Libs.{Libs}
use ffi_rpc.World.Cmd.{pure, ◌>>=◌, ◌>>◌}
use ffi_rpc.Struct.{Cmd}
use ffi_rpc.Struct.Api.{type_of}
use ffi_rpc.Struct.Api

module _ {L : Libs} (decimal : ℕ → String) (args : ℕ) where
  -- The loop of `proto_equals` from index `i` on.
  unfoldable pub types_from : (i : ℕ) → List RpcType → Cmd L Bool
  types_from i [] = pure true
  types_from i (t ∷ ts) = do
    u ← type_of args (decimal i)
    elim (value_of u == value_of t) [ true ↦ types_from (i + 1) ts | false ↦ pure false ]

  -- `proto_equals`
  unfoldable pub proto_equals : List RpcType → Cmd L Bool
  unfolding types_from
  proto_equals proto = do
    n ← Api.length args
    if ltb n (Base.length proto) then pure false else types_from 0 proto
