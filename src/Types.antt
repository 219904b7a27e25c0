-- ===== src/Types.antt =====
-- The values that a struct holds: `enum rpc_types` and `rpc_type_t` of include/ffirpc/rpc_struct.h,
-- and the tests on them of src/rpc_struct.c.
pub mod Values
use ffi_rpc.Base.{ℕ, Bool, true, false, String, ◌&&◌, not, nat_eq, ◌==◌}

pub data RpcType : Type 0 where
  rpc_none rpc_number rpc_real rpc_string rpc_struct rpc_sizedbuf rpc_function rpc_unknown : RpcType

-- `rpc_type_t`. The union `data_container` is one 64-bit word, which `raw_value` reads as bytes and
-- `ptr_value` as an address. The characters that the `char*` of an RPC_string points at are the
-- field `text`: the address itself stands only for being NULL or not, and no theorem says more of it.
pub record Element : Type 0 where
  pub word : ℕ
  pub text : String
  pub length : ℕ
  pub type : RpcType

-- `rpc_is_pointer`
unfoldable pub is_pointer : RpcType → Bool
is_pointer rpc_struct = true
is_pointer rpc_string = true
is_pointer rpc_sizedbuf = true
is_pointer rpc_function = true
is_pointer rpc_unknown = true
is_pointer rpc_none = false
is_pointer rpc_number = false
is_pointer rpc_real = false

unfoldable pub is_string : RpcType → Bool
is_string rpc_string = true
is_string _ = false

unfoldable pub is_unknown : RpcType → Bool
is_unknown rpc_unknown = true
is_unknown _ = false

-- The test `rpc_is_pointer(t) && t != RPC_string && t != RPC_unknown` of every place that counts
-- references.
unfoldable pub is_refcounted : RpcType → Bool
unfolding is_pointer is_string is_unknown
is_refcounted t = is_pointer t && not (is_string t) && not (is_unknown t)

-- The functions whose addresses `rpc_freefn_of` returns; `no_free` is NULL.
pub data FreeFn : Type 0 where
  no_free free_struct free_sizedbuf free_function : FreeFn

-- `rpc_freefn_of`
unfoldable pub freefn_of : RpcType → FreeFn
freefn_of rpc_struct = free_struct
freefn_of rpc_sizedbuf = free_sizedbuf
freefn_of rpc_function = free_function
freefn_of _ = no_free

-- The values of `enum rpc_types`, which C compares.
unfoldable pub value_of : RpcType → ℕ
value_of rpc_none = 0
value_of rpc_number = 1
value_of rpc_real = 2
value_of rpc_string = 3
value_of rpc_struct = 4
value_of rpc_sizedbuf = 5
value_of rpc_function = 6
value_of rpc_unknown = 7

-- `==` on two types.
unfoldable pub same_type : RpcType → RpcType → Bool
unfolding value_of
same_type a b = value_of a == value_of b
