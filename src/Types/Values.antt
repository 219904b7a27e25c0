-- ===== src/Types/Values.antt =====
-- The values of `enum rpc_types` tell the types apart.
use ffi_rpc.Base.{ℕ, zero, suc, ◌≡◌, ◌↔◌, refl, sym, ap, ◌∙◌, true, nat_beq_iff}
use ffi_rpc.Types.{
  RpcType, rpc_none, rpc_number, rpc_real, rpc_string, rpc_struct, rpc_sizedbuf, rpc_function,
  rpc_unknown, value_of, same_type,
}

abbrev pub type_with : ℕ → RpcType
type_with zero = rpc_none
type_with (suc zero) = rpc_number
type_with (suc (suc zero)) = rpc_real
type_with (suc (suc (suc zero))) = rpc_string
type_with (suc (suc (suc (suc zero)))) = rpc_struct
type_with (suc (suc (suc (suc (suc zero))))) = rpc_sizedbuf
type_with (suc (suc (suc (suc (suc (suc zero)))))) = rpc_function
type_with (suc (suc (suc (suc (suc (suc (suc n))))))) = rpc_unknown

type_with-value_of : (t : RpcType) → type_with (value_of t) ≡ t
unfolding value_of
type_with-value_of rpc_none = refl
type_with-value_of rpc_number = refl
type_with-value_of rpc_real = refl
type_with-value_of rpc_string = refl
type_with-value_of rpc_struct = refl
type_with-value_of rpc_sizedbuf = refl
type_with-value_of rpc_function = refl
type_with-value_of rpc_unknown = refl

pub value_of-injective : (t u : RpcType) → value_of t ≡ value_of u → t ≡ u
value_of-injective t u e = sym (type_with-value_of t) ∙ ap type_with e ∙ type_with-value_of u

pub same_type_iff : (a b : RpcType) → (same_type a b ≡ true) ↔ (a ≡ b)
unfolding same_type
same_type_iff a b = (
  (λ e. value_of-injective a b ((nat_beq_iff (value_of a) (value_of b)).0 e)),
  (λ e. (nat_beq_iff (value_of a) (value_of b)).1 (ap value_of e)),
)
