-- ===== src/StructJson/Parts.antt =====
-- `rpc_struct_id_set` of src/rpc_struct.c, and what its readers of JSON store: functions, and pointers
-- that are made only for a new key.
use Prim.Native.String.{len}
use ffi_rpc.Base.{
  ℕ, Option, none, some, List, [], ◌∷◌, String, string_eq, nat_eq, ltb, if◌then◌else◌,
}
use ffi_rpc.Types.{RpcType}
use ffi_rpc.Types.Values.{type_with}
use ffi_rpc.Ext.Libs.{Libs}
use ffi_rpc.World.{RpcFunction, set_struct}
use ffi_rpc.World.Cmd.{ok, fault, pure, ◌>>=◌, ◌>>◌}
use ffi_rpc.Struct.{Cmd, load}
use ffi_rpc.Struct.Api.{exists, set_internal}
use ffi_rpc.Serial.{ReadFunction}

-- The characters that `memcpy` leaves in an ID: the new ones, then what the old one has behind them.
unfoldable pub overlay : String → String → String
overlay String.[] old = old
overlay (String.◌∷◌ c new) String.[] = String.◌∷◌ c new
overlay (String.◌∷◌ c new) (String.◌∷◌ d old) = String.◌∷◌ c (overlay new old)

-- The function that JSON described, if its numbers are types.
unfoldable pub types_of : List ℕ → Option (List RpcType)
types_of [] = some []
types_of (n ∷ ns) = elim (types_of ns) [
  | none ↦ none
  | some ts ↦ if ltb n 8 then some (type_with n ∷ ts) else none
]

unfoldable pub prototype_of : Option (List ℕ) → Option (Option (List RpcType))
unfolding types_of
prototype_of none = some none
prototype_of (some ns) = elim (types_of ns) [ none ↦ none | some ts ↦ some (some ts) ]

unfoldable pub function_with : ReadFunction → Option RpcFunction
unfolding prototype_of
function_with f = elim (prototype_of f.prototype) [
  | none ↦ none
  | some ts ↦
      if ltb f.return_type 8
      then some (record {
        prototype = ts;
        prototype_len = f.prototype_len;
        return_type = type_with f.return_type;
        fnptr = f.fnptr;
      })
      else none
]

module _ {L : Libs} where
  -- `rpc_struct_id_set`. An ID that leaves no room for the NUL is written out of bounds.
  unfoldable pub id_set : ℕ → String → Cmd L (Unit {0})
  unfolding load overlay
  id_set s id = do
    o ← load s
    if ltb (len id) 65
        then (λ w. ok tt (set_struct s (record o { id = overlay id o.id }) w))
        else (λ w. fault)

  -- Storing the pointer that a call gives, which `rpc_struct_set` makes only if the key is new.
  unfoldable pub set_made : (made : Cmd L ℕ) → RpcType → ℕ → String → Cmd L (Unit {0})
  unfolding exists set_internal
  set_made made type s key = do
    there ← exists s key
    if there then pure tt else (do
      p ← made
      set_internal s key (record { word = p; text = ""; length = 0; type = type })
      pure tt)
