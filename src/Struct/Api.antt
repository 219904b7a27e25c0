-- ===== src/Struct/Api.antt =====
-- The operations of src/rpc_struct.c that a user of a struct calls. `malloc` is an argument: the
-- address `fresh` that it returns, and so is the random ID of a new struct.
use Prim.Native.String.{len}
use ffi_rpc.Base.{
  ℕ, ◌+◌, Bool, true, false, Option, none, some, List, [], ◌∷◌, String, nat_eq, string_eq, ◌==◌,
  if◌then◌else◌, ◌&&◌, ◌||◌, not, is_some, map,
}
use ffi_rpc.Types.{RpcType, rpc_none, Element, is_pointer, is_string, is_refcounted, freefn_of}
use ffi_rpc.Ext.Libs.{Libs}
use ffi_rpc.World.{World, RpcStruct, Prec, set_struct}
use ffi_rpc.World.Cmd.{ok, pure, ◌>>=◌, ◌>>◌}
use ffi_rpc.Struct.{
  Cmd, load, prec_get, prec_new, prec_increment, prec_decrement, remove_with, delete,
  free_struct_internal, tracked_count,
}

-- `rpc_type_t cont = {0}`
abbrev pub no_element : Element
no_element = record { word = 0; text = ""; length = 0; type = rpc_none }

-- The test at the head of `rpc_struct_set_internal`.
unfoldable pub storable : Element → Bool
unfolding is_pointer
storable e = (is_pointer e.type && not (e.word == 0)) || not (is_pointer e.type)

-- The address of a text that `strdup` returns, in place of the caller's. Only that it is not NULL is
-- meant: nothing is ever looked up under the address of a text, which is a field of the element.
abbrev pub duplicate : ℕ
duplicate = 1

-- The `strdup` of `rpc_struct_set_internal`, and the length that it sets.
unfoldable pub stored : Element → Element
unfolding is_string
stored e = if is_string e.type then record e { word = duplicate; length = len e.text + 1 } else e

unfoldable pub is_none : RpcType → Bool
is_none rpc_none = true
is_none _ = false

module _ {L : Libs} where
  -- `rpc_struct_create`
  unfoldable pub create : (fresh : ℕ) → String → Cmd L ℕ
  create fresh id w = ok fresh (
      set_struct fresh
        (record { map = L.by_name.init Element; id = id; copyof = 0; manual_destructor = 0 }) w)

  -- `rpc_struct_add_destructor`
  unfoldable pub add_destructor : ℕ → ℕ → Cmd L (Unit {0})
  unfolding load
  add_destructor s d =
      if s == 0
      then pure tt
      else do o ← load s; λ w. ok tt (set_struct s (record o { manual_destructor = d }) w)

  -- The references that `rpc_struct_set_internal` takes.
  unfoldable pub take_reference : ℕ → String → Element → Cmd L (Unit {0})
  unfolding prec_new prec_increment
  take_reference s key e =
      if is_refcounted e.type
      then (do
        prec_new e.word
        prec_increment e.word
            (some (record { origin = s; name = some key; free = freefn_of e.type })))
      else pure tt

  unfoldable pub put_element : ℕ → String → Element → RpcStruct L → Cmd L ℕ
  put_element s key e o w = ok 0 (set_struct s (record o { map = (L.by_name.put o.map key e).0 }) w)

  -- The rest of `rpc_struct_set_internal` behind its tests.
  unfoldable pub set_if : Bool → ℕ → String → Element → RpcStruct L → Cmd L ℕ
  unfolding take_reference put_element
  set_if false s key e o = pure 1
  set_if true s key e o = do take_reference s key e; put_element s key (stored e) o

  -- `rpc_struct_set_internal`: 0 if the element was stored, 1 if not.
  unfoldable pub set_internal : ℕ → String → Element → Cmd L ℕ
  unfolding load set_if
  set_internal s key e = do
    o ← load s
    set_if (storable e && not (is_some (L.by_name.get o.map key))) s key e o

  -- `rpc_struct_get_internal`
  unfoldable pub get_internal : ℕ → String → Cmd L Element
  unfolding load
  get_internal s key = if s == 0 then pure no_element else do
    o ← load s
    elim (L.by_name.get o.map key) [ none ↦ pure no_element | some e ↦ pure e ]

  -- `rpc_struct_typeof`
  unfoldable pub type_of : ℕ → String → Cmd L RpcType
  unfolding get_internal
  type_of s key = do e ← get_internal s key; pure e.type

  -- `rpc_struct_exists`
  unfoldable pub exists : ℕ → String → Cmd L Bool
  unfolding get_internal is_none
  exists s key = do e ← get_internal s key; pure (not (is_none e.type))

  -- `rpc_struct_length`
  unfoldable pub length : ℕ → Cmd L ℕ
  unfolding load
  length s = do o ← load s; pure (L.by_name.size o.map)

  -- `rpc_struct_keys`
  unfoldable pub keys : ℕ → Cmd L (List String)
  unfolding load
  keys s = do o ← load s; pure (map (λ (e : String × Element). e.0) (L.by_name.entries o.map))

  -- `rpc_struct_remove`
  unfoldable pub remove : ℕ → String → Cmd L ℕ
  unfolding remove_with delete
  remove s key w = remove_with (delete (tracked_count w)) s key w

  -- `rpc_struct_free`
  unfoldable pub free : ℕ → Cmd L (Unit {0})
  unfolding delete free_struct_internal
  free s w = if s == 0 then ok tt w else elim (prec_get s w) [
    | some r ↦ delete (tracked_count w) s w
    | none ↦ free_struct_internal (delete (tracked_count w)) s w
  ]

  -- `prec_refcount`
  abbrev pub refcount_of : Option (Prec L) → ℕ
  refcount_of none = 0
  refcount_of (some r) = r.refcount

  abbrev pub refcount : ℕ → World L → ℕ
  refcount p w = refcount_of (prec_get p w)

  -- `rpc_struct_decrement_refcount`
  unfoldable pub decrement_refcount : ℕ → Cmd L (Unit {0})
  unfolding prec_decrement delete
  decrement_refcount p w = prec_decrement (delete (tracked_count w)) p none w

  -- `rpc_struct_is_refcounted`
  unfoldable pub is_tracked : ℕ → World L → Bool
  is_tracked p w = is_some (prec_get p w)

  -- The loop of `rpc_struct_copy`.
  unfoldable pub copy_elements : ℕ → List (String × Element) → Cmd L (Unit {0})
  unfolding set_internal prec_increment
  copy_elements copy [] = pure tt
  copy_elements copy ((key, e) ∷ es) = do
    (if is_refcounted e.type
        then prec_increment e.word
            (some (record { origin = copy; name = some key; free = freefn_of e.type }))
        else pure tt)
    set_internal copy key e
    copy_elements copy es

  unfoldable pub set_copyof : ℕ → ℕ → Cmd L (Unit {0})
  unfolding load
  set_copyof copy original = do
    c ← load copy
    λ w. ok tt (set_struct copy (record c { copyof = original }) w)

  -- `rpc_struct_copy`. The ID of the copy is the original's: both have the full length.
  unfoldable pub copy : (fresh : ℕ) → ℕ → Cmd L ℕ
  unfolding load
  copy fresh original = do
    o ← load original
    create fresh o.id
    copy_elements fresh (L.by_name.entries o.map)
    set_copyof fresh original
    pure fresh

  -- `rpc_struct_whose_copy`
  unfoldable pub whose_copy : ℕ → Cmd L ℕ
  unfolding load
  whose_copy s = do
    o ← load s
    if o.copyof == 0 then pure 0 else λ w. elim (prec_get o.copyof w) [
      | some r ↦ ok o.copyof w
      | none ↦ ok 0 (set_struct s (record o { copyof = 0 }) w)
    ]
