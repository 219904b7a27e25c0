-- ===== src/Registry.antt =====
-- The objects of src/rpc_object.c by name and by ID, and the objects local to a connection. The
-- static variables are a record, and the stack of current objects is that of CallStack.
pub mod Lookup
pub mod Removal
pub mod Local
use ffi_rpc.Base.{ℕ, zero, suc, Option, none, some, String, nat_eq, ◌==◌, if◌then◌else◌}
use ffi_rpc.Ext.Libs.{Libs}
use ffi_rpc.World.Cmd.{out_of_fuel, pure, ◌>>=◌, ◌>>◌}
use ffi_rpc.Struct.{Cmd, load}
use ffi_rpc.Struct.Api.{create, free}
use ffi_rpc.Typed.{Variable, struct_t, set, get}
use ffi_rpc.CallStack.{current}

-- `RO_cobject_bname`, `RO_cobject_bid`, `RO_protocache` and `RO_lobjects`, of one thread.
pub record Objects : Type 0 where
  pub cobject_bname : ℕ
  pub cobject_bid : ℕ
  pub protocache : ℕ
  pub lobjects : ℕ

-- A variable of type `rpc_struct_t`.
abbrev pub struct_var : ℕ → Variable
struct_var p = record { ctype = struct_t; bits = p; text = "" }

module _ {L : Libs} where
  -- `rpc_object_init`, for the addresses and IDs of the three structs.
  unfoldable pub object_init :
      (bname bid protocache : ℕ) → (ids : String × String × String) → Cmd L Objects
  unfolding create
  object_init bname bid protocache ids = do
    a ← create bname ids.0
    b ← create bid ids.1
    c ← create protocache ids.2
    pure (record { cobject_bname = a; cobject_bid = b; protocache = c; lobjects = 0 })

  -- `rpc_struct_id_get`
  unfoldable pub id_get : ℕ → Cmd L String
  unfolding load
  id_get s = do o ← load s; pure o.id

  -- `rpc_cobject_set`
  unfoldable pub cobject_set : Objects → String → ℕ → Cmd L ℕ
  unfolding set id_get
  cobject_set g cobj_name cobj = do
    ret ← set g.cobject_bname cobj_name (struct_var cobj)
    if ret == 0 then (do id ← id_get cobj; set g.cobject_bid id (struct_var cobj)) else pure ret

  -- `rpc_cobject_get`
  unfoldable pub cobject_get : Objects → String → Cmd L ℕ
  unfolding get
  cobject_get g cobj_name = do
    by_name ← get g.cobject_bname cobj_name (struct_var 0)
    if by_name.0 == 0
        then pure by_name.1.bits
        else (do by_id ← get g.cobject_bid cobj_name by_name.1; pure by_id.1.bits)

  -- `rpc_cobject_remove`
  unfoldable pub cobject_remove : Objects → (stack : L.queues.Queue ℕ) → String → Cmd L ℕ
  unfolding get
  cobject_remove g stack cobj_name =
      if L.queues.size stack == 0
      then (do
        by_name ← get g.cobject_bname cobj_name (struct_var 0)
        found ← if by_name.0 == 0 then pure by_name else get g.cobject_bid cobj_name by_name.1
        free found.1.bits
        pure found.0)
      else pure 0

  -- The loop of `rpc_lobject_get`; `none` is a failed `assert`. Each round that does not find the
  -- struct creates it at a new address.
  unfoldable pub lobject_loop :
      (rounds : ℕ) → (fresh : ℕ) → (new_id : String) → ℕ → String → Cmd L (Option ℕ)
  lobject_loop zero fresh new_id lobjects c_id = λ w. out_of_fuel
  lobject_loop (suc rounds) fresh new_id lobjects c_id = do
    found ← get lobjects c_id (struct_var 0)
    let again = lobject_loop rounds fresh new_id lobjects c_id
    if found.0 == 0 then pure (some found.1.bits) else (do
      new ← create fresh new_id
      stored ← set lobjects c_id (struct_var new)
      if stored == 0 then again else pure none)

  -- `rpc_lobject_get`
  unfoldable pub lobject_get :
      Objects → (stack : L.queues.Queue ℕ) → (fresh : ℕ) → (new_id : String) → Cmd L (Option ℕ)
  lobject_get g stack fresh new_id =
      if g.lobjects == 0 then pure (some 0) else elim (current L.queues stack) [
        | none ↦ pure none
        | some cobject ↦
            if cobject == 0
            then pure (some 0)
            else (do c_id ← id_get cobject; lobject_loop 2 fresh new_id g.lobjects c_id)
      ]

-- `rpc_lobjects_load`
unfoldable pub lobjects_load : Objects → ℕ → Objects
lobjects_load g lobjects = record g { lobjects = lobjects }
