-- ===== src/Objects.antt =====
-- The objects besides structs that an element can refer to: buffers of src/rpc_sizedbuf.c and
-- functions of src/rpc_function.c. `malloc` is the argument `fresh`, as in Struct/Api.
pub mod Allocation
pub mod Copies
use ffi_rpc.Base.{
  ℕ, Bool, Option, none, some, List, [], nat_eq, ◌==◌, leb, if◌then◌else◌, take, length,
}
use ffi_rpc.Types.{RpcType, rpc_none}
use ffi_rpc.Ext.Libs.{Libs}
use ffi_rpc.World.{World, Object, RpcFunction, a_sizedbuf, a_function, write}
use ffi_rpc.World.Cmd.{ok, fault, pure, ◌>>=◌, ◌>>◌}
use ffi_rpc.Struct.{
  Cmd, prec_get, delete, tracked_count, free_sizedbuf_internal, free_function_internal,
}

-- What `memcpy` reads: a NULL prototype has no cells.
abbrev pub cells : Option (List RpcType) → List RpcType
cells none = []
cells (some ts) = ts

module _ {L : Libs} where
  abbrev pub put_object : ℕ → Object L → World L → World L
  put_object p x w = record w { heap = write w.heap p (some x) }

  -- `rpc_sizedbuf_create`. The bytes are read out of bounds where this faults.
  unfoldable pub create_sizedbuf : (fresh : ℕ) → List ℕ → ℕ → Cmd L ℕ
  create_sizedbuf fresh buf len w =
      if leb len (length buf)
      then ok fresh (put_object fresh (a_sizedbuf (record { buf = take len buf; length = len })) w)
      else fault

  -- `rpc_sizedbuf_getbuf`: the result and `out_length`.
  unfoldable pub getbuf : ℕ → Cmd L (List ℕ × ℕ)
  getbuf p w = elim (w.heap p) [ some (a_sizedbuf b) ↦ ok (b.buf, b.length) w | _ ↦ fault ]

  -- `rpc_sizedbuf_copy`. Of the two arguments of `rpc_sizedbuf_create` one sets `len` and one reads
  -- it, and C leaves their order open.
  unfoldable pub copy_sizedbuf : (left_first : Bool) → (fresh : ℕ) → ℕ → Cmd L ℕ
  unfolding getbuf create_sizedbuf
  copy_sizedbuf left_first fresh p = do
    b ← getbuf p
    create_sizedbuf fresh b.0 (if left_first then b.1 else 0)

  -- `rpc_sizedbuf_free`
  unfoldable pub sizedbuf_free : ℕ → Cmd L (Unit {0})
  unfolding delete free_sizedbuf_internal
  sizedbuf_free p w = if p == 0 then ok tt w else elim (prec_get p w) [
    | some r ↦ delete (tracked_count w) p w
    | none ↦ free_sizedbuf_internal p w
  ]

  unfoldable pub load_function : ℕ → Cmd L RpcFunction
  load_function p w = elim (w.heap p) [ some (a_function f) ↦ ok f w | _ ↦ fault ]

  unfoldable pub store_function : ℕ → RpcFunction → Cmd L (Unit {0})
  store_function p f w = ok tt (put_object p (a_function f) w)

  -- `rpc_function_create`
  unfoldable pub create_function : (fresh : ℕ) → Cmd L ℕ
  create_function fresh w = ok fresh (
      put_object fresh
        (a_function
          (record { prototype = none; prototype_len = 0; return_type = rpc_none; fnptr = 0 }))
        w)

  -- `rpc_function_set_fnptr`
  unfoldable pub set_fnptr : ℕ → ℕ → Cmd L (Unit {0})
  unfolding load_function store_function
  set_fnptr p fnptr =
      if p == 0
      then pure tt
      else do f ← load_function p; store_function p (record f { fnptr = fnptr })

  -- `rpc_function_set_return_type`
  unfoldable pub set_return_type : ℕ → RpcType → Cmd L (Unit {0})
  unfolding load_function store_function
  set_return_type p t =
      if p == 0
      then pure tt
      else do f ← load_function p; store_function p (record f { return_type = t })

  -- `rpc_function_set_prototype`
  unfoldable pub set_prototype : ℕ → Option (List RpcType) → ℕ → Cmd L (Unit {0})
  unfolding load_function store_function
  set_prototype p ts len = if p == 0 then pure tt else do
    f ← load_function p
    if leb len (length (cells ts))
        then store_function p
            (record f { prototype = some (take len (cells ts)); prototype_len = len })
        else λ w. fault

  -- `rpc_function_copy`, with the getters of its arguments.
  unfoldable pub copy_function : (fresh : ℕ) → ℕ → Cmd L ℕ
  copy_function fresh p = do
    create_function fresh
    f ← load_function p
    set_fnptr fresh f.fnptr
    f ← load_function p
    set_return_type fresh f.return_type
    f ← load_function p
    set_prototype fresh f.prototype f.prototype_len
    pure fresh

  -- `rpc_function_free`
  unfoldable pub function_free : ℕ → Cmd L (Unit {0})
  unfolding delete free_function_internal
  function_free p w = if p == 0 then ok tt w else elim (prec_get p w) [
    | some r ↦ delete (tracked_count w) p w
    | none ↦ free_function_internal p w
  ]
