-- ===== src/World.antt =====
-- The memory of a process: the objects that `malloc` handed out, and the table of tracked pointers
-- (`ptracker` of src/ptracker.c). One thread runs at a time: the recursive mutexes of the source
-- do nothing then, but to lock an object is to read it, so that a lock in a freed struct is a fault.
pub mod Cmd
use ffi_rpc.Base.{ℕ, List, Option, some, String, nat_eq, ◌==◌, if◌then◌else◌}
use ffi_rpc.Types.{RpcType, Element, FreeFn}
use ffi_rpc.Ext.Libs.{Libs}
use ffi_rpc.Origins.{OriginCtx}

-- `struct _rpc_sizedbuf`: the bytes of `buf`.
pub record SizedBuf : Type 0 where
  pub buf : List ℕ
  pub length : ℕ

-- `struct _rpc_function`; a NULL prototype is `none`.
pub record RpcFunction : Type 0 where
  pub prototype : Option (List RpcType)
  pub prototype_len : ℕ
  pub return_type : RpcType
  pub fnptr : ℕ

module _ (L : Libs) where
  -- `struct _rpc_struct`, without its mutex. `manual_destructor` is an address, 0 for none.
  pub record RpcStruct : Type 0 where
    pub map : L.by_name.Map Element
    pub id : String
    pub copyof : ℕ
    pub manual_destructor : ℕ

  pub data Object : Type 0 where
    a_struct : RpcStruct → Object
    a_sizedbuf : SizedBuf → Object
    a_function : RpcFunction → Object

  -- `rpc_struct_prec_ptr_ctx`: for each key the structs that hold the pointer there.
  pub record PtrCtx : Type 0 where
    pub keys : L.by_name.Map (OriginCtx L.queues)
    pub free : FreeFn

  -- `struct _prec`. Its callbacks are always `rpc_struct_default_prec_cbs`, and its `ptr` is the
  -- key under which the table holds it.
  pub record Prec : Type 0 where
    pub refcount : ℕ
    pub context : Option PtrCtx

  -- `destroyed` lists the calls of manual destructors, newest first: the destructor and its struct.
  pub record World : Type 0 where
    pub ptracker : L.by_ptr.Map Prec
    pub heap : ℕ → Option Object
    pub destroyed : List (ℕ × ℕ)

-- `prec_rpc_udata`; a NULL name is `none`.
pub record Udata : Type 0 where
  pub origin : ℕ
  pub name : Option String
  pub free : FreeFn

module _ {L : Libs} where
  abbrev pub write : (ℕ → Option (Object L)) → ℕ → Option (Object L) → ℕ → Option (Object L)
  write h p o q = if p == q then o else h q

  abbrev pub set_prec : ℕ → Prec L → World L → World L
  set_prec p r w = record w { ptracker = L.by_ptr.store w.ptracker p r }

  abbrev pub set_struct : ℕ → RpcStruct L → World L → World L
  set_struct s o w = record w { heap = write w.heap s (some (a_struct o)) }
