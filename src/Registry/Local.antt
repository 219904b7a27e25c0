-- ===== src/Registry/Local.antt =====
-- The local object of a connection is made once, and then found.
use ffi_rpc.Base.{
  ℕ, suc, ◌<◌, ◌^◌, ◌≡◌, ◌≢◌, refl, ap, ◌∙◌, false, Option, none, some, List, ◌∷◌, String,
  string_eq, nat_eq, ◌==◌, nat_beq_iff, arith,
}
use ffi_rpc.Types.{is_pointer, freefn_of}
use ffi_rpc.Ext.Libs.{Libs}
use ffi_rpc.World.{World, RpcStruct, a_struct}
use ffi_rpc.World.Cmd.{Run, ok}
use ffi_rpc.Struct.Observe.{Kind, kind, kind_of, slot, tracked}
use ffi_rpc.Struct.Invariant.{IsConsistent}
use ffi_rpc.Struct.Api.{storable, create, set_internal}
use ffi_rpc.Struct.Store.{Stored, set_internal-Stored}
use ffi_rpc.Struct.Safety.{Created, create-Created}
use ffi_rpc.CallStack.{current-cons}
use ffi_rpc.Typed.{ctype_to_rpc, c_to_rpc, set, get}
use ffi_rpc.Typed.RoundTrip.{set-stores, get-refuses}
use ffi_rpc.Registry.{Objects, struct_var, lobject_loop, lobject_get}
use ffi_rpc.Registry.Lookup.{id_get-ok, get-held}

module _ {L : Libs} (g : Objects) (stack : L.queues.Queue ℕ) (fresh : ℕ) (new_id : String)
    (w : World L) where
  -- The new struct is the result, and that of a second call, which changes nothing.
  pub record Local (m : Run (World L) (Option ℕ)) : Type 0 where
    pub world : World L
    pub runs : m ≡ ok (some fresh) world
    pub consistent : IsConsistent world
    pub again :
        (address : ℕ) (id : String) → lobject_get g stack address id world ≡ ok (some fresh) world

  module _ (cobject : ℕ) (others : List ℕ) (o : RpcStruct L) (inv : IsConsistent w)
      (running : L.queues.to_list stack ≡ cobject ∷ others)
      (live : w.heap cobject ≡ some (a_struct o)) (nz : g.lobjects ≢ 0)
      (is : kind w g.lobjects ≡ Kind.struct) (apart : g.lobjects ≢ cobject)
      (missing : slot w g.lobjects o.id ≡ none) (fresh_nonnull : fresh ≢ 0)
      (free : kind w fresh ≡ Kind.absent) (un : tracked w fresh ≡ false)
      (range : fresh < 256 ^ 8) where
    made : Created fresh w (create fresh new_id w)
    made = create-Created w fresh new_id inv fresh_nonnull free un

    other_struct : fresh ≢ g.lobjects
    other_struct same = ground (arith, ap (kind w) same, free, is)

    other_object : fresh ≢ cobject
    other_object same = ground (arith, ap (kind w) same, free, live)

    still : kind made.world g.lobjects ≡ Kind.struct
    still = ap kind_of (made.heaps g.lobjects other_struct) ∙ is

    kept :
        Stored g.lobjects o.id
          (c_to_rpc (struct_var fresh))
          made.world
          (set_internal g.lobjects o.id (c_to_rpc (struct_var fresh)) made.world)
    unfolding c_to_rpc storable is_pointer freefn_of
    kept =
        set_internal-Stored g.lobjects o.id (c_to_rpc (struct_var fresh)) made.world made.consistent
          still (made.slots g.lobjects o.id ∙ missing) (ground (arith, fresh_nonnull))
          (λ _. made.is)

    found : get g.lobjects o.id (struct_var 0) kept.world ≡ ok (0, struct_var fresh) kept.world
    found =
        get-held g o.id fresh w g.lobjects o.id kept.world range nz (kept.kinds g.lobjects ∙ still)
          (ground (
            arith,
            kept.slots g.lobjects o.id,
            nat_beq_iff g.lobjects g.lobjects,
            string_eq.same_iff o.id o.id,
          ))

    lobject_loop-found :
        (rounds address : ℕ) (id : String)
        → lobject_loop (suc rounds) address id g.lobjects o.id kept.world
          ≡ ok (some fresh) kept.world
    unfolding lobject_loop
    lobject_loop-found rounds address id = rw found refl

    stores : set g.lobjects o.id (struct_var fresh) made.world ≡ ok 0 kept.world
    stores =
        set-stores g.lobjects o.id (struct_var fresh) made.world nz still
          (made.slots g.lobjects o.id ∙ missing)
        ∙ kept.runs

    lobject_loop-new : lobject_loop 2 fresh new_id g.lobjects o.id w ≡ ok (some fresh) kept.world
    unfolding lobject_loop ctype_to_rpc
    lobject_loop-new =
        rw
          (
            get-refuses g.lobjects o.id (struct_var 0) w nz is (λ e. ground (arith, missing, e)),
            made.runs,
            stores,
            found,
          )
          refl

    nonnull : cobject ≢ 0
    nonnull same = ground (arith, ap (kind w) same, inv.null, live)

    -- The call up to the loop.
    lobject_get-ok :
        (v : World L) (address : ℕ) (id : String)
        → v.heap cobject ≡ some (a_struct o)
        → lobject_get g stack address id v ≡ lobject_loop 2 address id g.lobjects o.id v
    unfolding lobject_get
    lobject_get-ok v address id there =
        let some_struct : (g.lobjects == 0) ≡ false = ground (arith, nz) in
        let some_object : (cobject == 0) ≡ false = ground (arith, nonnull) in
        rw
          (
            some_struct,
            current-cons L.queues stack cobject others running,
            some_object,
            id_get-ok cobject v o there,
          )
          refl

    -- In a consistent memory, while a call of a live object runs that is not the live struct of
    -- local objects, if that struct has no element under the object's ID and malloc returns an
    -- address other than NULL that holds no object and is not tracked, the loop of
    -- rpc_lobject_get ends without a failed assertion: the new struct is the result, the memory
    -- stays consistent, and a second call gives the same struct and changes nothing.
    pub lobject_get-Local : Local (lobject_get g stack fresh new_id w)
    lobject_get-Local = record {
      world = kept.world;
      runs = lobject_get-ok w fresh new_id live ∙ lobject_loop-new;
      consistent = kept.consistent;
      again = λ address id.
          lobject_get-ok kept.world address id
            (kept.heaps cobject apart ∙ (made.heaps cobject other_object ∙ live))
          ∙ lobject_loop-found 1 address id;
    }
