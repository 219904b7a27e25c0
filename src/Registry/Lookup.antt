-- ===== src/Registry/Lookup.antt =====
-- Objects are found under their names and their IDs.
use ffi_rpc.Base.{
  ℕ, ◌<◌, ◌^◌, ◌≡◌, ◌≢◌, refl, ap, ◌∙◌, true, none, some, String, string_eq, nat_eq, ◌==◌,
  nat_beq_iff, if◌then◌else◌, Bool-cases, inl, inr, arith,
}
use ffi_rpc.Types.{is_string, Element, freefn_of, is_pointer}
use ffi_rpc.Ext.Libs.{Libs}
use ffi_rpc.World.{World, RpcStruct, a_struct}
use ffi_rpc.World.Cmd.{Run, ok}
use ffi_rpc.Struct.Observe.{Kind, kind, kind_of, slot, load-ok}
use ffi_rpc.Struct.Invariant.{IsConsistent}
use ffi_rpc.Struct.Api.{storable, stored, set_internal}
use ffi_rpc.Struct.Store.{Stored, set_internal-Stored}
use ffi_rpc.Typed.{struct_t, ctype_to_rpc, size_of, c_to_rpc, fill, set, get}
use ffi_rpc.Typed.RoundTrip.{get-fill, set-stores, get-refuses, c_to_rpc-type, read_back, read_text}
use ffi_rpc.Registry.{Objects, struct_var, id_get, cobject_set, cobject_get}

pub id_get-ok :
    {L : Libs} (s : ℕ) (w : World L) (o : RpcStruct L)
    → w.heap s ≡ some (a_struct o)
    → id_get s w ≡ ok o.id w
unfolding id_get
id_get-ok s w o live = rw (load-ok s w o live) refl

module _ {L : Libs} (g : Objects) (name : String) (cobj : ℕ) (w : World L) where
  -- What a registered object is.
  pub record Registered (id : String) (m : Run (World L) ℕ) : Type 0 where
    pub world : World L
    pub runs : m ≡ ok 0 world
    pub consistent : IsConsistent world
    pub by_name : cobject_get g name world ≡ ok cobj world
    pub by_id : cobject_get g id world ≡ ok cobj world

  abbrev pub held : Element
  held = c_to_rpc (struct_var cobj)

  -- Reading a struct's pointer into a variable.
  pub get-held :
      (s : ℕ) (k : String) (v : World L)
      → cobj < 256 ^ 8
      → s ≢ 0
      → kind v s ≡ Kind.struct
      → slot v s k ≡ some (stored held)
      → get s k (struct_var 0) v ≡ ok (0, struct_var cobj) v
  unfolding size_of fill is_pointer is_string ctype_to_rpc
  get-held s k v range nz is at =
      get-fill s k (struct_var 0) (stored held) v nz is at (c_to_rpc-type (struct_var cobj)) ∙ (λ i.
        ok
          (
            0,
            record {
              ctype = struct_t;
              bits = read_back struct_t cobj 0 "" "" refl range (omega arith) i;
              text = read_text struct_t cobj 0 "" "" refl i;
            },
          )
          v)

  module _ (o : RpcStruct L) (inv : IsConsistent w) (range : cobj < 256 ^ 8)
      (live : w.heap cobj ≡ some (a_struct o)) (cobj_nonnull : cobj ≢ 0)
      (bname_nonnull : g.cobject_bname ≢ 0) (bid_nonnull : g.cobject_bid ≢ 0)
      (apart : g.cobject_bname ≢ g.cobject_bid) (other : g.cobject_bname ≢ cobj)
      (bname_live : kind w g.cobject_bname ≡ Kind.struct)
      (bid_live : kind w g.cobject_bid ≡ Kind.struct)
      (new_name : slot w g.cobject_bname name ≡ none) (unnamed : slot w g.cobject_bname o.id ≡ none)
      (new_id : slot w g.cobject_bid o.id ≡ none) where
    first : Stored g.cobject_bname name held w (set_internal g.cobject_bname name held w)
    unfolding c_to_rpc storable is_pointer freefn_of
    first =
        set_internal-Stored g.cobject_bname name held w inv bname_live new_name
          (ground (arith, cobj_nonnull)) (λ _. ap kind_of live)

    second :
        Stored g.cobject_bid o.id held first.world
          (set_internal g.cobject_bid o.id held first.world)
    unfolding c_to_rpc storable is_pointer freefn_of
    second =
        set_internal-Stored g.cobject_bid o.id held first.world first.consistent
          (first.kinds g.cobject_bid ∙ bid_live)
          (ground (
            arith,
            first.slots g.cobject_bid o.id,
            nat_beq_iff g.cobject_bname g.cobject_bid,
            apart,
            new_id,
          ))
          (ground (arith, cobj_nonnull)) (λ _. first.kinds cobj ∙ ap kind_of live)

    -- The slots behind both stores.
    named_slot :
        (k : String)
        → slot second.world g.cobject_bname k
          ≡ (if name == k then some (stored held) else slot w g.cobject_bname k)
    named_slot k = ground (
      arith,
      second.slots g.cobject_bname k,
      first.slots g.cobject_bname k,
      nat_beq_iff g.cobject_bid g.cobject_bname,
      nat_beq_iff g.cobject_bname g.cobject_bname,
      apart,
    )

    id_slot : slot second.world g.cobject_bid o.id ≡ some (stored held)
    id_slot = ground (
      arith,
      second.slots g.cobject_bid o.id,
      nat_beq_iff g.cobject_bid g.cobject_bid,
      string_eq.same_iff o.id o.id,
    )

    bname_still : kind second.world g.cobject_bname ≡ Kind.struct
    bname_still = second.kinds g.cobject_bname ∙ (first.kinds g.cobject_bname ∙ bname_live)

    bid_still : kind second.world g.cobject_bid ≡ Kind.struct
    bid_still = second.kinds g.cobject_bid ∙ (first.kinds g.cobject_bid ∙ bid_live)

    get-named :
        (k : String)
        → (name == k) ≡ true
        → get g.cobject_bname k (struct_var 0) second.world ≡ ok (0, struct_var cobj) second.world
    get-named k same =
        get-held g.cobject_bname k second.world range bname_nonnull bname_still
          (ground (arith, named_slot k, same))

    first_set : set g.cobject_bname name (struct_var cobj) w ≡ ok 0 first.world
    first_set =
        set-stores g.cobject_bname name (struct_var cobj) w bname_nonnull bname_live new_name
        ∙ first.runs

    second_set : set g.cobject_bid o.id (struct_var cobj) first.world ≡ ok 0 second.world
    second_set =
        set-stores g.cobject_bid o.id (struct_var cobj) first.world bid_nonnull
          (first.kinds g.cobject_bid ∙ bid_live)
          (ground (
            arith,
            first.slots g.cobject_bid o.id,
            nat_beq_iff g.cobject_bname g.cobject_bid,
            apart,
            new_id,
          ))
        ∙ second.runs

    cobject_set-ok : cobject_set g name cobj w ≡ ok 0 second.world
    unfolding cobject_set
    cobject_set-ok =
        let stays : first.world.heap cobj ≡ some (a_struct o) = first.heaps cobj other ∙ live in
        rw (first_set, id_get-ok cobj first.world o stays, second_set) refl

    cobject_get-name : cobject_get g name second.world ≡ ok cobj second.world
    unfolding cobject_get
    cobject_get-name = rw (get-named name ((string_eq.same_iff name name).1 refl)) refl

    cobject_get-id : cobject_get g o.id second.world ≡ ok cobj second.world
    unfolding cobject_get ctype_to_rpc
    cobject_get-id = elim (Bool-cases (name == o.id)) [
      | inl same ↦ rw (get-named o.id same) refl
      | inr differ ↦
          let absent : slot second.world g.cobject_bname o.id ≡ none =
            ground (arith, named_slot o.id, differ, unnamed) in
          rw
            (
              get-refuses g.cobject_bname o.id (struct_var 0) second.world bname_nonnull bname_still
                  (λ e. ground (arith, absent, e)),
              get-held g.cobject_bid o.id second.world range bid_nonnull bid_still id_slot,
            )
            refl
    ]

    -- In a consistent memory with two distinct live registries, of which the one by name has
    -- neither the name nor the object's ID and the one by ID not the ID, rpc_cobject_set of a
    -- live object other than the first registry succeeds, the memory stays consistent, and
    -- rpc_cobject_get gives the object for its name and for its ID.
    pub cobject_set-Registered : Registered o.id (cobject_set g name cobj w)
    cobject_set-Registered = record {
      world = second.world;
      runs = cobject_set-ok;
      consistent = second.consistent;
      by_name = cobject_get-name;
      by_id = cobject_get-id;
    }
