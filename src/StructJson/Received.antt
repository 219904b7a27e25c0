-- ===== src/StructJson/Received.antt =====
-- `rpc_struct_deserialize` of a struct of numbers and texts.
use Prim.Native.String.{len}
use mathlib.Core.Option.{map as map_option}
use ffi_rpc.Base.{
  ℕ, suc, ◌<◌, ltb, ◌≡◌, ◌≢◌, refl, ◌∙◌, true, false, Option, none, some, [], String, string_eq,
  nat_eq, lookup, DistinctKeys, All, arith, nat_beq_iff,
}
use ffi_rpc.Ext.Libs.{Libs}
use ffi_rpc.Ext.Json.{Jansson}
use ffi_rpc.Ext.JsonValues.{JsonValues}
use ffi_rpc.World.{World, RpcStruct, a_struct, set_struct}
use ffi_rpc.World.Cmd.{Run, ok, and_then}
use ffi_rpc.Struct.Observe.{Kind, kind, slot, tracked, load-ok, struct_of_kind}
use ffi_rpc.Struct.Invariant.{IsConsistent}
use ffi_rpc.Struct.Api.{stored, create}
use ffi_rpc.Struct.Safety.{Created, create-Created}
use ffi_rpc.Struct.Filling.{
  Filled, filled-slot, slot-same_map, kind-same_map, same_map-IsConsistent,
}
use ffi_rpc.StructJson.Parts.{overlay, id_set}
use ffi_rpc.StructJson.Read.{
  read_id, read_duplicates, read_listed, deserialize_with, check_type, fill_struct, deserialize,
  parse_all,
}
use ffi_rpc.StructJson.Flat.{
  IsFlat, element_for, elements_for, lookup-elements_for, parse, parse_all-Filled,
}

module _ (J : Jansson) (V : JsonValues J) where
  -- An ID that is a text and fits, or none.
  abbrev pub IsReadableId : Option J.Json → Type 0
  IsReadableId none = Unit
  IsReadableId (some id) = (text : String) × (J.string_value id ≡ some text) × (len text < 65)

  abbrev pub HasNoEntries : Option J.Json → Type 0
  HasNoEntries none = Unit
  HasNoEntries (some duplicates) = V.entries duplicates ≡ []

  -- JSON of a struct whose elements are numbers and texts, each key once.
  pub record IsFlatStruct (json contents : J.Json) : Type 0 where
    pub type : J.Json
    pub typed : J.object_get json "type" ≡ some type
    pub is_struct : J.string_value type ≡ some "RPC_struct"
    pub id : IsReadableId (J.object_get json "ID")
    pub held : J.object_get json "serialised" ≡ some contents
    pub distinct : DistinctKeys (V.entries contents)
    pub flat : All (λ (x : String × J.Json). IsFlat J V x.1) (V.entries contents)
    pub single : HasNoEntries (J.object_get json "duplicates")

id_set-ok :
    {L : Libs} (s : ℕ) (id : String) (w : World L) (o : RpcStruct L)
    → w.heap s ≡ some (a_struct o)
    → len id < 65
    → id_set s id w ≡ ok tt (set_struct s (record o { id = overlay id o.id }) w)
unfolding id_set
id_set-ok s id w o live short =
    let fits : ltb (len id) 65 ≡ true = ground (arith, short) in
    rw (load-ok s w o live, and_then, fits) refl

module _ {L : Libs} (J : Jansson) (V : JsonValues J) (fresh : World L → ℕ)
    (new_id : World L → String) (decimal : ℕ → String) where
  -- The memory behind the reading of an ID.
  record Named (new : ℕ) (w : World L) (m : Run (World L) (Unit {0})) : Type 0 where
    world : World L
    runs : m ≡ ok tt world
    consistent : IsConsistent world
    slots : (a : ℕ) (j : String) → slot world a j ≡ slot w a j
    kinds : (a : ℕ) → kind world a ≡ kind w a

  read_id-Named :
      (new : ℕ) (x : Option J.Json) (w : World L)
      → IsReadableId J V x
      → IsConsistent w
      → kind w new ≡ Kind.struct
      → Named new w (read_id J V fresh new_id new x w)
  unfolding read_id
  read_id-Named new none w id inv is = record {
    world = w;
    runs = refl;
    consistent = inv;
    slots = λ a j. refl;
    kinds = λ a. refl;
  }
  read_id-Named new (some id) w (text, given, short) inv is =
      let (o, live) = struct_of_kind (w.heap new) is in
      let o' : RpcStruct L = record o { id = overlay text o.id } in
      record {
        world = set_struct new o' w;
        runs = rw (given, read_id) (id_set-ok new text w o live short);
        consistent = same_map-IsConsistent new w o o' live refl inv;
        slots = slot-same_map new w o o' live refl;
        kinds = kind-same_map new w o o' live refl;
      }

  -- The outcome of reading a struct at a new address.
  pub record Deserialized (new : ℕ) (contents : J.Json) (w : World L) (m : Run (World L) ℕ)
      : Type 0 where
    pub world : World L
    pub runs : m ≡ ok new world
    pub consistent : IsConsistent world
    pub is : kind world new ≡ Kind.struct
    pub elements :
        (j : String)
        → slot world new j
          ≡ map_option (λ item. stored (element_for J V item)) (lookup j (V.entries contents))
    pub others : (a : ℕ) (j : String) → new ≢ a → slot world a j ≡ slot w a j

  read_listed-none :
      (new : ℕ) (x : Option J.Json) (w : World L)
      → HasNoEntries J V x
      → read_listed J V fresh new_id new x w ≡ ok tt w
  unfolding read_listed
  read_listed-none new none w h = refl
  read_listed-none new (some d) w h = rw (h, read_duplicates) refl

  stored_items :
      (x : Option J.Json)
      → map_option stored (map_option (element_for J V) x)
        ≡ map_option (λ item. stored (element_for J V item)) x
  stored_items none = refl
  stored_items (some item) = refl

  -- `rpc_struct_deserialize` with `item_parse` as its argument.
  module _ (depth : ℕ) (json contents : J.Json) (w : World L) (inv : IsConsistent w)
      (nz : fresh w ≢ 0) (free : kind w (fresh w) ≡ Kind.absent) (un : tracked w (fresh w) ≡ false)
      (f : IsFlatStruct J V json contents) where
    first : Created (fresh w) w (create (fresh w) (new_id w) w)
    first = create-Created w (fresh w) (new_id w) inv nz free un

    named :
        Named
          (fresh w)
          first.world
          (read_id J V fresh new_id (fresh w) (J.object_get json "ID") first.world)
    named =
        read_id-Named (fresh w) (J.object_get json "ID") first.world f.id first.consistent first.is

    named_empty : (j : String) → slot named.world (fresh w) j ≡ none
    named_empty j = named.slots (fresh w) j ∙ first.empty j

    filled : Filled (fresh w) (elements_for J V (V.entries contents)) named.world (
        parse_all J V fresh new_id
          (parse J V fresh new_id decimal depth (fresh w))
          (fresh w)
          (V.entries contents)
          named.world)
    filled =
        parse_all-Filled J V fresh new_id decimal depth (fresh w) (V.entries contents) named.world
          nz named.consistent (named.kinds (fresh w) ∙ first.is) f.distinct f.flat
          (λ j there. named_empty j)

    deserialize_with-ok :
        deserialize_with J V fresh new_id (parse J V fresh new_id decimal depth (fresh w)) json w
        ≡ ok (fresh w) filled.world
    unfolding deserialize_with
    deserialize_with-ok =
        rw
          (
            first.runs,
            named.runs,
            f.typed,
            f.is_struct,
            f.held,
            filled.runs,
            read_listed-none (fresh w) (J.object_get json "duplicates") filled.world f.single,
            check_type,
            fill_struct,
          )
          refl

    -- In a consistent memory, for JSON of type RPC_struct with distinct keys whose items are
    -- integers, reals and texts, with no duplicates and no ID or one shorter than 65 bytes, at a new
    -- address other than NULL: the new struct has just these items, and no other struct changes.
    pub deserialize-Deserialized :
        Deserialized
          (fresh w)
          contents
          w
          (deserialize J V fresh new_id decimal (suc depth) (some json) w)
    unfolding deserialize
    deserialize-Deserialized = record {
      world = filled.world;
      runs = deserialize_with-ok;
      consistent = filled.consistent;
      is = filled.kinds (fresh w) ∙ (named.kinds (fresh w) ∙ first.is);
      elements = λ j.
          filled-slot (fresh w) j (elements_for J V (V.entries contents)) _ _ _
            (filled.slots (fresh w) j) (named_empty j)
            (lookup-elements_for J V j (V.entries contents))
          ∙ stored_items (lookup j (V.entries contents));
      others = λ a j ne.
          ground (
            arith,
            filled.slots a j,
            named.slots a j,
            first.slots a j,
            nat_beq_iff (fresh w) a,
            ne,
          );
    }
