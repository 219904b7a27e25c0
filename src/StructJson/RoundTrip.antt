-- ===== src/StructJson/RoundTrip.antt =====
-- `rpc_struct_serialize` and then `rpc_struct_deserialize` of a struct of numbers and texts.
use Prim.Native.String.{len}
use mathlib.Core.Option.{map as map_option}
use ffi_rpc.Base.{
  ℕ, suc, ◌<◌, ◌≡◌, ◌≢◌, refl, sym, ap, ◌∙◌, false, some, [], String, arith, lookup, List,
  string_eq, nat_eq, is_some,
}
use ffi_rpc.Types.{Element}
use ffi_rpc.Ext.Libs.{Libs}
use ffi_rpc.Ext.Json.{Jansson}
use ffi_rpc.Ext.JsonValues.{JsonValues}
use ffi_rpc.World.{World, RpcStruct, a_struct}
use ffi_rpc.World.Cmd.{ok}
use ffi_rpc.Struct.Observe.{Kind, kind, kind_of, slot, element_in, tracked, load-ok, struct_of_kind}
use ffi_rpc.Struct.Invariant.{IsConsistent}
use ffi_rpc.Struct.Api.{stored, copy, free}
use ffi_rpc.StructJson.Write.{serialize, dupless_copy, write_duplicates}
use ffi_rpc.StructJson.Copied.{IsSendable, AllSendable, Copied, copy-Copied}
use ffi_rpc.StructJson.Sent.{
  item_for, entries-AllSendable, found_duplicates-none, remove_unknown-none, serialize_elements-ok,
  write_all,
}
use ffi_rpc.StructJson.Message.{message, lookup-items_for, entries-contents, message-IsFlatStruct}
use ffi_rpc.StructJson.Flat.{element_for}
use ffi_rpc.StructJson.Arrival.{stored-IsSendable, arrived, items-arrived}
use ffi_rpc.StructJson.Read.{deserialize}
use ffi_rpc.StructJson.Received.{deserialize-Deserialized}
use ffi_rpc.Struct.Free.{Freed}
use ffi_rpc.Struct.Safety.{free-Freed}
use ffi_rpc.Struct.Invariant.{nothing_pending}

module _ {L : Libs} (J : Jansson) (V : JsonValues J) (fresh : World L → ℕ) (next_block : ℕ → ℕ)
    (s : ℕ) (w : World L) where
  -- The outcome of sending a struct as JSON and reading it at a new address.
  pub record Returned (depth : ℕ) (new_id : World L → String) (decimal : ℕ → String)
      (malloc : World L → ℕ) : Type 0 where
    pub json : J.Json
    pub between : World L
    pub sends : serialize J V fresh next_block (suc depth) s w ≡ ok json between
    pub kept : kind between s ≡ Kind.struct
    pub world : World L
    pub reads :
        deserialize J V malloc new_id decimal (suc depth) (some json) between
        ≡ ok (malloc between) world
    pub consistent : IsConsistent world
    pub elements : (j : String) → slot world (malloc between) j ≡ map_option arrived (slot w s j)

module _ {L : Libs} (J : Jansson) (V : JsonValues J) (s : ℕ) (w : World L) where
  -- The outcome of reading the JSON of a struct in a later memory.
  pub record Arrived (json : J.Json) (v : World L) (depth : ℕ) (new_id : World L → String)
      (decimal : ℕ → String) (malloc : World L → ℕ) : Type 0 where
    pub world : World L
    pub reads :
        deserialize J V malloc new_id decimal (suc depth) (some json) v ≡ ok (malloc v) world
    pub consistent : IsConsistent world
    pub elements : (j : String) → slot world (malloc v) j ≡ map_option arrived (slot w s j)

module _ {L : Libs} (J : Jansson) (V : JsonValues J) (fresh : World L → ℕ) (next_block : ℕ → ℕ)
    (s : ℕ) (o : RpcStruct L) (w : World L) (inv : IsConsistent w)
    (live : w.heap s ≡ some (a_struct o))
    (sendable : (k : String) (e : Element) → slot w s k ≡ some e → IsSendable e) (nz : fresh w ≢ 0)
    (unused : kind w (fresh w) ≡ Kind.absent) (un : tracked w (fresh w) ≡ false)
    (single : tracked w s ≡ false) (short : len o.id < 65) where
  pub copied : Copied (fresh w) s w (copy (fresh w) s w)
  copied =
      copy-Copied (fresh w) s o w inv live (entries-AllSendable w s o live sendable) nz unused un

  apart : fresh w ≢ s
  apart same = ground (arith, unused, ap kind_of live, ap (λ (p : ℕ). kind w p) same)

  original : copied.world.heap s ≡ some (a_struct o)
  original = copied.heaps s apart ∙ live

  pub dupless : (c : RpcStruct L) × (copied.world.heap (fresh w) ≡ some (a_struct c))
  dupless = struct_of_kind (copied.world.heap (fresh w)) copied.is

  dupless_sendable : AllSendable (L.by_name.entries dupless.0.map)
  dupless_sendable =
      entries-AllSendable copied.world (fresh w) dupless.0 dupless.1
        (λ k e at. stored-IsSendable (slot w s k) e (sendable k) (sym (copied.elements k) ∙ at))

  dupless_copy-ok : dupless_copy J V fresh next_block s w ≡ ok (fresh w, []) copied.world
  unfolding dupless_copy
  dupless_copy-ok =
      rw
        (
          copied.runs,
          found_duplicates-none next_block s o copied.world original
              (entries-AllSendable w s o live sendable),
          load-ok (fresh w) copied.world dupless.0 dupless.1,
          remove_unknown-none (fresh w) (L.by_name.entries dupless.0.map) copied.world
              dupless_sendable,
        )
        refl

  copy_untracked : tracked copied.world (fresh w) ≡ false
  copy_untracked = ap (λ m. is_some (L.by_ptr.get m (fresh w))) copied.tracker ∙ un

  pub freed : Freed nothing_pending copied.world (fresh w) (free (fresh w) copied.world)
  freed = free-Freed copied.world (fresh w) copied.consistent nz copy_untracked copied.is

  pub still : kind freed.world s ≡ Kind.struct
  still =
      freed.structs s (λ e. apart (sym e))
        (ap (λ m. is_some (L.by_ptr.get m s)) copied.tracker ∙ single) (ap kind_of original)

  -- The elements of the copy, which `serialised` has.
  abbrev pub elements : List (String × Element)
  elements = L.by_name.entries dupless.0.map

  abbrev pub json : J.Json
  json = message J V o.id (write_all J V J.object elements)

  pub serialize-ok :
      (depth : ℕ) → serialize J V fresh next_block (suc depth) s w ≡ ok json freed.world
  unfolding serialize write_duplicates
  serialize-ok depth =
      let (o', live') = struct_of_kind (freed.world.heap s) still in
      rw
        (
          dupless_copy-ok,
          load-ok s copied.world o original,
          load-ok (fresh w) copied.world dupless.0 dupless.1,
          serialize_elements-ok J V (serialize J V fresh next_block depth) J.object elements
              copied.world dupless_sendable,
          freed.runs,
          load-ok s freed.world o' live',
        )
        refl

  elements-arrived :
      (j : String)
      → map_option
          (λ item. stored (element_for J V item))
          (lookup j (V.entries (write_all J V J.object elements)))
        ≡ map_option arrived (slot w s j)
  elements-arrived j =
      ap (λ x. map_option (λ item. stored (element_for J V item)) x)
        (ap (λ (l : List (String × J.Json)). lookup j l)
            (entries-contents J V o.id elements short (L.by_name.entries-DistinctKeys dupless.0.map)
              dupless_sendable)
          ∙ (lookup-items_for J V j elements
              ∙ ap (map_option (item_for J V)) (
                  L.by_name.lookup-entries dupless.0.map j
                  ∙ (sym (ap (element_in j) dupless.1) ∙ copied.elements j))))
      ∙ items-arrived J V (slot w s j) (sendable j)

  pub still_untracked : tracked freed.world s ≡ false
  still_untracked = freed.untracked s (ap (λ m. is_some (L.by_ptr.get m s)) copied.tracker ∙ single)

  pub json-Arrived :
      (depth : ℕ) (new_id : World L → String) (decimal : ℕ → String) (malloc : World L → ℕ)
      (v : World L)
      → IsConsistent v
      → malloc v ≢ 0
      → kind v (malloc v) ≡ Kind.absent
      → tracked v (malloc v) ≡ false
      → Arrived J V s w json v depth new_id decimal malloc
  json-Arrived depth new_id decimal malloc v consistent nonnull absent loose =
      let r =
        deserialize-Deserialized J V malloc new_id decimal depth json
          (write_all J V J.object elements) v consistent nonnull absent loose
          (message-IsFlatStruct J V o.id elements short
            (L.by_name.entries-DistinctKeys dupless.0.map) dupless_sendable) in
      record {
        world = r.world;
        reads = r.runs;
        consistent = r.consistent;
        elements = λ j. r.elements j ∙ elements-arrived j;
      }

  -- In a consistent memory, for a live struct that is not tracked, whose elements are numbers and
  -- texts other than NULL and whose ID is shorter than 65 bytes, where malloc returns an address
  -- other than NULL that holds no object and is not tracked, now and behind rpc_struct_serialize:
  -- rpc_struct_serialize ends without a fault and the struct stays alive, and
  -- rpc_struct_deserialize of the JSON gives a new struct that has, under just the same keys, each
  -- text again and each number as a uint64_t of the number that its 1, 2, 4 or 8 bytes hold, or 0
  -- if it has another length; the memory stays consistent.
  pub deserialize-serialize_struct :
      (depth : ℕ) (new_id : World L → String) (decimal : ℕ → String) (malloc : World L → ℕ)
      → ((v : World L) (j : J.Json)
          → serialize J V fresh next_block (suc depth) s w ≡ ok j v
          → (malloc v ≢ 0) × (kind v (malloc v) ≡ Kind.absent) × (tracked v (malloc v) ≡ false))
      → Returned J V fresh next_block s w depth new_id decimal malloc
  deserialize-serialize_struct depth new_id decimal malloc allocates =
      let (nonnull, absent, loose) = allocates freed.world json (serialize-ok depth) in
      let r = json-Arrived depth new_id decimal malloc freed.world freed.inv nonnull absent loose in
      record {
        json = json;
        between = freed.world;
        sends = serialize-ok depth;
        kept = still;
        world = r.world;
        reads = r.reads;
        consistent = r.consistent;
        elements = r.elements;
      }
