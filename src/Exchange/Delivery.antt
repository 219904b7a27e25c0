-- ===== src/Exchange/Delivery.antt =====
-- A struct of numbers and texts goes through `rpc_net_send` and `rpc_net_recv` of src/rpc_network.c.
use Prim.Native.String.{len}
use mathlib.Core.Option.{map as map_option}
use ffi_rpc.Base.{
  none, true, if◌then◌else◌, ℕ, suc, ◌<◌, ◌≡◌, ◌≢◌, refl, ap, ◌∙◌, false, some, List, [], String,
  length,
}
use ffi_rpc.Types.{Element}
use ffi_rpc.Ext.Libs.{Libs}
use ffi_rpc.World.{World, RpcStruct, a_struct}
use ffi_rpc.World.Cmd.{ok}
use ffi_rpc.Struct.Observe.{Kind, kind, slot, tracked}
use ffi_rpc.Struct.Invariant.{IsConsistent, nothing_pending}
use ffi_rpc.Struct.Api.{free}
use ffi_rpc.Struct.Free.{Freed}
use ffi_rpc.Struct.Safety.{free-Freed}
use ffi_rpc.Framing.{send_json, recv_json, values}
use ffi_rpc.Framing.Delivery.{recv_json-send_json, TakesAll, arrives_whole, behind_text}
use ffi_rpc.StructJson.Write.{serialize}
use ffi_rpc.StructJson.Read.{deserialize}
use ffi_rpc.StructJson.Copied.{IsSendable}
use ffi_rpc.StructJson.RoundTrip
use ffi_rpc.StructJson.RoundTrip.{Arrived}
use ffi_rpc.StructJson.Arrival.{arrived}
use ffi_rpc.Exchange.{Stack, json_lib, net_send, net_recv, read_message}

module _ {L : Libs} (N : Stack L) (s : ℕ) (socket : N.sockets.Socket) (w : World L) where
  -- The outcome of sending a struct and receiving it from the same socket.
  pub record Delivered : Type 0 where
    pub between : World L
    pub on_the_way : N.sockets.Socket
    pub sends : net_send N s socket w ≡ ok (0, on_the_way) between
    pub world : World L
    pub left : N.sockets.Socket
    pub receives : net_recv N on_the_way between ≡ ok (N.malloc between, left) world
    pub consistent : IsConsistent world
    pub elements : (j : String) → slot world (N.malloc between) j ≡ map_option arrived (slot w s j)
    pub empty : N.sockets.pending left ≡ []

  -- The text of a value fits into a message, which the socket takes and gives in whole parts.
  abbrev pub Fits : N.jansson.Json → Type 0
  Fits json =
      (text : List ℕ) × (N.text_form.dumps json ≡ some text)
      × (length text < values 8)
      × TakesAll N.sockets text socket
      × (arrives_whole N.sockets text (behind_text N.sockets text socket) ≡ true)

module _ {L : Libs} (N : Stack L) where
  net_recv-some :
      (socket : N.sockets.Socket) (json : N.jansson.Json) (p : ℕ) (v u : World L)
      → (recv_json N.sockets (json_lib N.jansson N.text_form) socket).0 ≡ some json
      → deserialize N.jansson N.json_values N.malloc N.random_id N.decimal N.depth (some json) v
        ≡ ok p u
      → net_recv N socket v
        ≡ ok (p, (recv_json N.sockets (json_lib N.jansson N.text_form) socket).1) u
  unfolding net_recv read_message
  net_recv-some socket json p v u value reads = rw (value, reads) refl

module _ {L : Libs} (N : Stack L) (s : ℕ) (o : RpcStruct L) (socket : N.sockets.Socket)
    (w : World L) (depth : ℕ) (deep : N.depth ≡ suc depth) (inv : IsConsistent w) (nonnull : s ≢ 0)
    (live : w.heap s ≡ some (a_struct o))
    (sendable : (k : String) (e : Element) → slot w s k ≡ some e → IsSendable e)
    (nz : N.malloc w ≢ 0) (unused : kind w (N.malloc w) ≡ Kind.absent)
    (un : tracked w (N.malloc w) ≡ false) (single : tracked w s ≡ false) (short : len o.id < 65)
    (idle : N.sockets.pending socket ≡ []) where
  abbrev between : World L
  between =
      (RoundTrip.freed N.jansson N.json_values N.malloc N.next_block s o w inv live sendable nz
        unused un single short).world

  abbrev json : N.jansson.Json
  json =
      RoundTrip.json N.jansson N.json_values N.malloc N.next_block s o w inv live sendable nz unused
        un single short

  serializes : serialize N.jansson N.json_values N.malloc N.next_block N.depth s w ≡ ok json between
  serializes =
      ap (λ d. serialize N.jansson N.json_values N.malloc N.next_block d s w) deep
      ∙ RoundTrip.serialize-ok N.jansson N.json_values N.malloc N.next_block s o w inv live sendable
          nz unused un single short depth

  released : Freed nothing_pending between s (free s between)
  released =
      free-Freed between s
        (RoundTrip.freed N.jansson N.json_values N.malloc N.next_block s o w inv live sendable nz
          unused un single short).inv
        nonnull
        (RoundTrip.still_untracked N.jansson N.json_values N.malloc N.next_block s o w inv live
          sendable nz unused un single short)
        (RoundTrip.still N.jansson N.json_values N.malloc N.next_block s o w inv live sendable nz
          unused un single short)

  abbrev sending : ℕ × N.sockets.Socket
  sending = send_json N.sockets (json_lib N.jansson N.text_form) json socket

  sent : net_send N s socket w ≡ ok sending released.world
  unfolding net_send
  sent = rw (serializes, released.runs) refl

  -- In a consistent memory, for a live struct other than NULL that is not tracked, whose elements are
  -- numbers and texts other than NULL and whose ID is shorter than 65 bytes, over a socket without
  -- bytes under way, where the JSON's text is shorter than 2^64 bytes, both calls of send take all
  -- their bytes, and both calls of recv get all that they ask for; and where malloc returns an
  -- address other than NULL that holds no object and is not tracked, now and behind rpc_net_send:
  -- rpc_net_send gives 0, and rpc_net_recv on the same socket a new struct that has, under just the
  -- same keys, each text again and each number as a uint64_t of its 1, 2, 4 or 8 bytes, or 0 if it
  -- has another length; no byte is left, and the memory stays consistent.
  pub net_recv-net_send :
      ((v : World L) (j : N.jansson.Json)
        → serialize N.jansson N.json_values N.malloc N.next_block N.depth s w ≡ ok j v
        → Fits N s socket w j)
      → ((v : World L) (r : ℕ × N.sockets.Socket)
          → net_send N s socket w ≡ ok r v
          → (N.malloc v ≢ 0)
            × (kind v (N.malloc v) ≡ Kind.absent)
            × (tracked v (N.malloc v) ≡ false))
      → Delivered N s socket w
  net_recv-net_send fits allocates =
      let (text, dumped, small, takes, whole) = fits between json serializes in
      let (sends, received, empties) =
        recv_json-send_json N.sockets (json_lib N.jansson N.text_form) json text socket dumped small
          idle takes in
      let success : sending ≡ (0, behind_text N.sockets text socket) = sends in
      let value : (recv_json N.sockets (json_lib N.jansson N.text_form)
            (behind_text N.sockets text socket)).0
          ≡ some json =
        received ∙ ap (λ b. if b then some json else none) whole in
      let (fresh, absent, loose) = allocates released.world _ sent in
      let r =
        RoundTrip.json-Arrived N.jansson N.json_values N.malloc N.next_block s o w inv live sendable
          nz unused un single short depth N.random_id N.decimal N.malloc released.world released.inv
          fresh absent loose in
      record {
        between = released.world;
        on_the_way = behind_text N.sockets text socket;
        sends = sent ∙ ap (λ r. ok r released.world) success;
        world = r.world;
        left =
            (recv_json N.sockets (json_lib N.jansson N.text_form)
              (behind_text N.sockets text socket)).1;
        receives =
            net_recv-some N (behind_text N.sockets text socket) json _ released.world r.world value
              (ap
                  (λ d.
                    deserialize N.jansson N.json_values N.malloc N.random_id N.decimal d (some json)
                      released.world)
                  deep
                ∙ r.reads);
        consistent = r.consistent;
        elements = r.elements;
        empty = empties whole;
      }
