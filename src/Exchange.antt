-- ===== src/Exchange.antt =====
-- `rpc_net_send` and `rpc_net_recv` of src/rpc_network.c: structs over a socket, as JSON text. The
-- socket of the descriptor is passed on.
pub mod Delivery
use ffi_rpc.Base.{ℕ, ◌≡◌, Option, none, some, List, String}
use ffi_rpc.Ext.Libs.{Libs}
use ffi_rpc.Ext.Json.{Jansson}
use ffi_rpc.Ext.JsonValues.{JsonValues}
use ffi_rpc.World.{World}
use ffi_rpc.World.Cmd.{pure, ◌>>=◌, ◌>>◌}
use ffi_rpc.Struct.{Cmd}
use ffi_rpc.Struct.Api.{free}
use ffi_rpc.Framing.{JsonLib, SocketLib, send_json, recv_json}
use ffi_rpc.StructJson.Write.{serialize}
use ffi_rpc.StructJson.Read.{deserialize}

-- `json_dumps` and `json_loadb` on the values of jansson.
pub record TextForm (J : Jansson) : Type 0 where
  pub dumps : J.Json → Option (List ℕ)
  pub loadb : List ℕ → Option J.Json
  pub loadb-dumps : (j : J.Json) (text : List ℕ) → dumps j ≡ some text → loadb text ≡ some j

abbrev pub json_lib : (J : Jansson) → TextForm J → JsonLib
json_lib J T = record {
  Json = J.Json;
  dumps = T.dumps;
  loadb = T.loadb;
  loadb-dumps = T.loadb-dumps;
}

-- What the two ends of a connection are built with: jansson, sockets, `malloc`, where `realloc` puts
-- an array, random IDs, `sprintf` of an index, and how deep structs may nest.
pub record Stack (L : Libs) : Type 1 where
  pub jansson : Jansson
  pub json_values : JsonValues jansson
  pub text_form : TextForm jansson
  pub sockets : SocketLib
  pub malloc : World L → ℕ
  pub next_block : ℕ → ℕ
  pub random_id : World L → String
  pub decimal : ℕ → String
  pub depth : ℕ

module _ {L : Libs} (N : Stack L) where
  -- `rpc_net_send`: 0 if the whole message was taken. The struct is freed in either case.
  unfoldable pub net_send : ℕ → N.sockets.Socket → Cmd L (ℕ × N.sockets.Socket)
  unfolding serialize send_json free
  net_send tosend socket = do
    json ← serialize N.jansson N.json_values N.malloc N.next_block N.depth tosend
    let r = send_json N.sockets (json_lib N.jansson N.text_form) json socket
    free tosend
    pure r

  -- `rpc_net_recv` behind the message: 0 is NULL.
  unfoldable pub read_message : Option N.jansson.Json → Cmd L ℕ
  unfolding deserialize
  read_message none = pure 0
  read_message (some json) =
      deserialize N.jansson N.json_values N.malloc N.random_id N.decimal N.depth (some json)

  -- `rpc_net_recv`
  unfoldable pub net_recv : N.sockets.Socket → Cmd L (ℕ × N.sockets.Socket)
  unfolding recv_json read_message
  net_recv socket = do
    let r = recv_json N.sockets (json_lib N.jansson N.text_form) socket
    reply ← read_message r.0
    pure (reply, r.1)
