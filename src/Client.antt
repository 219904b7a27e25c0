-- ===== src/Client.antt =====
-- The client of src/rpc_client.c: its record, and the two ways in which it sends requests. The
-- function pointer `method_request` of a client is an argument of what calls it; the state of the
-- connection, a socket or the server's static variables, is passed through.
pub mod Connect
pub mod Requests
pub mod Closures
pub mod Fetch
pub mod Calls
pub mod Returns
pub mod Unanswered
use ffi_rpc.Base.{
  ℕ, Bool, true, false, nat_eq, ◌==◌, if◌then◌else◌, Option, none, some, List, [], ◌∷◌, String,
}
use ffi_rpc.Types.{rpc_struct}
use ffi_rpc.Ext.Libs.{Libs}
use ffi_rpc.World.{World}
use ffi_rpc.World.Cmd.{pure, ◌>>=◌, ◌>>◌}
use ffi_rpc.Struct.{Cmd}
use ffi_rpc.Struct.Api.{create, free}
use ffi_rpc.Typed.{set, get}
use ffi_rpc.Registry.{struct_var}
use ffi_rpc.Invoke.{LibFfi, FfiType, Calling}
use ffi_rpc.StructJson.Parts.{set_made}
use ffi_rpc.Exchange.{Stack, net_send, net_recv}
use ffi_rpc.Server.{Linker, text_var, int_var, assert_zero, localnet_job}

-- Which functions a client was given: none, those of a local connection with the data of the
-- person, or those of a TCP connection with its descriptor, which is missing once it is -1.
pub data Connection : Type 0 where
  unconnected : Connection
  local_connection : (person : ℕ) → Connection
  tcp_connection : (fd : Option ℕ) → Connection

-- `struct _rpc_client`. Nothing sets an `error_handler`.
pub record Client : Type 0 where
  pub connection : Connection
  pub loaded_cobjects : ℕ

-- The descriptor that `tcp_disconnect` shuts down and closes, if the function is set.
unfoldable pub disconnect : Connection → Option ℕ × Connection
disconnect (tcp_connection fd) = (fd, tcp_connection none)
disconnect (local_connection person) = (none, local_connection person)
disconnect unconnected = (none, unconnected)

module _ {L : Libs} (malloc : World L → ℕ) (random_id : World L → String) where
  -- `rpc_struct_create`
  abbrev pub new_struct : Cmd L ℕ
  new_struct w = create (malloc w) (random_id w) w

  -- `rpc_client_create`
  unfoldable pub client_create : Cmd L Client
  client_create = do
    loaded ← new_struct
    pure (record { connection = unconnected; loaded_cobjects = loaded })

  -- `rpc_client_connect_local`
  unfoldable pub connect_local : Client → Cmd L Client
  unfolding set_made
  connect_local client = do
    person ← new_struct
    set_made new_struct rpc_struct person "lobjects"
    pure (record client { connection = local_connection person })

module _ {L : Libs} where
  -- `rpc_client_free`, with the descriptor that is closed. It does not call `userdata_free`.
  unfoldable pub client_free : Client → Cmd L (Option ℕ)
  unfolding free disconnect
  client_free client = do free client.loaded_cobjects; pure (disconnect client.connection).0

  -- `local_userdata_free`
  unfoldable pub local_userdata_free : Connection → Cmd L (Unit {0})
  unfolding free
  local_userdata_free (local_connection person) = free person
  local_userdata_free _ = pure tt

module _ {L : Libs} (N : Stack L) (cache_key : String → String → String) (text_at : ℕ → String)
    (ffi : LibFfi L) (K : Linker) (methods person : ℕ) where
  -- The end of `local_requestor`: NULL if the job failed.
  unfoldable pub finish_request : (request reply : ℕ) → ℕ × Calling L → Cmd L (ℕ × Calling L)
  unfolding free
  finish_request request reply r = do
    answer ← if r.0 == 0 then pure reply else (do free reply; pure 0)
    free request
    pure (answer, r.1)

  -- `local_requestor`
  unfoldable pub local_requestor : (request : ℕ) → Calling L → Cmd L (ℕ × Calling L)
  unfolding localnet_job finish_request
  local_requestor request c = do
    reply ← new_struct N.malloc N.random_id
    r ← localnet_job N.decimal cache_key text_at ffi K methods person request reply c
    finish_request request reply r

module _ {L : Libs} (N : Stack L) where
  -- The reply of `tcp_requestor` to a request that was sent, and whether the socket was closed.
  unfoldable pub receive_reply : ℕ × N.sockets.Socket → Cmd L (ℕ × Bool × N.sockets.Socket)
  unfolding net_recv
  receive_reply sent =
      if sent.0 == 0
      then (do reply ← net_recv N sent.1; pure (reply.0, reply.0 == 0, reply.1))
      else pure (0, false, sent.1)

  -- `tcp_requestor`
  unfoldable pub tcp_requestor :
      (request : ℕ) → N.sockets.Socket → Cmd L (ℕ × Bool × N.sockets.Socket)
  unfolding net_send receive_reply
  tcp_requestor request socket = do sent ← net_send N request socket; receive_reply sent

  -- A round of the loop of `tcp_ping`.
  unfoldable pub ping_round : N.sockets.Socket → Cmd L (Bool × N.sockets.Socket)
  unfolding set assert_zero tcp_requestor free
  ping_round socket = do
    request ← new_struct N.malloc N.random_id
    stored ← set request "method" (text_var "ping")
    assert_zero stored
    reply ← tcp_requestor request socket
    free reply.0
    pure (reply.1, reply.2)
