-- ===== src/Server/Ports.antt =====
-- The ports of src/rpc_server.c, over the holders of src/rpc_network.c. A holder stands at its
-- address in a list; the listening socket and the text of a port's number are arguments.
use ffi_rpc.Base.{
  ℕ, true, false, nat_eq, if◌then◌else◌, none, some, List, [], ◌∷◌, String, lookup, erase,
}
use ffi_rpc.Ext.Libs.{Libs}
use ffi_rpc.World.Cmd.{fault, pure, ◌>>=◌, ◌>>◌}
use ffi_rpc.Struct.{Cmd}
use ffi_rpc.Struct.Api.{exists, remove}
use ffi_rpc.Typed.{Variable, other_t, set, get}
use ffi_rpc.Poll.{Net, Action, Callbacks, init, start_accept}
use ffi_rpc.Poll
use ffi_rpc.Network.{Notifier}
use ffi_rpc.Server.{Server, assert_zero}

-- `struct _rpc_net_holder`
pub record Holder : Type 0 where
  pub poll_net : Net
  pub notify : Notifier

-- The callbacks that a holder is made with.
abbrev holder_callbacks : Callbacks
holder_callbacks = record {
  accept_error_cb = false;
  accept_cb = true;
  disconnect_cb = true;
  read_cb = true;
}

-- `rpc_net_holder_create`
unfoldable pub holder_create : Notifier → Holder
holder_create notifier = record { poll_net = init holder_callbacks; notify = notifier }

-- `rpc_net_holder_accept_on`
unfoldable pub holder_accept_on : Holder → ℕ → Holder
holder_accept_on holder accept_fd = record holder {
  poll_net = start_accept holder.poll_net accept_fd;
}

-- `rpc_net_holder_free`
unfoldable pub holder_free : Holder → List Action
holder_free holder = Poll.free holder.poll_net

-- The callbacks of a port.
abbrev port_notifier : Notifier
port_notifier = record { notify = true; persondata_init = true; persondata_destroy = true }

abbrev pub pointer_var : ℕ → Variable
pointer_var p = record { ctype = other_t; bits = p; text = "" }

module _ {L : Libs} where
  -- `rpc_server_launch_port`
  unfoldable pub launch_port :
      Server
      → (acc : String) → (net_port listenfd : ℕ) → List (ℕ × Holder)
      → Cmd L (ℕ × List (ℕ × Holder))
  unfolding exists set assert_zero holder_create holder_accept_on
  launch_port g acc net_port listenfd holders = do
    there ← exists g.netports acc
    if there then pure (1, holders) else (do
      let holder = holder_accept_on (holder_create port_notifier) listenfd
      stored ← set g.netports acc (pointer_var net_port)
      assert_zero stored
      pure (0, (net_port, holder) ∷ holders))

  -- The end of `rpc_server_stop_port`: the calls out of freeing the holder.
  unfoldable pub stop_holder : ℕ → List (ℕ × Holder) → Cmd L (ℕ × List Action × List (ℕ × Holder))
  unfolding holder_free
  stop_holder net_port holders = elim (lookup net_port holders) [
    | none ↦ (λ w. fault)
    | some holder ↦ pure (0, holder_free holder, erase net_port holders)
  ]

  -- `rpc_server_stop_port`
  unfoldable pub stop_port :
      Server → (acc : String) → List (ℕ × Holder) → Cmd L (ℕ × List Action × List (ℕ × Holder))
  unfolding exists get remove assert_zero stop_holder
  stop_port g acc holders = do
    there ← exists g.netports acc
    if there
        then (do
          net_port ← get g.netports acc (pointer_var 0)
          assert_zero net_port.0
          removed ← remove g.netports acc
          assert_zero removed
          stop_holder net_port.1.bits holders)
        else pure (1, [], holders)
