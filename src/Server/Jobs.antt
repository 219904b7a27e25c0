-- ===== src/Server/Jobs.antt =====
-- `net_job` of src/rpc_server.c: a job of the thread pool answers a request over its socket.
use ffi_rpc.Base.{ℕ, Bool, false, nat_eq, ◌==◌, if◌then◌else◌, Option, none, some, String, not}
use ffi_rpc.Ext.Libs.{Libs}
use ffi_rpc.World.Cmd.{pure, ◌>>=◌, ◌>>◌}
use ffi_rpc.Struct.{Cmd}
use ffi_rpc.Struct.Api.{create, free}
use ffi_rpc.Typed.{get}
use ffi_rpc.Registry.{struct_var}
use ffi_rpc.Invoke.{LibFfi, Calling}
use ffi_rpc.Exchange.{Stack, net_send}
use ffi_rpc.Server.{Linker, Server, null_text, code_var, int_var, run_at}

module _ {L : Libs} (N : Stack L) (cache_key : String → String → String) (text_at : ℕ → String)
    (ffi : LibFfi L) (K : Linker) (g : Server) where
  -- The part of `net_job` that handles the request; `false` is `goto error`.
  unfoldable pub handle : (persondata request reply : ℕ) → Calling L → Cmd L (Bool × Calling L)
  unfolding get run_at
  handle persondata request reply c = do
    request_name ← get request "method" null_text
    if not (request_name.0 == 0) then pure (false, c) else (do
      request_handler ← get g.methods request_name.1.text (code_var 0)
      if not (request_handler.0 == 0) then pure (false, c) else (do
        request_params ← get request "params" (struct_var 0)
        r ←
            run_at N.decimal cache_key text_at ffi (K.method_at request_handler.1.bits) persondata
              request_params.1.bits reply c
        pure (r.0 == 0, r.1)))

  -- The end of `net_job`: the descriptor that is shut down and closed, if any, and the socket.
  unfoldable pub send_reply :
      (job_info fd reply : ℕ)
      → N.sockets.Socket
      → Bool × Calling L
      → Cmd L (Option ℕ × N.sockets.Socket × Calling L)
  unfolding free net_send
  send_reply job_info fd reply socket handled = do
    free job_info
    sent ← net_send N reply socket
    pure (if handled.0 then if sent.0 == 0 then none else some fd else some fd, sent.1, handled.1)

  -- `net_job`
  unfoldable pub net_job :
      (job_info : ℕ)
      → N.sockets.Socket
      → Calling L
      → Cmd L (Option ℕ × N.sockets.Socket × Calling L)
  unfolding get handle send_reply
  net_job job_info socket c w =
      (do
        reply ← create (N.malloc w) (N.random_id w)
        fd ← get job_info "fd" (int_var 0)
        persondata ← get job_info "persondata" (struct_var 0)
        request ← get job_info "request" (struct_var 0)
        handled ← handle persondata.1.bits request.1.bits reply c
        send_reply job_info fd.1.bits reply socket handled)
        w
