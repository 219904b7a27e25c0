-- ===== src/Server/Connections.antt =====
-- The callbacks of a port of src/rpc_server.c: the data of a peer, and its requests as jobs of the
-- thread pool. The pool is not part of this repository's own code: the jobs that are handed to it
-- are listed, and `wait` is what `thpool_wait` runs. One callback runs at a time.
use ffi_rpc.Base.{ℕ, zero, suc, nat_eq, Option, none, some, List, [], ◌∷◌, String, string_eq}
use ffi_rpc.Types.{rpc_struct}
use ffi_rpc.Ext.Libs.{Libs}
use ffi_rpc.World.{World}
use ffi_rpc.World.Cmd.{pure, ◌>>=◌, ◌>>◌}
use ffi_rpc.Struct.{Cmd}
use ffi_rpc.Struct.Api.{create, remove}
use ffi_rpc.Typed.{set, get}
use ffi_rpc.Network.{Person, get_request, request_amount}
use ffi_rpc.Registry.{struct_var}
use ffi_rpc.StructJson.Parts.{set_made}
use ffi_rpc.Server.{Server, int_var, assert_zero}

-- The address of a request, 0 for NULL.
abbrev address_of : Option ℕ → ℕ
address_of none = 0
address_of (some p) = p

module _ {L : Libs} (malloc : World L → ℕ) (random_id : World L → String) where
  -- `rpc_struct_create`
  abbrev new_struct : Cmd L ℕ
  new_struct w = create (malloc w) (random_id w) w

  -- `persondata_init`
  unfoldable pub persondata_init : Server → (id : String) → (fd : ℕ) → Cmd L (Unit {0})
  unfolding set_made set assert_zero
  persondata_init g id fd = do
    persondata ← new_struct
    set_made new_struct rpc_struct persondata "lobjects"
    set persondata "fd" (int_var fd)
    stored ← set g.persondata id (struct_var persondata)
    assert_zero stored

  -- `persondata_destroy`
  unfoldable pub persondata_destroy :
      (wait : Cmd L (Unit {0})) → Server → (id : String) → Cmd L (Unit {0})
  unfolding remove
  persondata_destroy wait g id = do wait; remove g.persondata id; pure tt

  -- The struct of a job, up to its request.
  unfoldable pub job_struct : Server → Person L.queues → Cmd L ℕ
  unfolding set get assert_zero
  job_struct g person = do
    job_info ← new_struct
    set job_info "fd" (int_var person.fd)
    persondata ← get g.persondata person.id (struct_var 0)
    assert_zero persondata.0
    stored ← set job_info "persondata" persondata.1
    assert_zero stored
    pure job_info

  -- The loop of `message_receiver`: the jobs in order, and what is left of the peer's queue.
  unfoldable pub receive : (jobs : ℕ) → Server → Person L.queues → Cmd L (List ℕ × Person L.queues)
  unfolding job_struct set assert_zero get_request
  receive zero g person = pure ([], person)
  receive (suc jobs) g person = do
    job_info ← job_struct g person
    let request = get_request person
    stored ← set job_info "request" (struct_var (address_of request.0))
    assert_zero stored
    rest ← receive jobs g request.1
    pure (job_info ∷ rest.0, rest.1)

  -- `message_receiver`
  unfoldable pub message_receiver : Server → Person L.queues → Cmd L (List ℕ × Person L.queues)
  unfolding receive request_amount
  message_receiver g person = receive (request_amount person) g person
