-- ===== src/Network.antt =====
-- The table of peers of src/rpc_network.c. A peer is found by its descriptor; a request is the address
-- of a struct. Receiving and the random ID of a peer are arguments. The callbacks for a peer's data,
-- frees and closings are listed in order; the callback for a message takes requests off the peer's
-- queue, so it is a command.
pub mod Peers
use ffi_rpc.Base.{
  ℕ, zero, suc, ◌+◌, Bool, true, false, Option, none, some, List, [], ◌∷◌, ◌++◌, String, ltb, leb,
  if◌then◌else◌, get_elem?, set, replicate, map,
}
use ffi_rpc.Ext.Queue.{QueueLib}
use ffi_rpc.World.Cmd.{Run, ok, fault, out_of_fuel, and_then}

-- `HOLDER_MIN_ALLOC_FDS`
abbrev pub min_alloc_fds : ℕ
min_alloc_fds = 128

-- `rpc_net_notifier_callback`: which of the callbacks are set.
pub record Notifier : Type 0 where
  pub notify : Bool
  pub persondata_init : Bool
  pub persondata_destroy : Bool

pub data Event : Type 0 where
  greets loses : String → Event
  frees : ℕ → Event
  shuts : ℕ → Event

module _ (Q : QueueLib) where
  -- `struct _rpc_net_person`
  pub record Person : Type 0 where
    pub id : String
    pub request_que : Q.Queue ℕ
    pub fd : ℕ

  -- `RN_persons` and `RN_alloced_personsfd`
  pub record Table : Type 0 where
    pub persons : List (Option Person)
    pub alloced : ℕ

unfoldable pub call_if : Bool → Event → List Event
call_if true e = e ∷ []
call_if false e = []

-- The loop of `net_discon`, whose bound is read anew each round: the requests that are freed. As
-- many rounds as there were requests are enough.
unfoldable pub free_requests : (Q : QueueLib) → (rounds : ℕ) → ℕ → Q.Queue ℕ → List ℕ
free_requests Q zero i q = []
free_requests Q (suc rounds) i q = elim (ltb i (Q.size q)) [
  | false ↦ []
  | true ↦ elim (Q.del_first q) [
    | none ↦ []
    | some (request, rest) ↦ request ∷ free_requests Q rounds (i + 1) rest
  ]
]

module _ {Q : QueueLib} where
  -- `make_personsfd_bigger`
  unfoldable pub make_bigger : ℕ → Table Q → Table Q
  make_bigger to t =
      if leb t.alloced to
      then record t {
        persons = t.persons ++ replicate min_alloc_fds none;
        alloced = t.alloced + min_alloc_fds;
      }
      else t

  -- `net_discon`. The array is read out of bounds where this faults.
  unfoldable pub net_discon : Notifier → ℕ → Table Q → Run (Table Q) (List Event)
  unfolding free_requests call_if
  net_discon n fd t = elim (get_elem? t.persons fd) [
    | none ↦ fault
    | some none ↦ ok [] t
    | some (some p) ↦
        ok
          (call_if n.persondata_destroy (loses p.id)
            ++ map frees (free_requests Q (Q.size p.request_que) 0 p.request_que))
          (record t { persons = set t.persons fd none })
  ]

  -- The part of `net_accept` that makes the peer.
  unfoldable pub put_person :
      Notifier → ℕ → String → List Event → Table Q → Run (Table Q) (List Event)
  unfolding call_if
  put_person n fd id before t = elim (get_elem? t.persons fd) [
    | none ↦ fault
    | some old ↦ ok (before ++ call_if n.persondata_init (greets id)) (record t {
      persons = set t.persons fd (some (record { id = id; request_que = Q.init ℕ; fd = fd }));
    })
  ]

  -- `net_accept`. It asks whether there is a peer, as `net_discon` does: without one that does nothing.
  unfoldable pub net_accept : Notifier → ℕ → (id : String) → Table Q → Run (Table Q) (List Event)
  unfolding make_bigger net_discon put_person
  net_accept n fd id t =
      and_then (net_discon n fd (make_bigger fd t)) (λ before. put_person n fd id before)

  -- The call of `notify`, which may change the peer and the state `S` of the program.
  unfoldable pub notify_if :
      {S : Type 0} → Option (Person Q → S → Run S (Person Q)) → Person Q → S → Run S (Person Q)
  notify_if none p x = ok p x
  notify_if (some notify) p x = notify p x

  -- The peer as the callback leaves it is the one in the table.
  unfoldable pub notified :
      {S : Type 0} → ℕ → Table Q → Run S (Person Q) → Run (Table Q × S) (List Event)
  notified fd t (ok p x) = ok [] (record t { persons = set t.persons fd (some p) }, x)
  notified fd t fault = fault
  notified fd t out_of_fuel = out_of_fuel

  -- `net_read`: `received` is what `rpc_net_recv` returns, `none` for NULL.
  unfoldable pub net_read :
      {S : Type 0}
      → (notify : Option (Person Q → S → Run S (Person Q))) → ℕ
      → (received : Option ℕ) → Table Q × S
      → Run (Table Q × S) (List Event)
  unfolding notify_if notified
  net_read notify fd received (t, x) =
      if ltb fd t.alloced
      then (elim (get_elem? t.persons fd) [
        | none ↦ fault
        | some none ↦ ok (shuts fd ∷ []) (t, x)
        | some (some p) ↦ elim received [
          | none ↦ ok (shuts fd ∷ []) (t, x)
          | some request ↦
              notified fd t
                (notify_if notify (record p { request_que = Q.add_last p.request_que request }) x)
        ]
      ])
      else ok (shuts fd ∷ []) (t, x)

  -- `rpc_net_person_request_ammount`
  unfoldable pub request_amount : Person Q → ℕ
  request_amount p = Q.size p.request_que

  -- `rpc_net_person_get_request`
  unfoldable pub get_request : Person Q → Option ℕ × Person Q
  unfolding request_amount
  get_request p =
      if ltb 0 (request_amount p)
      then (elim (Q.del_first p.request_que) [
        | none ↦ (none, p)
        | some (request, rest) ↦ (some request, record p { request_que = rest })
      ])
      else (none, p)

  -- The requests of the peer at a descriptor, oldest first.
  abbrev pub queued : Option (Option (Person Q)) → List ℕ
  queued none = []
  queued (some none) = []
  queued (some (some p)) = Q.to_list p.request_que

  abbrev pub requests : Table Q → ℕ → List ℕ
  requests t fd = queued (get_elem? t.persons fd)
