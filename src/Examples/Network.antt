-- ===== src/Examples/Network.antt =====
-- A table with one peer, at descriptor 2, and three requests of it.
use ffi_rpc.Base.{
  ◌+◌, ◌/◌, ◌≡◌, refl, [], ◌∷◌, ◌++◌, none, some, true, arith, take, length, map, set, ℕ, List,
}
use ffi_rpc.Ext.Models.{list_queue}
use ffi_rpc.World.Cmd.{Run, ok, fault}
use ffi_rpc.Network.{
  Notifier, loses, frees, Person, Table, call_if, net_discon, net_accept, net_read, requests,
}
use ffi_rpc.Network.Peers.{
  Accepted, Delivered, net_discon-frees, net_accept-Accepted, net_accept-faults, net_read-Delivered,
}

abbrev server : Notifier
server = record { notify = true; persondata_init = true; persondata_destroy = true }

abbrev peer : Person list_queue
peer = record { id = "ann"; request_que = 11 ∷ 12 ∷ 13 ∷ []; fd = 2 }

abbrev table : Table list_queue
table = record { persons = none ∷ none ∷ some peer ∷ none ∷ []; alloced = 4 }

net_discon-frees_example :
    net_discon server 2 table
    ≡ ok
        (call_if true (loses "ann")
          ++ map frees (take ((length (requests table 2) + 1) / 2) (requests table 2)))
        (record table { persons = set table.persons 2 none })
net_discon-frees_example = net_discon-frees server 2 table peer refl

-- The third request is lost.
freed_requests :
    net_discon server 2 table
    ≡ ok
        (loses "ann" ∷ frees 11 ∷ frees 12 ∷ [])
        (record { persons = none ∷ none ∷ none ∷ none ∷ []; alloced = 4 })
unfolding net_discon call_if
freed_requests = refl

net_accept-Accepted_example : Accepted 100 "bob" table (net_accept server 100 "bob" table)
net_accept-Accepted_example = net_accept-Accepted server 100 "bob" table refl (omega arith)

net_accept-faults_example : net_accept server 132 "bob" table ≡ fault
net_accept-faults_example = net_accept-faults server 132 "bob" table refl (omega arith)

-- A callback that takes the requests off the queue, as a server does, and keeps them.
abbrev takes_all : Person list_queue → List ℕ → Run (List ℕ) (Person list_queue)
takes_all p jobs = ok (record p { request_que = [] }) (jobs ++ p.request_que)

net_read-Delivered_example :
    Delivered takes_all 2 14 peer table [] (net_read (some takes_all) 2 (some 14) (table, []))
net_read-Delivered_example =
    net_read-Delivered takes_all 2 14 table peer (record peer { request_que = [] }) []
      (11 ∷ 12 ∷ 13 ∷ 14 ∷ []) refl refl refl

-- Nothing is queued then.
taken_requests :
    net_read (some takes_all) 2 (some 14) (table, [])
    ≡ ok [] (
      record table { persons = set table.persons 2 (some (record peer { request_que = [] })) },
      11 ∷ 12 ∷ 13 ∷ 14 ∷ [],
    )
unfolding net_read
taken_requests = refl
