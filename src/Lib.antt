-- ===== src/Lib.antt =====
-- ffiRPC: typed key-value structs with shared, reference-counted content, and remote calls on them.
--
-- The program. `src/rpc_struct.c` offers structs: maps from names to elements, which are numbers,
-- strings, structs, buffers or functions. `src/ptracker.c` holds a table of the pointers that
-- elements refer to, with a count each and callbacks. The callbacks, in `src/rpc_struct.c` again,
-- remember for every tracked pointer which structs hold it under which names. So freeing a pointer
-- removes it from all structs that hold it, and the last removal frees it. The objects of
-- `src/rpc_object.c` are such structs, with functions that libffi calls. The client of
-- `src/rpc_client.c` makes closures of an object's functions: calling one sends a request struct,
-- as JSON over a socket of `src/rpc_network.c` or straight to the job of a local connection, and
-- the methods of `src/rpc_server.c` answer it with a reply struct.
--
-- The files.
--   Base    shared tests, lists and association lists over the native numbers.
--   Ext     the libraries under `src/hashmap.c` and `include/ffirpc/sc_queue.h`, copies of other
--           projects, and jansson, as parameters: operations and their documented laws.
--           Ext/JsonValues is the part of jansson that structs need beside. Ext/Models and
--           Ext/JsonModel have instances, for the examples, and Ext/TreeText a text form for JSON.
--   Types   `enum rpc_types`, `rpc_type_t`, `rpc_is_pointer`, `rpc_freefn_of`.
--   World   the memory: objects by address, and the tracker's table. World/Cmd: a run ends with a
--           value, in a fault (the source would touch freed memory), or out of fuel.
--   Origins `rpc_struct_prec_ctx`: the slots of `rpc_struct_increment_cb` and
--           `rpc_struct_decrement_cb`. Children: what makes slots well-formed, adding, clearing.
--   Struct  `prec_new`, `prec_increment`, `prec_decrement`, `prec_delete`, the three callbacks,
--           `rpc_struct_remove` and `rpc_struct_free_internals`. Struct/Api: the operations for
--           users. The other children hold proofs: Invariant says when the memory is consistent;
--           Untrack, Onzero, Decrement, Remove, Free and Delete follow the parts of a deletion;
--           Track and Store treat `rpc_struct_set_internal`, Filling elements stored one after the
--           other; Safety and Session state the promises of the operations and of sequences of calls.
--   StructJson  JSON for structs. Write has `rpc_struct_serialize`, Parts `rpc_struct_id_set` and what
--           reading makes, Read `item_parse` and `rpc_struct_deserialize`. The other children hold
--           proofs about structs of numbers and texts: Copied and Sent follow the writer, Message is
--           about the JSON, Flat and Received follow the reader, Arrival is about one
--           element, RoundTrip joins them.
--   Typed   the macros `c_to_rpc`, `rpc_struct_set`, `rpc_struct_get` and `rpc_struct_get_unsafe` of
--           `include/ffirpc/rpc_struct.h`, on variables of each C type; RoundTrip has the proofs.
--   DeepCopy  `rpc_struct_deep_copy`; the child Plain is about structs that hold no other objects.
--   Duplicates  `rpc_struct_found_duplicates`. Children: Groups says what the groups of a list of
--           elements are, Grouped is about the search.
--   Hashing `murmur`, `rpc_sizedbuf_hash` and `rpc_struct_hash`. Children: Bits and Bounds are about
--           the size of a hash, Ranked about structs that hold structs.
--   Objects buffers and functions: creating, reading, setting, copying and freeing them, of
--           `src/rpc_sizedbuf.c` and `src/rpc_function.c`. Allocation is about new ones, Copies about
--           copies.
--   Poll    `src/poll_network.c`: the array of polled descriptors, `poll_net_add_fd`, one turn of
--           `poll_thread`, with the calls out as a list. Children: Turn and Adding, the proofs.
--   Calls   `proto_equals` of `src/rpc_object.c`; the child Prototype says what it accepts.
--   CallStack  the objects whose calls run, `RO_object_stack` of `src/rpc_object.c`.
--   Framing `rpc_net_send_json` and `rpc_net_recv_json`, with jansson and the socket as parameters:
--           a socket may take, and give, fewer bytes than asked. Delivery has the proofs.
--   Network the table of peers of `src/rpc_network.c`: `net_accept`, `net_discon`, `net_read`, and the
--           queue of a peer's requests; the callback for a message is a command that may take
--           requests off it. The child Peers has the proofs.
--   Registry  the objects of `src/rpc_object.c` by name and ID, and local ones. Children: Lookup is
--           about finding them, Removal about removing them, Local about local ones.
--   Invoke  `rpc_cobject_call`, with libffi as a parameter. Children: Errors is about calls that are
--           refused, Cached about the prototype and the arguments, Accepted about calls that pass the
--           check of their arguments, Answered about what a call leaves.
--   Server  `src/rpc_server.c`: the table of methods, the methods, and `rpc_server_localnet_job`.
--           Children: Connections has the data of peers and `message_receiver`, Ports starting and
--           stopping a port with the holders of `src/rpc_network.c`, Jobs `net_job`; Setup is about
--           the table, Dispatch about finding a method, Served about a request for an object.
--   Exchange  `rpc_net_send` and `rpc_net_recv`; Delivery is about a struct that goes through both.
--   Client  `src/rpc_client.c`: its record, local and TCP requests, a round of `tcp_ping`. Children:
--           Connect has `rpc_client_connect_tcp`, Requests `is_object`, Fetch
--           `rpc_client_cobject_get`, Closures `closurefy` and `cobj_destructor`, Calls and Returns
--           the two halves of `call_rpc_closure`; Unanswered is about a reply without a result.
--   Serial  `rpc_sizedbuf_serialize`, `rpc_sizedbuf_deserialize`, and the same of functions. Children:
--           Arrays is about arrays and objects, Written about the JSON of a function, Buffers and
--           Functions about reading.
--   Services  `src/rpc_init.c`: the table of services, adding, loading one and loading all. Children:
--           Order says when services are started in order, Adding is about tables that adding makes,
--           Loads about loading one service, Sorted about loading all.
--   Examples  concrete memories, and the theorems applied to them.
--
-- Bounds and fuel. `prec_delete`, the callbacks, `rpc_struct_remove` and the freeing functions
-- call one another; the recursion takes fuel. Each deletion first takes its pointer off the
-- table, so the size of the table is enough. The loop of `poll_thread` takes as many rounds as
-- there are descriptors in use, since each round brings its index and its bound closer; that of
-- `rpc_struct_decrement_cb` as many as slots in use, and that of `net_discon` as many as requests
-- are queued. The loop of `rpc_lobject_get` takes two rounds. `rpc_struct_hash`,
-- `rpc_struct_deep_copy`, `rpc_struct_serialize` and `rpc_struct_deserialize` take as much as structs
-- or JSON are nested deep, one for a struct that holds none, and `rpc_service_load` more
-- than the highest rank of a service. Addresses, counts and indices are natural numbers; NULL is
-- 0. The counter of the source is an int, which would wrap after 2^31 references.
--
-- Not modelled. Threads and mutexes: a mutex is recursive, so one thread passes it, but locking a
-- freed struct is a fault; jobs, callbacks and rounds of a loop that other threads run are functions
-- that run to their end. `accept_thread` is left out, and the thread pool, a copy of another
-- project, whose jobs are listed. `malloc` is a parameter, an address that is not in use, and never
-- fails. The random ID of a struct is a parameter, as are libffi, jansson, sockets, `getaddrinfo`
-- and the addresses of functions and closures. What is logged is left out, and a failed assertion
-- is a fault. A function read from JSON whose numbers are no types is a fault too, where the source
-- keeps the numbers. The members of JSON are read in the order in which they were written. A text is a
-- sequence of characters, so that `json_string` never refuses one as no UTF-8, and the address of a
-- text that `strdup` copied is only known not to be NULL; that texts are freed is left
-- out. The call of a manual destructor, a function of the user, is noted when a struct is freed, and
-- what it does to the memory is left out.
pub mod Base
pub mod CallStack
pub mod Calls
pub mod Client
pub mod DeepCopy
pub mod Duplicates
pub mod Examples
pub mod Exchange
pub mod Ext
pub mod Framing
pub mod Hashing
pub mod Invoke
pub mod Network
pub mod Objects
pub mod Origins
pub mod Poll
pub mod Registry
pub mod Serial
pub mod Server
pub mod Services
pub mod Struct
pub mod StructJson
pub mod Typed
pub mod Types
pub mod World
