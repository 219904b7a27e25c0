-- ===== src/Poll.antt =====
-- The polled file descriptors of src/poll_network.c. One thread at a time works on a `Net`; what the
-- kernel reports is in the entries. The calls out, callbacks and closing, are listed in order.
pub mod Turn
pub mod Adding
use ffi_rpc.Base.{
  ℕ, zero, suc, ◌+◌, ◌-◌, Bool, true, false, Option, none, some, List, [], ◌∷◌, ◌++◌, nat_eq, ◌==◌,
  ltb, if◌then◌else◌, ◌||◌, get_elem?, set, take, replicate,
}

-- `struct pollfd`: the descriptor, and the bits of `revents` that the program asks for.
pub record PollFd : Type 0 where
  pub fd : ℕ
  pub readable : Bool
  pub hung_up : Bool
  pub failed : Bool
  pub invalid : Bool
  pub peer_closed : Bool

-- `struct poll_net_callbacks`: which of them are set.
pub record Callbacks : Type 0 where
  pub accept_error_cb : Bool
  pub accept_cb : Bool
  pub disconnect_cb : Bool
  pub read_cb : Bool

-- `struct poll_net`. `fds` is the allocated array, the first `nfds` entries are in use. No socket is
-- -1 in the source.
pub record Net : Type 0 where
  pub active : Bool
  pub fds : List PollFd
  pub fds_size : ℕ
  pub nfds : ℕ
  pub callbacks : Callbacks
  pub sockfd : Option ℕ

-- A callback, or `shutdown` and `close`.
pub data Action : Type 0 where
  reads disconnects closes : ℕ → Action

-- `MIN_POLLFD`
abbrev pub min_pollfd : ℕ
min_pollfd = 128

-- An entry that `calloc` made, or of which `realloc` left the content open.
abbrev pub unset_fd : PollFd
unset_fd = record {
  fd = 0;
  readable = false;
  hung_up = false;
  failed = false;
  invalid = false;
  peer_closed = false;
}

-- `poll_net_init`
unfoldable pub init : Callbacks → Net
init cbs = record {
  active = true;
  fds = replicate min_pollfd unset_fd;
  fds_size = min_pollfd;
  nfds = 0;
  callbacks = cbs;
  sockfd = none;
}

-- `poll_net_start_accept`
unfoldable pub start_accept : Net → ℕ → Net
start_accept net sockfd = record net { sockfd = some sockfd }

-- The condition under which `poll_thread` drops a descriptor.
unfoldable pub is_gone : PollFd → Bool
is_gone e = e.hung_up || e.failed || e.invalid || e.peer_closed

unfoldable pub call_if : Bool → Action → List Action
call_if true a = a ∷ []
call_if false a = []

-- What `poll_thread` calls for an entry that is readable, and for one that is gone.
unfoldable pub read_calls : Callbacks → PollFd → List Action
unfolding call_if
read_calls cbs e = if e.readable then call_if cbs.read_cb (reads e.fd) else []

unfoldable pub drop_calls : Callbacks → ℕ → List Action
unfolding call_if
drop_calls cbs fd = call_if cbs.disconnect_cb (disconnects fd) ++ closes fd ∷ []

-- `memmove(&fds[i],&fds[i + 1],count * sizeof(*fds))`
unfoldable pub shift_down : ℕ → ℕ → List PollFd → List PollFd
shift_down i count [] = []
shift_down (suc i) count (x ∷ xs) = x ∷ shift_down i count xs
shift_down zero zero (x ∷ xs) = x ∷ xs
shift_down zero (suc count) (x ∷ []) = x ∷ []
shift_down zero (suc count) (x ∷ y ∷ ys) = y ∷ shift_down zero count (y ∷ ys)

-- The removal of entry `i`.
unfoldable pub drop_entry : ℕ → Net → Net
unfolding shift_down
drop_entry i net = record net {
  fds = shift_down i (net.nfds - (i + 1)) net.fds;
  nfds = net.nfds - 1;
}

-- The loop `for(nfds_t i = 0; i < net->nfds; i++)` of `poll_thread`. After a removal `i--` and `i++`
-- cancel. Each round brings `nfds` and `i` closer, so `nfds` rounds are enough.
unfoldable pub scan : (rounds : ℕ) → ℕ → Net → Net × List Action
unfolding read_calls drop_calls drop_entry is_gone
scan zero i net = (net, [])
scan (suc rounds) i net = elim (ltb i net.nfds) [
  | false ↦ (net, [])
  | true ↦ elim (get_elem? net.fds i) [
    | none ↦ (net, [])
    | some e ↦ elim (is_gone e) [
      | true ↦
          let rest = scan rounds i (drop_entry i net) in
          (rest.0, read_calls net.callbacks e ++ (drop_calls net.callbacks e.fd ++ rest.1))
      | false ↦ let rest = scan rounds (i + 1) net in (rest.0, read_calls net.callbacks e ++ rest.1)
    ]
  ]
]

-- One turn of `poll_thread`, once `poll` has reported `count` entries.
unfoldable pub turn : (count : ℕ) → Net → Net × List Action
unfolding scan
turn zero net = (net, [])
turn (suc count) net = scan net.nfds 0 net

-- The growth of the array in `poll_net_add_fd`.
unfoldable pub grow : Net → Net
grow net =
    if net.nfds == net.fds_size - 1
    then record net {
      fds_size = net.fds_size + min_pollfd;
      fds = net.fds ++ replicate min_pollfd unset_fd;
    }
    else net

-- What `shutdown` and `close` get if there is no room: the entry behind those in use.
unfoldable pub close_unset : Net → List Action
close_unset net = elim (get_elem? net.fds net.nfds) [ none ↦ [] | some e ↦ closes e.fd ∷ [] ]

unfoldable pub put_fd : ℕ → Net → Net
put_fd fd net = record net {
  fds = set net.fds net.nfds (record unset_fd { fd = fd });
  nfds = net.nfds + 1;
}

-- The rest of `poll_net_add_fd`. RLIMIT_NOFILE is a constant of the system's headers.
unfoldable pub add_grown : (rlimit_nofile : ℕ) → Net → ℕ → ℕ × Net × List Action
unfolding close_unset put_fd
add_grown rlimit_nofile net fd =
    if net.nfds + 1 == rlimit_nofile then (1, net, close_unset net) else (0, put_fd fd net, [])

-- `poll_net_add_fd`
unfoldable pub add_fd : (rlimit_nofile : ℕ) → Net → ℕ → ℕ × Net × List Action
unfolding add_grown
add_fd rlimit_nofile net fd =
    if net.active then add_grown rlimit_nofile (grow net) fd else (1, net, [])

-- `poll_net_stop_accept`
unfoldable pub stop_accept : Net → List Action
stop_accept net = elim net.sockfd [ none ↦ [] | some s ↦ closes s ∷ [] ]

-- The loop of `poll_net_free`, which calls `disconnect_cb` unchecked.
unfoldable pub close_all : List PollFd → List Action
close_all [] = []
close_all (e ∷ es) = disconnects e.fd ∷ closes e.fd ∷ close_all es

-- `poll_net_free`: what is called until the memory is freed.
unfoldable pub free : Net → List Action
unfolding stop_accept close_all
free net = stop_accept net ++ close_all (take net.nfds net.fds)

-- The entries in use.
abbrev pub in_use : Net → List PollFd
in_use net = take net.nfds net.fds

-- What `poll_thread` should keep and call, written without the array.
unfoldable pub living : List PollFd → List PollFd
living [] = []
living (e ∷ es) = if is_gone e then living es else e ∷ living es

unfoldable pub calls_for : Callbacks → List PollFd → List Action
calls_for cbs [] = []
calls_for cbs (e ∷ es) =
    let rest = calls_for cbs es in
    read_calls cbs e ++ (if is_gone e then drop_calls cbs e.fd ++ rest else rest)
