-- ===== src/Examples/Poll.antt =====
-- A polled array with three descriptors, of which the second has hung up.
use ffi_rpc.Base.{◌≡◌, refl, [], ◌∷◌, true, none, arith, replicate}
use ffi_rpc.Poll.{
  Net, Callbacks, reads, disconnects, closes, unset_fd, init, turn, add_fd, grow, close_unset,
}
use ffi_rpc.Poll.Turn.{Turned, turn-Turned}
use ffi_rpc.Poll.Adding.{Added, init-IsSized, add_fd-Added}

abbrev all_set : Callbacks
all_set = record { accept_error_cb = true; accept_cb = true; disconnect_cb = true; read_cb = true }

abbrev three : Net
three = record {
  active = true;
  fds =
      record unset_fd { fd = 5; readable = true }
      ∷ record unset_fd { fd = 6; hung_up = true }
      ∷ record unset_fd { fd = 7 }
      ∷ unset_fd
      ∷ [];
  fds_size = 4;
  nfds = 3;
  callbacks = all_set;
  sockfd = none;
}

turn-Turned_example : Turned three (turn 2 three)
turn-Turned_example = turn-Turned 1 three (omega arith)

-- The second is dropped, and the others stay in their order.
turn_calls : (turn 2 three).1 ≡ reads 5 ∷ disconnects 6 ∷ closes 6 ∷ []
unfolding turn
turn_calls = refl

add_fd-Added_example :
    Added 9 (init all_set) (add_fd 7 (init all_set) 9).0 (add_fd 7 (init all_set) 9).1
add_fd-Added_example = add_fd-Added 7 (init all_set) 9 (init-IsSized all_set)

-- With six descriptors and the constant 7 the next one is refused, and descriptor 0 is closed.
abbrev six : Net
six = record three { fds = replicate 16 unset_fd; fds_size = 16; nfds = 6 }

seventh : (add_fd 7 six 9).2 ≡ closes 0 ∷ []
unfolding add_fd grow close_unset
seventh = refl
