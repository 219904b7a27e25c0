-- ===== src/Poll/Adding.antt =====
-- `poll_net_add_fd` of src/poll_network.c.
use ffi_rpc.Base.{
  ℕ, suc, ◌+◌, ◌-◌, ◌<◌, ◌≡◌, ◌≢◌, refl, ap, ◌∙◌, Bool, true, false, [], ◌∷◌, ◌++◌, nat_eq, ◌==◌,
  nat_beq_iff, Bool-cases, inl, inr, length, length-append, length-replicate, length-set, take-set,
  take-append_within, replicate, arith, if◌then◌else◌,
}
use ffi_rpc.Poll.{
  Net, unset_fd, init, grow, put_fd, add_grown, add_fd, in_use, min_pollfd, Callbacks,
}

-- The array has its noted size, and room for one more entry.
pub record IsSized (net : Net) : Type 0 where
  pub sized : length net.fds ≡ net.fds_size
  pub room : net.nfds < net.fds_size

pub init-IsSized : (cbs : Callbacks) → IsSized (init cbs)
unfolding init
init-IsSized cbs = record { sized = refl; room = omega arith }

-- The outcome of `grow`: room for two more entries, and the same in use.
record Grown (net grown : Net) : Type 0 where
  sized : IsSized grown
  room : net.nfds + 1 < grown.fds_size
  same : in_use grown ≡ in_use net
  nfds : grown.nfds ≡ net.nfds

grow-Grown : (net : Net) → IsSized net → Grown net (grow net)
unfolding grow
grow-Grown net s = elim (Bool-cases (net.nfds == net.fds_size - 1)) [
  | inl full ↦ rw full (record {
    sized = record {
      sized = omega (
        arith,
        length-append net.fds (replicate min_pollfd unset_fd),
        length-replicate min_pollfd unset_fd,
        s.sized,
      );
      room = omega (arith, s.room);
    };
    room = omega (arith, s.room);
    same = take-append_within net.nfds net.fds _ (omega (arith, s.room, s.sized));
    nfds = refl;
  })
  | inr roomy ↦ rw roomy (record {
    sized = s;
    room = ground (arith, s.room, roomy, nat_beq_iff net.nfds (net.fds_size - 1));
    same = refl;
    nfds = refl;
  })
]

-- The outcome of adding a descriptor.
pub record Added (fd : ℕ) (net : Net) (result : ℕ) (net' : Net) : Type 0 where
  pub sized : IsSized net'
  pub added : result ≡ 0 → in_use net' ≡ in_use net ++ record unset_fd { fd = fd } ∷ []
  pub refused : result ≢ 0 → in_use net' ≡ in_use net

add_grown-Added :
    (limit fd : ℕ) (net grown : Net)
    → Grown net grown
    → Added fd net (add_grown limit grown fd).0 (add_grown limit grown fd).1
unfolding add_grown put_fd
add_grown-Added limit fd net grown g =
    let room : grown.nfds + 1 < grown.fds_size = omega (arith, g.room, g.nfds) in
    elim (Bool-cases (grown.nfds + 1 == limit)) [
      | inl full ↦
          rw full
            (record { sized = g.sized; added = λ e. absurd (omega arith); refused = λ ne. g.same })
      | inr fits ↦ rw fits (record {
        sized = record { sized = length-set grown.fds _ _ ∙ g.sized.sized; room = room };
        added = λ e.
            let next : grown.nfds + 1 ≡ suc grown.nfds = omega arith in
            rw next (
              take-set grown.nfds grown.fds _ (omega (arith, room, g.sized.sized))
              ∙ ap (λ xs. xs ++ record unset_fd { fd = fd } ∷ []) g.same);
        refused = λ ne. absurd (ne refl);
      })
    ]

-- The two branches of `poll_net_add_fd` on `active`.
either-Added :
    (active : Bool) (limit fd : ℕ) (net : Net)
    → IsSized net
    → let r = if active then add_grown limit (grow net) fd else (1, net, []) in Added fd net r.0 r.1
either-Added true limit fd net s = add_grown-Added limit fd net (grow net) (grow-Grown net s)
either-Added false limit fd net s = record {
  sized = s;
  added = λ e. absurd (omega arith);
  refused = λ ne. refl;
}

-- On an array of its noted size with room for an entry, poll_net_add_fd with any value of
-- RLIMIT_NOFILE leaves such an array again; with result 0 the descriptor stands behind those in
-- use, with any other result those in use are what they were.
pub add_fd-Added :
    (rlimit_nofile : ℕ) (net : Net) (fd : ℕ)
    → IsSized net
    → Added fd net (add_fd rlimit_nofile net fd).0 (add_fd rlimit_nofile net fd).1
unfolding add_fd
add_fd-Added limit net fd s = either-Added net.active limit fd net s
