-- ===== src/Network/Peers.antt =====
-- What the table of peers of src/rpc_network.c does.
use ffi_rpc.Base.{
  ℕ, zero, suc, ◌+◌, ◌-◌, ◌/◌, ◌<◌, ◌≤◌, ◌≡◌, ◌≢◌, refl, sym, ap, ◌∙◌, true, false, Option, none,
  some, List, [], ◌∷◌, ◌++◌, String, ltb, leb, Bool-cases, inl, inr, get_elem?, set, take, length,
  length-append, length-replicate, length-set, get_elem?-set_self, get_elem?-set_ne, get_elem?-some,
  get_elem?-beyond, get_elem?-within, replicate, map, arith,
}
use ffi_rpc.Ext.Queue.{QueueLib}
use ffi_rpc.World.Cmd.{Run, ok, fault, and_then}
use ffi_rpc.Network.{
  Notifier, Event, loses, frees, Person, Table, call_if, make_bigger, free_requests, net_discon,
  put_person, net_accept, net_read, notify_if, notified, queued, requests, min_alloc_fds,
}

take-nil : (n : ℕ) → take {A = ℕ} n [] ≡ []
take-nil zero = refl
take-nil (suc n) = refl

module _ (Q : QueueLib) where
  free_requests_lem :
      (xs : List ℕ) (q : Q.Queue ℕ) (rounds i : ℕ)
      → Q.to_list q ≡ xs
      → length xs ≤ rounds + i
      → free_requests Q rounds i q ≡ take ((length xs - i + 1) / 2) xs
  unfolding free_requests
  free_requests_lem xs q zero i e enough =
      let none_left : (length xs - i + 1) / 2 ≡ 0 = omega arith in rw none_left refl
  free_requests_lem [] q (suc rounds) i e enough =
      let empty : Q.size q ≡ 0 = Q.size-length q ∙ ap length e in
      let over : ltb i (Q.size q) ≡ false = ground (arith, empty) in
      rw (over, free_requests) (sym (take-nil _))
  free_requests_lem (x ∷ xs) q (suc rounds) i e enough =
      let size : Q.size q ≡ suc (length xs) = Q.size-length q ∙ ap length e in
      elim (Bool-cases (ltb i (Q.size q))) [
        | inr over ↦
            let none_left : (suc (length xs) - i + 1) / 2 ≡ 0 = ground (arith, size) in
            rw (over, none_left, free_requests) refl
        | inl inside ↦
            let (rest, popped, remain) = Q.del_first-cons q x xs e in
            let step : (suc (length xs) - i + 1) / 2 ≡ suc ((length xs - (i + 1) + 1) / 2) =
              ground (arith, size) in
            rw (inside, popped, step, free_requests)
              (ap (◌∷◌ x) (free_requests_lem xs rest rounds (i + 1) remain (omega arith)))
      ]

module _ {Q : QueueLib} where
  -- The table has its noted size.
  abbrev pub IsTable : Table Q → Type 0
  IsTable t = length t.persons ≡ t.alloced

  -- Disconnecting a peer removes it from the table after the callback for its data, if that is
  -- set, and frees the older half of its queued requests in their order, rounded up, and none of
  -- the others.
  pub net_discon-frees :
      (n : Notifier) (fd : ℕ) (t : Table Q) (p : Person Q)
      → get_elem? t.persons fd ≡ some (some p)
      → net_discon n fd t
        ≡ ok
            (call_if n.persondata_destroy (loses p.id)
              ++ map frees (take ((length (requests t fd) + 1) / 2) (requests t fd)))
            (record t { persons = set t.persons fd none })
  unfolding net_discon
  net_discon-frees n fd t p here =
      let all : free_requests Q (Q.size p.request_que) 0 p.request_que
          ≡ take ((length (Q.to_list p.request_que) - 0 + 1) / 2) (Q.to_list p.request_que) =
        free_requests_lem Q (Q.to_list p.request_que) p.request_que (Q.size p.request_que) 0 refl
          (omega (arith, Q.size-length p.request_que)) in
      let whole : length (Q.to_list p.request_que) - 0 ≡ length (Q.to_list p.request_que) =
        omega arith in
      rw (here, net_discon, all, whole) refl

  -- The outcome of a new connection.
  pub record Accepted (fd : ℕ) (id : String) (t : Table Q) (m : Run (Table Q) (List Event))
      : Type 0 where
    pub events : List Event
    pub table : Table Q
    pub runs : m ≡ ok events table
    pub sized : IsTable table
    pub here :
        get_elem? table.persons fd
        ≡ some (some (record { id = id; request_que = Q.init ℕ; fd = fd }))
    pub others : (j : ℕ) → j ≢ fd → requests table j ≡ requests t j

  record Bigger (fd : ℕ) (t u : Table Q) : Type 0 where
    sized : IsTable u
    room : fd < u.alloced
    same : (j : ℕ) → requests u j ≡ requests t j

  queued-replicate :
      (persons : List (Option (Person Q))) (n j : ℕ)
      → queued (get_elem? (persons ++ replicate n none) j) ≡ queued (get_elem? persons j)
  queued-replicate [] zero j = refl
  queued-replicate [] (suc n) zero = refl
  queued-replicate [] (suc n) (suc j) = queued-replicate [] n j
  queued-replicate (p ∷ persons) n zero = refl
  queued-replicate (p ∷ persons) n (suc j) = queued-replicate persons n j

  make_bigger-Bigger :
      (fd : ℕ) (t : Table Q)
      → IsTable t
      → fd < t.alloced + min_alloc_fds
      → Bigger fd t (make_bigger fd t)
  unfolding make_bigger
  make_bigger-Bigger fd t sized h = elim (Bool-cases (leb t.alloced fd)) [
    | inl over ↦ rw over (record {
      sized = omega (
        arith,
        length-append t.persons (replicate min_alloc_fds none),
        (let cell : Option (Person Q) = none in length-replicate min_alloc_fds cell),
        sized,
      );
      room = h;
      same = queued-replicate t.persons min_alloc_fds;
    })
    | inr within ↦ rw within (record { sized = sized; room = ground arith; same = λ j. refl })
  ]

  put_person-Accepted :
      (n : Notifier) (fd : ℕ) (id : String) (before : List Event) (t u : Table Q)
      → IsTable u
      → fd < u.alloced
      → ((j : ℕ) → j ≢ fd → requests u j ≡ requests t j)
      → Accepted fd id t (put_person n fd id before u)
  unfolding put_person
  put_person-Accepted n fd id before t u sized room same =
      let within : fd < length u.persons = omega (arith, sized, room) in
      let (old, at) = get_elem?-some u.persons fd within in
      rw (at, put_person)
        (record {
          events = _;
          table = _;
          runs = refl;
          sized = length-set u.persons fd _ ∙ sized;
          here = get_elem?-set_self u.persons fd _ within;
          others =
              λ j ne. ap queued (get_elem?-set_ne u.persons fd j _ (λ e. ne (sym e))) ∙ same j ne;
        })

  dropped-Accepted :
      (n : Notifier) (fd : ℕ) (id : String) (t u : Table Q) (old : Option (Person Q))
      → Bigger fd t u
      → get_elem? u.persons fd ≡ some old
      → Accepted fd id t (and_then (net_discon n fd u) (λ before. put_person n fd id before))
  unfolding net_discon
  dropped-Accepted n fd id t u none b at =
      rw (at, net_discon, and_then)
        (put_person-Accepted n fd id [] t u b.sized b.room (λ j ne. b.same j))
  dropped-Accepted n fd id t u (some p) b at =
      rw (at, net_discon, and_then)
        (put_person-Accepted n fd id _ t (record u { persons = set u.persons fd none })
          (length-set u.persons fd none ∙ b.sized) b.room
          (λ j ne. ap queued (get_elem?-set_ne u.persons fd j none (λ e. ne (sym e))) ∙ b.same j))

  -- On a table of its noted size, accepting a descriptor that is less than 128 beyond the table
  -- ends without a fault; the table has its noted size again, at the descriptor stands a new peer
  -- with the given ID and no requests, and the requests at every other descriptor are what they
  -- were.
  pub net_accept-Accepted :
      (n : Notifier) (fd : ℕ) (id : String) (t : Table Q)
      → IsTable t
      → fd < t.alloced + min_alloc_fds
      → Accepted fd id t (net_accept n fd id t)
  unfolding net_accept
  net_accept-Accepted n fd id t sized h =
      let b = make_bigger-Bigger fd t sized h in
      let (old, at) =
        get_elem?-some (make_bigger fd t).persons fd (omega (arith, b.sized, b.room)) in
      dropped-Accepted n fd id t (make_bigger fd t) old b at

  -- On a table of its noted size, accepting a descriptor that is 128 or more beyond the table
  -- reads the array out of bounds.
  pub net_accept-faults :
      (n : Notifier) (fd : ℕ) (id : String) (t : Table Q)
      → IsTable t
      → t.alloced + min_alloc_fds ≤ fd
      → net_accept n fd id t ≡ fault
  unfolding net_accept make_bigger
  net_accept-faults n fd id t sized h =
      let over : leb t.alloced fd ≡ true = ground arith in
      let cell : Option (Person Q) = none in
      let outside : get_elem? (t.persons ++ replicate min_alloc_fds cell) fd ≡ none =
        get_elem?-beyond _ fd (
          omega (
            arith,
            length-append t.persons (replicate min_alloc_fds cell),
            length-replicate min_alloc_fds cell,
            sized,
          )) in
      rw (over, outside, net_discon, and_then) refl

  -- The outcome of a message: the callback ran once, on the peer with the request, and what it left
  -- of the peer and the state is what there is then.
  pub record Delivered {S : Type 0} (notify : Person Q → S → Run S (Person Q)) (fd request : ℕ)
      (p : Person Q) (t : Table Q) (x : S) (m : Run (Table Q × S) (List Event)) : Type 0 where
    pub given : Person Q
    pub same_peer : (given.id ≡ p.id) × (given.fd ≡ p.fd)
    pub last : Q.to_list given.request_que ≡ requests t fd ++ request ∷ []
    pub left : Person Q
    pub state : S
    pub called : notify given x ≡ ok left state
    pub table : Table Q
    pub runs : m ≡ ok [] (table, state)
    pub sized : IsTable table
    pub here : get_elem? table.persons fd ≡ some (some left)
    pub others : (j : ℕ) → j ≢ fd → get_elem? table.persons j ≡ get_elem? t.persons j

  -- On a table of its noted size with a peer at the descriptor, where the callback for a message
  -- ends without a fault on the peer with the received request behind those that it has: net_read
  -- calls it on just that, and then the peer at the descriptor is what the callback left of it, the
  -- state is the callback's, nothing is closed, and the peers at all other descriptors are what
  -- they were.
  pub net_read-Delivered :
      {S : Type 0} (notify : Person Q → S → Run S (Person Q)) (fd request : ℕ) (t : Table Q)
      (p left : Person Q) (x y : S)
      → notify (record p { request_que = Q.add_last p.request_que request }) x ≡ ok left y
      → IsTable t
      → get_elem? t.persons fd ≡ some (some p)
      → Delivered notify fd request p t x (net_read (some notify) fd (some request) (t, x))
  unfolding net_read notify_if notified
  net_read-Delivered notify fd request t p left x y called sized here =
      let within : fd < length t.persons = get_elem?-within t.persons fd _ here in
      let inside : ltb fd t.alloced ≡ true = ground (arith, within, sized) in
      record {
        given = record p { request_que = Q.add_last p.request_que request };
        same_peer = (refl, refl);
        last =
            Q.to_list-add_last p.request_que request
            ∙ ap (λ x. queued x ++ request ∷ []) (sym here);
        left = left;
        state = y;
        called = called;
        table = record t { persons = set t.persons fd (some left) };
        runs = rw (inside, here, called) refl;
        sized = length-set t.persons fd _ ∙ sized;
        here = get_elem?-set_self t.persons fd _ within;
        others = λ j ne. get_elem?-set_ne t.persons fd j _ (λ e. ne (sym e));
      }
