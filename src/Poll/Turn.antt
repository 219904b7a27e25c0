-- ===== src/Poll/Turn.antt =====
-- One turn of `poll_thread` of src/poll_network.c, against a filter on the descriptors.
use ffi_rpc.Base.{
  ℕ, zero, suc, ◌+◌, ◌-◌, ◌≤◌, ◌≡◌, refl, sym, ap, subst, ◌∙◌, true, some, List, [], ◌∷◌, ◌++◌, ltb,
  Bool-cases, inl, inr, length, length-append, get_elem?, drop, take-drop, length-take, take-append,
  snoc-append, arith,
}
use ffi_rpc.Poll.{
  Net, PollFd, Action, is_gone, read_calls, drop_calls, drop_entry, shift_down, scan, turn, in_use,
  living, calls_for,
}

get_elem?-middle :
    (front : List PollFd) (x : PollFd) (rest : List PollFd)
    → get_elem? (front ++ x ∷ rest) (length front) ≡ some x
get_elem?-middle [] x rest = refl
get_elem?-middle (y ∷ front) x rest = get_elem?-middle front x rest

shift_down-append :
    (front xs : List PollFd) (count : ℕ)
    → shift_down (length front) count (front ++ xs) ≡ front ++ shift_down 0 count xs
unfolding shift_down
shift_down-append [] xs count = refl
shift_down-append (y ∷ front) xs count = ap (◌∷◌ y) (shift_down-append front xs count)

abbrev last : PollFd → List PollFd → PollFd
last x [] = x
last x (y ∷ ys) = last y ys

-- A shift over the entries in use leaves a copy of the last one behind them.
shift_down-rest :
    (x : PollFd) (xs spare : List PollFd)
    → shift_down 0 (length xs) (x ∷ xs ++ spare) ≡ xs ++ last x xs ∷ spare
unfolding shift_down
shift_down-rest x [] spare = refl
shift_down-rest x (y ∷ ys) spare = ap (◌∷◌ y) (shift_down-rest y ys spare)

-- The outcome of the loop from behind `front` on, with `rest` still to come.
record Scanned (front rest : List PollFd) (net : Net) (r : Net × List Action) : Type 0 where
  spare : List PollFd
  fds : r.0.fds ≡ front ++ (living rest ++ spare)
  nfds : r.0.nfds ≡ length front + length (living rest)
  calls : r.1 ≡ calls_for net.callbacks rest
  size : length r.0.fds ≡ length net.fds

length-shift_down : (i count : ℕ) (xs : List PollFd) → length (shift_down i count xs) ≡ length xs
unfolding shift_down
length-shift_down zero count [] = refl
length-shift_down (suc i) count [] = refl
length-shift_down (suc i) count (x ∷ xs) = ap suc (length-shift_down i count xs)
length-shift_down zero zero (x ∷ xs) = refl
length-shift_down zero (suc count) (x ∷ []) = refl
length-shift_down zero (suc count) (x ∷ y ∷ ys) = ap suc (length-shift_down zero count (y ∷ ys))

-- The array once the entry behind `front` is dropped.
shifted_fds :
    (e : PollFd) (es front spare : List PollFd) (net : Net)
    → net.fds ≡ front ++ ((e ∷ es) ++ spare)
    → net.nfds ≡ length front + length (e ∷ es)
    → (drop_entry (length front) net).fds ≡ front ++ (es ++ last e es ∷ spare)
unfolding drop_entry
shifted_fds e es front spare net fds nfds =
    let left : net.nfds - (length front + 1) ≡ length es = omega (arith, nfds) in
    rw (left, fds)
      (shift_down-append front (e ∷ es ++ spare) (length es)
        ∙ ap (λ xs. front ++ xs) (shift_down-rest e es spare))

scan-Scanned :
    (rest front spare : List PollFd) (net : Net)
    → net.fds ≡ front ++ (rest ++ spare)
    → net.nfds ≡ length front + length rest
    → Scanned front rest net (scan (length rest) (length front) net)
unfolding scan living calls_for
scan-Scanned [] front spare net fds nfds = record {
  spare = spare;
  fds = fds;
  nfds = nfds;
  calls = refl;
  size = refl;
}
scan-Scanned (e ∷ es) front spare net fds nfds =
    let inside : ltb (length front) net.nfds ≡ true = ground (arith, nfds) in
    let here : get_elem? net.fds (length front) ≡ some e =
      rw fds (get_elem?-middle front e (es ++ spare)) in
    elim (Bool-cases (is_gone e)) [
      | inl gone ↦
          let shifted : (drop_entry (length front) net).fds ≡ front ++ (es ++ last e es ∷ spare) =
            shifted_fds e es front spare net fds nfds in
          let r =
            scan-Scanned es front (last e es ∷ spare) (drop_entry (length front) net) shifted
              (omega (arith, nfds)) in
          rw (inside, here, gone, scan)
            (record {
              spare = r.spare;
              fds = rw gone r.fds;
              nfds = rw gone r.nfds;
              calls = rw gone (
                  ap (λ cs. read_calls net.callbacks e ++ (drop_calls net.callbacks e.fd ++ cs))
                    r.calls);
              size = r.size ∙ length-shift_down (length front) _ net.fds;
            })
      | inr stays ↦
          let r =
            scan-Scanned es (front ++ e ∷ []) spare net
              (fds ∙ sym (snoc-append front e (es ++ spare)))
              (omega (arith, nfds, length-append front (e ∷ []))) in
          let one_more : length (front ++ e ∷ []) ≡ length front + 1 =
            length-append front (e ∷ []) in
          let next : scan (length es) (length (front ++ e ∷ [])) net
              ≡ scan (length es) (length front + 1) net =
            ap (λ (i : ℕ). scan (length es) i net) one_more in
          rw (inside, here, stays, scan)
            (record {
              spare = r.spare;
              fds = rw stays (
                  ap (λ x. x.0.fds) (sym next)
                  ∙ r.fds
                  ∙ snoc-append front e (living es ++ r.spare));
              nfds = rw stays (ap (λ x. x.0.nfds) (sym next) ∙ omega (arith, r.nfds, one_more));
              calls = rw stays (
                  ap (λ cs. read_calls net.callbacks e ++ cs) (ap (λ x. x.1) (sym next) ∙ r.calls));
              size = ap (λ x. length x.0.fds) (sym next) ∙ r.size;
            })
    ]

living-length : (es : List PollFd) → length (living es) ≤ length es
unfolding living
living-length [] = omega arith
living-length (e ∷ es) = ground (arith, living-length es)

-- The outcome of a turn.
pub record Turned (net : Net) (r : Net × List Action) : Type 0 where
  pub kept : in_use r.0 ≡ living (in_use net)
  pub calls : r.1 ≡ calls_for net.callbacks (in_use net)
  pub size : length r.0.fds ≡ length net.fds
  pub used : r.0.nfds ≤ net.nfds

-- On an array with room for the descriptors in use, a turn of poll_thread in which poll reports
-- at least one of them keeps, in their order, just those that did not hang up, fail, turn invalid
-- or lose their peer, and calls for each in turn what it should: the reader if it is readable,
-- then, if it is gone, the disconnect callback and the closing. The array keeps its size, and no
-- more of it is in use.
pub turn-Turned :
    (count : ℕ) (net : Net) → net.nfds ≤ length net.fds → Turned net (turn (suc count) net)
unfolding turn
turn-Turned count net fits =
    let r =
      scan-Scanned (in_use net) [] (drop net.nfds net.fds) net (sym (take-drop net.nfds net.fds))
        (omega (arith, length-take net.nfds net.fds fits)) in
    let count : (scan (length (in_use net)) 0 net).0.nfds ≡ length (living (in_use net)) =
      omega (arith, r.nfds) in
    let same : length (in_use net) ≡ net.nfds = length-take net.nfds net.fds fits in
    subst (λ (n : ℕ). Turned net (scan n 0 net)) same
      (record {
        kept = rw (count, r.fds) (take-append (living (in_use net)) r.spare);
        calls = r.calls;
        size = r.size;
        used = omega (arith, count, living-length (in_use net), same);
      })
