-- ===== src/Framing/Delivery.antt =====
-- A message of src/rpc_network.c at both ends of a socket.
use mathlib.Core.List.{append-nil}
use ffi_rpc.Base.{
  ℕ, zero, suc, ◌/◌, ◌%◌, ◌<◌, ◌≡◌, refl, sym, ap, ◌∙◌, Bool, true, Option, none, some, List, [],
  ◌∷◌, ◌++◌, ◌&&◌, length, take, drop, length-take, take-append, take-length, arith, nat_eq, ◌==◌,
  nat_beq_iff, if◌then◌else◌, Bool-cases, inl, inr,
}
use ffi_rpc.Framing.{
  JsonLib, SocketLib, to_bytes, of_bytes, values, send_body, send_text, send_json, recv_body,
  recv_json,
}

pub length-to_bytes : (count n : ℕ) → length (to_bytes count n) ≡ count
unfolding to_bytes
length-to_bytes zero n = refl
length-to_bytes (suc count) n = ap suc (length-to_bytes count (n / 256))

of_bytes-to_bytes : (count n : ℕ) → n < values count → of_bytes (to_bytes count n) ≡ n
unfolding to_bytes of_bytes values
of_bytes-to_bytes zero n h = omega arith
of_bytes-to_bytes (suc count) n h =
    let rest : of_bytes (to_bytes count (n / 256)) ≡ n / 256 =
      of_bytes-to_bytes count (n / 256) (omega arith) in
    omega (arith, rest)

drop-append : (xs ys : List ℕ) → drop (length xs) (xs ++ ys) ≡ ys
drop-append [] ys = refl
drop-append (x ∷ xs) ys = drop-append xs ys

drop-length : (xs : List ℕ) → drop (length xs) xs ≡ []
drop-length [] = refl
drop-length (x ∷ xs) = drop-length xs

module _ (S : SocketLib) where
  -- The socket behind the header of a text, and behind the text.
  abbrev header : List ℕ → List ℕ
  header text = to_bytes 8 (length text % values 8)

  abbrev pub behind_header : List ℕ → S.Socket → S.Socket
  behind_header text s = (S.send (header text) s).1

  abbrev pub behind_text : List ℕ → S.Socket → S.Socket
  behind_text text s = (S.send text (behind_header text s)).1

  -- Both calls of `send` take all their bytes.
  abbrev pub TakesAll : List ℕ → S.Socket → Type 0
  TakesAll text s = (S.taken 8 s ≡ 8) × (S.taken (length text) (behind_header text s) ≡ length text)

  -- Whether the two calls of `recv` for such a message get as many bytes as they ask for.
  abbrev pub arrives_whole : List ℕ → S.Socket → Bool
  arrives_whole text s =
      (S.arriving 8 s == 8) && (S.arriving (length text) (S.recv 8 s).1 == length text)

  send-Sent :
      (bs : List ℕ) (s : S.Socket)
      → S.taken (length bs) s ≡ length bs
      → (((S.send bs s).0 == length bs) ≡ true) × (S.pending (S.send bs s).1 ≡ S.pending s ++ bs)
  send-Sent bs s all = (
    ground (arith, S.send-count bs s, all, nat_beq_iff (S.send bs s).0 (length bs)),
    S.send-pending bs s
        ∙ ap (λ (n : ℕ). S.pending s ++ take n bs) all
        ∙ ap (λ xs. S.pending s ++ xs) (take-length bs),
  )

  send_text-Sent :
      (text : List ℕ) (s : S.Socket)
      → S.pending s ≡ []
      → TakesAll text s
      → (send_text S text s ≡ (0, behind_text text s))
        × (S.pending (behind_text text s) ≡ header text ++ text)
  unfolding send_text send_body
  send_text-Sent text s idle (first, second) =
      let eight : length (header text) ≡ 8 = length-to_bytes 8 _ in
      let (whole, under_way) =
        send-Sent (header text) s (ap (λ (n : ℕ). S.taken n s) eight ∙ first ∙ sym eight) in
      let (all, pending) = send-Sent text (behind_header text s) second in
      let test : ((S.send (header text) s).0 == 8) ≡ true =
        ap (λ (n : ℕ). (S.send (header text) s).0 == n) (sym eight) ∙ whole in
      (
        rw (test, all) refl,
        pending ∙ ap (λ xs. xs ++ text) (under_way ∙ ap (λ xs. xs ++ header text) idle),
      )

module _ (S : SocketLib) where
  recv_length : (n : ℕ) (s : S.Socket) → length (S.recv n s).0 ≡ S.arriving n s
  recv_length n s =
      ap length (S.recv-bytes n s)
      ∙ length-take (S.arriving n s) (S.pending s) (S.arriving-le-pending n s)

  -- A whole first part of the bytes under way.
  recv_whole :
      (n : ℕ) (first rest : List ℕ) (s : S.Socket)
      → S.pending s ≡ first ++ rest
      → length first ≡ n
      → S.arriving n s ≡ n
      → ((S.recv n s).0 ≡ first) × (S.pending (S.recv n s).1 ≡ rest)
  recv_whole n first rest s under_way size whole =
      let count : S.arriving n s ≡ length first = whole ∙ sym size in
      (
        S.recv-bytes n s
            ∙ ap (λ xs. take (S.arriving n s) xs) under_way
            ∙ ap (λ (m : ℕ). take m (first ++ rest)) count
            ∙ take-append first rest,
        S.recv-pending n s
            ∙ ap (λ xs. drop (S.arriving n s) xs) under_way
            ∙ ap (λ (m : ℕ). drop m (first ++ rest)) count
            ∙ drop-append first rest,
      )

module _ (S : SocketLib) (J : JsonLib) where
  -- The outcome of receiving: the value if it arrived whole, and then no byte is left; else nothing.
  record Received (j : J.Json) (whole : Bool) (r : Option J.Json × S.Socket) : Type 0 where
    value : r.0 ≡ (if whole then some j else none)
    empty : whole ≡ true → S.pending r.1 ≡ []

  recv_body-Received :
      (j : J.Json) (text : List ℕ) (s : S.Socket)
      → J.dumps j ≡ some text
      → S.pending s ≡ text
      → Received j (S.arriving (length text) s == length text) (recv_body S J (length text) s)
  unfolding recv_body
  recv_body-Received j text s dumped p =
      elim (Bool-cases (S.arriving (length text) s == length text)) [
        | inr short ↦ record {
          value = rw (recv_length S (length text) s, short) refl;
          empty = λ whole. absurd (ground (arith, whole, short));
        }
        | inl whole ↦
            let (got, left) =
              recv_whole S (length text) text [] s (p ∙ sym (append-nil text)) refl
                ((nat_beq_iff _ _).0 whole) in
            record {
              value =
                  rw (recv_length S (length text) s, whole)
                    (ap J.loadb got ∙ J.loadb-dumps j text dumped);
              empty = λ _. left;
            }
      ]

  recv_json-Received :
      (j : J.Json) (text : List ℕ) (s : S.Socket)
      → J.dumps j ≡ some text
      → length text < values 8
      → S.pending s ≡ to_bytes 8 (length text % values 8) ++ text
      → Received j (arrives_whole S text s) (recv_json S J s)
  unfolding recv_json values
  recv_json-Received j text s dumped small p = elim (Bool-cases (S.arriving 8 s == 8)) [
    | inr short ↦ record {
      value = rw (recv_length S 8 s, short) refl;
      empty = λ whole. absurd (ground (arith, whole, short));
    }
    | inl whole ↦
        let same : length text % values 8 ≡ length text = omega arith in
        let size : of_bytes (to_bytes 8 (length text % values 8)) ≡ length text =
          ap (λ (n : ℕ). of_bytes (to_bytes 8 n)) same ∙ of_bytes-to_bytes 8 (length text) small in
        let (got, left) =
          recv_whole S 8 (to_bytes 8 (length text % values 8)) text s p (length-to_bytes 8 _)
            ((nat_beq_iff _ _).0 whole) in
        let r = recv_body-Received j text (S.recv 8 s).1 dumped left in
        record {
          value = rw (recv_length S 8 s, whole, got, size) r.value;
          empty = rw (recv_length S 8 s, whole, got, size) r.empty;
        }
  ]

  -- On a socket without bytes under way, if both calls of send take all their bytes, sending a
  -- value whose text is shorter than 2^64 bytes succeeds. Receiving then yields just that value
  -- and leaves no byte under way if each of the two calls of recv gets all the bytes that it asks
  -- for; if one of them gets fewer, as recv may, the result is NULL.
  pub recv_json-send_json :
      (j : J.Json) (text : List ℕ) (s : S.Socket)
      → J.dumps j ≡ some text
      → length text < values 8
      → S.pending s ≡ []
      → TakesAll S text s
      → let whole = arrives_whole S text (behind_text S text s) in
        let r = recv_json S J (behind_text S text s) in
        (send_json S J j s ≡ (0, behind_text S text s))
        × (r.0 ≡ (if whole then some j else none))
        × (whole ≡ true → S.pending r.1 ≡ [])
  unfolding send_json
  recv_json-send_json j text s dumped small idle takes =
      let (sends, under_way) = send_text-Sent S text s idle takes in
      let r = recv_json-Received j text (behind_text S text s) dumped small under_way in
      (rw (dumped, send_json) sends, r.value, r.empty)
