-- ===== src/Examples/Framing.antt =====
-- A message of three bytes, over a list of bytes, for values that are their own text.
use ffi_rpc.Base.{
  ℕ, ◌-◌, ◌≤◌, ◌≡◌, refl, sym, List, [], ◌∷◌, ◌++◌, some, none, true, leb, if◌then◌else◌, take,
  drop, length, arith,
}
use ffi_rpc.Framing.{JsonLib, SocketLib, send_json, recv_json, values, to_bytes}
use ffi_rpc.Framing.Delivery.{recv_json-send_json, arrives_whole, behind_text}

abbrev plain_text : JsonLib
plain_text = record {
  Json = List ℕ;
  dumps = λ j. some j;
  loadb = λ text. some text;
  loadb-dumps = λ j text e. sym e;
}

-- A pipe with the bytes in it, how many it takes, and how many it gives at once.
abbrev pub Pipe : Type 0
Pipe = List ℕ × ℕ × ℕ

abbrev pub least : ℕ → ℕ → ℕ
least a b = if leb a b then a else b

pub least-le : (a b : ℕ) → least a b ≤ a
least-le a b = ground arith

pub least-le-right : (a b : ℕ) → least a b ≤ b
least-le-right a b = ground arith

abbrev pub at_once : ℕ → Pipe → ℕ
at_once n s = least n (least s.2 (length s.0))

pub at_once-le : (n : ℕ) (s : Pipe) → at_once n s ≤ length s.0
at_once-le n s =
    omega (arith, least-le-right n (least s.2 (length s.0)), least-le-right s.2 (length s.0))

abbrev pub pipe : SocketLib
pipe = record {
  Socket = Pipe;
  pending = λ s. s.0;
  taken = λ n s. least n s.1;
  arriving = at_once;
  send = λ bs s.
      (least (length bs) s.1, (s.0 ++ take (least (length bs) s.1) bs, s.1 - length bs, s.2));
  recv = λ n s. (take (at_once n s) s.0, (drop (at_once n s) s.0, s.1, s.2));
  taken-le = λ n s. least-le n s.1;
  arriving-le = λ n s. least-le n (least s.2 (length s.0));
  arriving-le-pending = at_once-le;
  send-count = λ bs s. refl;
  send-pending = λ bs s. refl;
  recv-bytes = λ n s. refl;
  recv-pending = λ n s. refl;
}

abbrev three : List ℕ
three = 1 ∷ 2 ∷ 3 ∷ []

recv_json-send_json_example :
    let whole = arrives_whole pipe three (behind_text pipe three ([], 20, 20)) in
    let r = recv_json pipe plain_text (behind_text pipe three ([], 20, 20)) in
    (send_json pipe plain_text three ([], 20, 20) ≡ (0, behind_text pipe three ([], 20, 20)))
    × (r.0 ≡ (if whole then some three else none))
    × (whole ≡ true → r.1.0 ≡ [])
unfolding values to_bytes
recv_json-send_json_example =
    recv_json-send_json pipe plain_text three three ([], 20, 20) refl (omega arith) refl
      (refl, refl)

-- A pipe that gives eight bytes at once delivers the message, and one that gives two does not.
delivered :
    (recv_json pipe plain_text (send_json pipe plain_text three ([], 20, 8)).1).0 ≡ some three
unfolding recv_json send_json to_bytes values
delivered = refl

torn : (recv_json pipe plain_text (send_json pipe plain_text three ([], 20, 2)).1).0 ≡ none
unfolding recv_json send_json to_bytes values
torn = refl
