-- ===== src/Framing.antt =====
-- Messages on a socket: `rpc_net_send_json` and `rpc_net_recv_json` of src/rpc_network.c, with jansson
-- and the socket as parameters. A length is eight bytes, the least significant first.
pub mod Delivery
use ffi_rpc.Base.{
  ℕ, zero, suc, ◌+◌, ◌*◌, ◌/◌, ◌%◌, ◌≡◌, ◌≤◌, Option, none, some, List, [], ◌∷◌, ◌++◌,
  if◌then◌else◌, length, take, drop, nat_eq, ◌==◌,
}

-- jansson: `json_dumps` and `json_loadb`, which reads back what was dumped.
pub record JsonLib : Type 1 where
  pub Json : Type 0
  pub dumps : Json → Option (List ℕ)
  pub loadb : List ℕ → Option Json
  pub loadb-dumps : (j : Json) (text : List ℕ) → dumps j ≡ some text → loadb text ≡ some j

-- A connected stream socket: the bytes that were sent and not received. A call of `send` takes as many
-- of the bytes as `taken` says, and gives their number; a call of `recv` gives as many of the first
-- bytes under way as `arriving` says. Either may be fewer than were asked for, 0 for a failure.
pub record SocketLib : Type 1 where
  pub Socket : Type 0
  pub pending : Socket → List ℕ
  pub taken : ℕ → Socket → ℕ
  pub arriving : ℕ → Socket → ℕ
  pub send : List ℕ → Socket → ℕ × Socket
  pub recv : ℕ → Socket → List ℕ × Socket
  pub taken-le : (n : ℕ) (s : Socket) → taken n s ≤ n
  pub arriving-le : (n : ℕ) (s : Socket) → arriving n s ≤ n
  pub arriving-le-pending : (n : ℕ) (s : Socket) → arriving n s ≤ length (pending s)
  pub send-count : (bs : List ℕ) (s : Socket) → (send bs s).0 ≡ taken (length bs) s
  pub send-pending :
      (bs : List ℕ) (s : Socket)
      → pending (send bs s).1 ≡ pending s ++ take (taken (length bs) s) bs
  pub recv-bytes : (n : ℕ) (s : Socket) → (recv n s).0 ≡ take (arriving n s) (pending s)
  pub recv-pending : (n : ℕ) (s : Socket) → pending (recv n s).1 ≡ drop (arriving n s) (pending s)

-- A `uint64_t` in memory.
unfoldable pub to_bytes : (count : ℕ) → ℕ → List ℕ
to_bytes zero n = []
to_bytes (suc count) n = n % 256 ∷ to_bytes count (n / 256)

unfoldable pub of_bytes : List ℕ → ℕ
of_bytes [] = 0
of_bytes (b ∷ bs) = b + 256 * of_bytes bs

-- The number of values of so many bytes.
unfoldable pub values : (count : ℕ) → ℕ
values zero = 1
values (suc count) = 256 * values count

module _ (S : SocketLib) where
  -- The second `send` of `rpc_net_send_json`: 0 if the whole text was taken.
  unfoldable pub send_body : List ℕ → S.Socket → ℕ × S.Socket
  send_body text s = let r = S.send text s in (if r.0 == length text then 0 else 1, r.1)

  -- `rpc_net_send_json` behind `json_dumps`.
  unfoldable pub send_text : List ℕ → S.Socket → ℕ × S.Socket
  unfolding send_body
  send_text text s =
      let r = S.send (to_bytes 8 (length text % values 8)) s in
      if r.0 == 8 then send_body text r.1 else (1, r.1)

module _ (S : SocketLib) (J : JsonLib) where
  -- `rpc_net_send_json`
  unfoldable pub send_json : J.Json → S.Socket → ℕ × S.Socket
  unfolding send_text
  send_json j s = elim (J.dumps j) [ none ↦ (1, s) | some text ↦ send_text S text s ]

  -- The second `recv` of `rpc_net_recv_json`, and `json_loadb`.
  unfoldable pub recv_body : ℕ → S.Socket → Option J.Json × S.Socket
  recv_body size s =
      let r = S.recv size s in (if length r.0 == size then J.loadb r.0 else none, r.1)

  -- `rpc_net_recv_json`
  unfoldable pub recv_json : S.Socket → Option J.Json × S.Socket
  unfolding of_bytes recv_body
  recv_json s =
      let r = S.recv 8 s in if length r.0 == 8 then recv_body (of_bytes r.0) r.1 else (none, r.1)
