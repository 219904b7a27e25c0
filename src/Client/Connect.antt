-- ===== src/Client/Connect.antt =====
-- `rpc_client_connect_tcp` of src/rpc_client.c: the addresses of a host are tried in turn. What
-- `getaddrinfo`, `socket` and `connect` give is an argument.
use ffi_rpc.Base.{ℕ, zero, suc, Bool, Option, none, some, List, [], ◌∷◌, String, if◌then◌else◌}
use Prim.Native.Char.{code}
use ffi_rpc.Base.{nat_eq, ◌==◌}

-- An address: what `socket` returns for it, `none` for -1, and whether `connect` succeeds.
pub record Address : Type 0 where
  pub sockfd : Option ℕ
  pub connects : Bool

-- The outcome: the result, the connected descriptor, and the descriptors that were closed.
pub record Connecting : Type 0 where
  pub ret : ℕ
  pub fd : Option ℕ
  pub closed : List ℕ

abbrev pub not_connected : Connecting
not_connected = record { ret = 1; fd = none; closed = [] }

-- The loop over the addresses. Descriptor 0 is neither used nor closed.
unfoldable pub try_all : List Address → Connecting
try_all [] = not_connected
try_all (a ∷ rest) =
    let later = try_all rest in
    elim a.sockfd [
      | none ↦ later
      | some zero ↦ later
      | some (suc n) ↦
          if a.connects
          then record { ret = 0; fd = some (suc n); closed = [] }
          else record later { closed = suc n ∷ later.closed }
    ]

-- The characters before the first ':' and those behind it, as `strchr` finds it.
unfoldable pub split_port : String → Option (String × String)
split_port String.[] = none
split_port (String.◌∷◌ c rest) =
    let later = split_port rest in
    if code c == 58
    then some (String.[], rest)
    else elim later [ none ↦ none | some parts ↦ some (String.◌∷◌ c parts.0, parts.1) ]

-- `rpc_client_connect_tcp` for a host other than NULL. `getaddrinfo` gives `none` for a failure.
unfoldable pub connect_tcp :
    (getaddrinfo : String → String → Option (List Address)) → (host : String) → Connecting
unfolding split_port try_all
connect_tcp getaddrinfo host = elim (split_port host) [
  | none ↦ not_connected
  | some parts ↦ elim (getaddrinfo parts.0 parts.1) [
    | none ↦ not_connected
    | some info ↦ try_all info
  ]
]
