-- ===== src/Examples/Typed.antt =====
-- C variables stored in a struct and read back.
use ffi_rpc.Base.{◌+◌, ◌≡◌, refl}
use ffi_rpc.Types.{is_pointer}
use ffi_rpc.Typed.{Variable, uint16_t, uint64_t, c_to_rpc, fill}

abbrev port : Variable
port = record { ctype = uint16_t; bits = 8080; text = "" }

-- A wide variable takes the two bytes that are there, and keeps its others.
kept_bytes :
    fill (record { ctype = uint64_t; bits = 65536; text = "" }) (c_to_rpc port)
    ≡ record { ctype = uint64_t; bits = 65536 + 8080; text = "" }
unfolding fill c_to_rpc is_pointer
kept_bytes = refl
