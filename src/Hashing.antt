-- ===== src/Hashing.antt =====
-- The hashes of src/rpc_struct.c and src/rpc_sizedbuf.c: `murmur`, `rpc_sizedbuf_hash` and
-- `rpc_struct_hash`. What the model does not hold is an argument: the bytes of a text with its NUL,
-- and the bytes that can be read at an address, `none` where the memory cannot be read.
pub mod Bits
pub mod Bounds
pub mod Ranked
use Prim.Native.Nat.{bit_xor}
use ffi_rpc.Base.{
  ℕ, zero, suc, ◌+◌, ◌*◌, ◌/◌, ◌%◌, ◌^◌, Option, none, some, List, [], ◌∷◌, String, take, length,
  ltb, if◌then◌else◌,
}
use ffi_rpc.Types.{
  RpcType, Element, rpc_none, rpc_number, rpc_real, rpc_string, rpc_struct, rpc_sizedbuf,
  rpc_function, rpc_unknown,
}
use ffi_rpc.Ext.Libs.{Libs}
use ffi_rpc.World.{World, SizedBuf, a_sizedbuf}
use ffi_rpc.World.Cmd.{ok, fault, out_of_fuel, pure, ◌>>=◌}
use ffi_rpc.Struct.{Cmd, load}
use ffi_rpc.Framing.{to_bytes}

abbrev pub word_size : ℕ
word_size = 2 ^ 64

-- The body of the loop of `murmur`. `h >> 47` is a quotient.
unfoldable pub mix : ℕ → ℕ → ℕ
mix h byte = let h' = bit_xor h byte * 0x5bd1e9955bd1e995 % word_size in bit_xor h' (h' / 2 ^ 47)

-- The loop of `murmur`.
unfoldable pub mix_all : ℕ → List ℕ → ℕ
unfolding mix
mix_all h [] = h
mix_all h (byte ∷ bytes) = mix_all (mix h byte) bytes

-- `murmur` of a buffer. Its length is a `uint32_t`.
unfoldable pub murmur : List ℕ → (keylen : ℕ) → ℕ
unfolding mix_all
murmur inbuf keylen = mix_all 525201411107845655 (take (keylen % 2 ^ 32) inbuf)

-- `rpc_sizedbuf_hash`. The results of its two calls of `murmur` are dropped.
unfoldable pub sizedbuf_hash : SizedBuf → ℕ
sizedbuf_hash b = b.length % word_size

module _ {L : Libs} where
  unfoldable pub hash_buffer : ℕ → Cmd L ℕ
  unfolding sizedbuf_hash
  hash_buffer p w = elim (w.heap p) [ some (a_sizedbuf b) ↦ ok (sizedbuf_hash b) w | _ ↦ fault ]

  -- `murmur` of `keylen` of the bytes at an address, which are read out of bounds if there are fewer.
  unfoldable pub murmur_of : Option (List ℕ) → (keylen : ℕ) → Cmd L ℕ
  unfolding murmur
  murmur_of none keylen w = fault
  murmur_of (some bytes) keylen w =
      if ltb (length bytes) (keylen % 2 ^ 32) then fault else ok (murmur bytes keylen) w

  module _ (text_bytes : String → List ℕ) (bytes_at : World L → ℕ → Option (List ℕ)) where
    -- The number that the loop of `rpc_struct_hash` adds for an element; `nested` is the recursive
    -- call.
    unfoldable pub hash_element : (nested : ℕ → Cmd L ℕ) → RpcType → Element → Cmd L ℕ
    unfolding hash_buffer murmur_of to_bytes
    hash_element nested rpc_struct e w = nested e.word w
    hash_element nested rpc_sizedbuf e w = hash_buffer e.word w
    hash_element nested rpc_string e w = murmur_of (some (text_bytes e.text)) e.length w
    hash_element nested rpc_function e w = murmur_of (bytes_at w e.word) 8 w
    hash_element nested rpc_unknown e w = murmur_of (bytes_at w e.word) 8 w
    hash_element nested rpc_none e w = murmur_of (some (to_bytes 8 e.word)) e.length w
    hash_element nested rpc_number e w = murmur_of (some (to_bytes 8 e.word)) e.length w
    hash_element nested rpc_real e w = murmur_of (some (to_bytes 8 e.word)) e.length w

    -- The loop of `rpc_struct_hash`.
    unfoldable pub hash_elements : (nested : ℕ → Cmd L ℕ) → ℕ → List (String × Element) → Cmd L ℕ
    unfolding hash_element
    hash_elements nested hash [] = pure hash
    hash_elements nested hash ((key, e) ∷ es) = do
      h ← hash_element nested e.type e
      hash_elements nested (murmur (to_bytes 8 ((hash + h) % word_size)) 8) es

    -- `rpc_struct_hash`. A struct that holds itself is hashed for ever, so the depth is fuel.
    unfoldable pub struct_hash : (depth : ℕ) → ℕ → Cmd L ℕ
    unfolding hash_elements load
    struct_hash zero s = λ w. out_of_fuel
    struct_hash (suc depth) s = do
      o ← load s
      hash_elements (struct_hash depth) 0 (L.by_name.entries o.map)
