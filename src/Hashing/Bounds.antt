-- ===== src/Hashing/Bounds.antt =====
-- The hash of `murmur` is a 64-bit number.
use Prim.Native.Nat.{bit_xor}
use ffi_rpc.Base.{ℕ, ◌*◌, ◌/◌, ◌%◌, ◌^◌, ◌<◌, List, [], ◌∷◌, take, arith}
use ffi_rpc.Hashing.{word_size, mix, mix_all, murmur}
use ffi_rpc.Hashing.Bits.{bit_xor-lt}

-- A byte keeps the hash below 2^64, since the product is taken modulo 2^64.
mix-lt : (h byte : ℕ) → mix h byte < word_size
unfolding mix
mix-lt h byte =
    let h' : ℕ = bit_xor h byte * 0x5bd1e9955bd1e995 % word_size in
    bit_xor-lt 64 h' (h' / 2 ^ 47) (omega arith) (omega arith)

mix_all-lt : (h : ℕ) (bytes : List ℕ) → h < word_size → mix_all h bytes < word_size
unfolding mix_all
mix_all-lt h [] p = p
mix_all-lt h (byte ∷ bytes) p = mix_all-lt (mix h byte) bytes (mix-lt h byte)

pub murmur-lt : (inbuf : List ℕ) (keylen : ℕ) → murmur inbuf keylen < word_size
unfolding murmur
murmur-lt inbuf keylen = mix_all-lt _ (take (keylen % 2 ^ 32) inbuf) (omega arith)
