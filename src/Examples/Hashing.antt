-- ===== src/Examples/Hashing.antt =====
-- Hashes of the structs of the examples.
use ffi_rpc.Base.{
  ℕ, zero, suc, none, Option, ◌<◌, ◌≡◌, refl, arith, String, List, [], ◌∷◌, some, inl, inr,
  Bool-cases, nat_eq, string_eq, ◌==◌, subst,
}
use ffi_rpc.Types.{Element}
use ffi_rpc.Hashing.{struct_hash, murmur, word_size}
use ffi_rpc.Hashing.Bounds.{murmur-lt}
use ffi_rpc.Hashing.Ranked.{IsRanked, IsRankedAt, IsHashed, struct_hash-IsHashed}
use ffi_rpc.Examples.Structs.{W, w3, a_child}

abbrev no_text : String → List ℕ
no_text t = []

abbrev no_bytes : W → ℕ → Option (List ℕ)
no_bytes w p = none

-- The child at 2 is below its parent at 1.
abbrev rank : ℕ → ℕ
rank (suc zero) = 1
rank _ = 0

IsRanked-3 : IsRanked no_text no_bytes w3 rank
unfolding w3
IsRanked-3 zero k e at = absurd (ground arith)
IsRanked-3 (suc zero) k e at = elim (Bool-cases ("child" == k)) [
  | inl child ↦
      let same : some (a_child 2) ≡ some e = rw child at at in
      let is_child : a_child 2 ≡ e = ground (arith, same) in
      subst (λ (e : Element). IsRankedAt no_text no_bytes w3 rank 1 e.type e) is_child
        (refl, omega arith)
  | inr other ↦ let empty : none ≡ some e = rw other at at in absurd (ground (arith, empty))
]
IsRanked-3 (suc (suc zero)) k e at = absurd (ground arith)
IsRanked-3 (suc (suc (suc s))) k e at = absurd (ground arith)

struct_hash-IsHashed_example : IsHashed (struct_hash no_text no_bytes 2 1 w3) w3
unfolding w3
struct_hash-IsHashed_example =
    struct_hash-IsHashed no_text no_bytes rank w3 2 1 IsRanked-3 refl (omega arith)

murmur-lt_example : murmur (1 ∷ 2 ∷ 255 ∷ []) 3 < word_size
murmur-lt_example = murmur-lt (1 ∷ 2 ∷ 255 ∷ []) 3
