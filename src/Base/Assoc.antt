-- ===== src/Base/Assoc.antt =====
-- Association lists: the order in which a hash table shows its entries, and the view of them as a
-- map.
use Prim.Native.Nat.{◌+◌}
use mathlib.Core.Path.{◌≡◌, refl, subst}
use mathlib.Core.Bool.{true}
use mathlib.Core.Logic.{inl, inr}
use mathlib.Core.List.{List, [], ◌∷◌}
use mathlib.Core.Option.{Option, none, some}
use native.Mathlib.Omega.{arith}
use ffi_rpc.Base.Tests.{Key, ◌==◌, if◌then◌else◌, Bool-cases}
use ffi_rpc.Base.Lists.{length, All}

module _ {K : Type 0} ⦃e : Key K⦄ where
  pub ==-refl : (k : K) → (k == k) ≡ true
  ==-refl k = (e.same_iff k k).1 refl

module _ {K V : Type 0} ⦃e : Key K⦄ where
  abbrev pub lookup : K → List (K × V) → Option V
  lookup k [] = none
  lookup k ((j, v) ∷ es) = if j == k then some v else lookup k es

  -- Each key stands once.
  abbrev pub DistinctKeys : List (K × V) → Type 0
  DistinctKeys [] = Unit
  DistinctKeys ((k, v) ∷ es) = (lookup k es ≡ none) × DistinctKeys es

  abbrev pub erase : K → List (K × V) → List (K × V)
  erase k [] = []
  erase k ((j, v) ∷ es) = if j == k then erase k es else (j, v) ∷ erase k es

  pub lookup-erase :
      (k j : K) (es : List (K × V)) → lookup j (erase k es) ≡ (if k == j then none else lookup j es)
  lookup-erase k j [] = ground arith
  lookup-erase k j ((i, v) ∷ es) =
      ground (arith, lookup-erase k j es, e.same_iff i k, e.same_iff i j, e.same_iff k j)

  pub erase_absent : (k : K) (es : List (K × V)) → lookup k es ≡ none → erase k es ≡ es
  erase_absent k [] h = refl
  erase_absent k ((i, v) ∷ es) h = ground (arith, erase_absent k es)

  pub erase-DistinctKeys : (k : K) (es : List (K × V)) → DistinctKeys es → DistinctKeys (erase k es)
  erase-DistinctKeys k [] d = tt
  erase-DistinctKeys k ((i, v) ∷ es) d =
      ground (arith, lookup-erase k i es, erase-DistinctKeys k es)

  pub length-erase :
      (k : K) (es : List (K × V)) (v : V)
      → DistinctKeys es
      → lookup k es ≡ some v
      → length (erase k es) + 1 ≡ length es
  length-erase k [] v d h = cc
  length-erase k ((i, w) ∷ es) v d h =
      ground (arith, e.same_iff i k, erase_absent k es, length-erase k es v)

  -- A property of the entries is one of what the map holds, and back.
  pub All-of_lookup {κ} :
      (P : K × V → Type κ) (es : List (K × V))
      → DistinctKeys es
      → ((k : K) (v : V) → lookup k es ≡ some v → P (k, v))
      → All P es
  All-of_lookup P [] d f = tt
  All-of_lookup P ((i, w) ∷ es) d f = (
    f i w (rw (==-refl i) refl),
    All-of_lookup P es d.1 (λ k v h. f k v (ground (arith, e.same_iff i k))),
  )

  pub lookup-All {κ} :
      (P : K × V → Type κ) (es : List (K × V)) (k : K) (v : V)
      → lookup k es ≡ some v
      → All P es
      → P (k, v)
  lookup-All P [] k v h a = absurd (ground arith)
  lookup-All P ((i, w) ∷ es) k v h a = elim (Bool-cases (i == k)) [
    | inl hit ↦
        let same : some w ≡ some v = rw hit at h in
        subst P (ground (arith, (e.same_iff i k).0 hit)) a.0
    | inr miss ↦ lookup-All P es k v (rw miss at h) a.1
  ]
