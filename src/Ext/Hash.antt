-- ===== src/Ext/Hash.antt =====
-- The interface of the hash table (include/ffirpc/hashmap/hashmap.h), for one type of keys.
use ffi_rpc.Base.{
  ℕ, ◌+◌, ◌≡◌, Bool, true, Option, none, some, List, Key, ◌==◌, if◌then◌else◌, length, lookup,
  DistinctKeys,
}

-- `put` is `hashmap_put`, whose result 0 is `true` here. `store` is a write through the data
-- pointer that the table holds for a key. `entries` is what `hashmap_foreach` visits, in order.
pub record HashMap (K : Type 0) ⦃e : Key K⦄ : Type 1 where
  pub Map : Type 0 → Type 0
  pub init : (V : Type 0) → Map V
  pub get : {V : Type 0} → Map V → K → Option V
  pub put : {V : Type 0} → Map V → K → V → Map V × Bool
  pub store : {V : Type 0} → Map V → K → V → Map V
  pub remove : {V : Type 0} → Map V → K → Map V
  pub size : {V : Type 0} → Map V → ℕ
  pub entries : {V : Type 0} → Map V → List (K × V)
  pub get-init : (V : Type 0) (k : K) → get (init V) k ≡ none
  pub size-init : (V : Type 0) → size (init V) ≡ 0
  pub put_new : {V : Type 0} (m : Map V) (k : K) (v : V) → get m k ≡ none → (put m k v).1 ≡ true
  pub get-put :
      {V : Type 0} (m : Map V) (k j : K) (v : V)
      → get m k ≡ none
      → get (put m k v).0 j ≡ (if k == j then some v else get m j)
  pub size-put :
      {V : Type 0} (m : Map V) (k : K) (v : V) → get m k ≡ none → size (put m k v).0 ≡ size m + 1
  pub get-store :
      {V : Type 0} (m : Map V) (k j : K) (u v : V)
      → get m k ≡ some u
      → get (store m k v) j ≡ (if k == j then some v else get m j)
  pub size-store : {V : Type 0} (m : Map V) (k : K) (v : V) → size (store m k v) ≡ size m
  pub get-remove :
      {V : Type 0} (m : Map V) (k j : K) → get (remove m k) j ≡ (if k == j then none else get m j)
  pub size-remove :
      {V : Type 0} (m : Map V) (k : K) (v : V) → get m k ≡ some v → size (remove m k) + 1 ≡ size m
  pub lookup-entries : {V : Type 0} (m : Map V) (k : K) → lookup k (entries m) ≡ get m k
  pub entries-DistinctKeys : {V : Type 0} (m : Map V) → DistinctKeys (entries m)
  pub length-entries : {V : Type 0} (m : Map V) → length (entries m) ≡ size m
