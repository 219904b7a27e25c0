-- ===== src/Ext/Models.antt =====
-- Association lists and plain lists meet the interfaces: the laws can hold, and examples run.
use ffi_rpc.Base.{
  nat_eq, string_eq, ◌+◌, ◌≡◌, refl, Bool, true, false, Option, none, some, List, [], ◌∷◌, ◌++◌,
  Key, ◌==◌, if◌then◌else◌, is_some, Option-cases, inl, inr, ◌∙◌, length, lookup, DistinctKeys,
  erase, lookup-erase, erase_absent, erase-DistinctKeys, length-erase, arith, ap,
}
use ffi_rpc.Ext.Hash.{HashMap}
use ffi_rpc.Ext.Queue.{QueueLib}
use ffi_rpc.Ext.Libs.{Libs}

module _ {K V : Type 0} ⦃e : Key K⦄ where
  -- Only the newest entry of a key counts.
  abbrev visible : List (K × V) → List (K × V)
  visible [] = []
  visible ((k, v) ∷ es) = (k, v) ∷ erase k (visible es)

  pub lookup-visible : (es : List (K × V)) (k : K) → lookup k (visible es) ≡ lookup k es
  lookup-visible [] k = refl
  lookup-visible ((j, v) ∷ es) k =
      ground (arith, lookup-erase j k (visible es), lookup-visible es k)

  pub visible-DistinctKeys : (es : List (K × V)) → DistinctKeys (visible es)
  visible-DistinctKeys [] = tt
  visible-DistinctKeys ((j, v) ∷ es) = (
    ground (arith, lookup-erase j j (visible es), e.same_iff j j),
    erase-DistinctKeys j (visible es) (visible-DistinctKeys es),
  )

  erase-erase : (k j : K) (es : List (K × V)) → erase k (erase j es) ≡ erase j (erase k es)
  erase-erase k j [] = refl
  erase-erase k j ((i, v) ∷ es) = ground (arith, erase-erase k j es)

  erase-erase_self : (k : K) (es : List (K × V)) → erase k (erase k es) ≡ erase k es
  erase-erase_self k [] = refl
  erase-erase_self k ((i, v) ∷ es) = ground (arith, erase-erase_self k es)

  visible-erase : (k : K) (es : List (K × V)) → visible (erase k es) ≡ erase k (visible es)
  visible-erase k [] = refl
  visible-erase k ((j, v) ∷ es) = ground (
    arith,
    e.same_iff j k,
    visible-erase k es,
    erase-erase k j (visible es),
    erase-erase_self k (visible es),
  )

  abbrev put : List (K × V) → K → V → List (K × V) × Bool
  put es k v = if is_some (lookup k es) then (es, false) else ((k, v) ∷ es, true)

  pub put_new : (es : List (K × V)) (k : K) (v : V) → lookup k es ≡ none → (put es k v).1 ≡ true
  put_new es k v h = rw h refl

  pub lookup-put :
      (es : List (K × V)) (k j : K) (v : V)
      → lookup k es ≡ none
      → lookup j (put es k v).0 ≡ (if k == j then some v else lookup j es)
  lookup-put es k j v h = rw h refl

  pub length-put :
      (es : List (K × V)) (k : K) (v : V)
      → lookup k es ≡ none
      → length (visible (put es k v).0) ≡ length (visible es) + 1
  length-put es k v h = rw h (ground (arith, erase_absent k (visible es), lookup-visible es k))

  abbrev store : List (K × V) → K → V → List (K × V)
  store es k v = if is_some (lookup k es) then (k, v) ∷ erase k es else es

  pub lookup-store :
      (es : List (K × V)) (k j : K) (u v : V)
      → lookup k es ≡ some u
      → lookup j (store es k v) ≡ (if k == j then some v else lookup j es)
  lookup-store es k j u v h = rw h (ground (arith, lookup-erase k j es))

  pub length-visible-erase :
      (es : List (K × V)) (k : K) (v : V)
      → lookup k es ≡ some v
      → length (visible (erase k es)) + 1 ≡ length (visible es)
  length-visible-erase es k v h =
      rw (visible-erase k es)
        (length-erase k (visible es) v (visible-DistinctKeys es) (lookup-visible es k ∙ h))

  pub length-store :
      (es : List (K × V)) (k : K) (v : V) → length (visible (store es k v)) ≡ length (visible es)
  length-store es k v = elim (Option-cases (lookup k es)) [
    | inl h ↦ rw h refl
    | inr (u, h) ↦ rw h (
        omega (
          arith,
          length-visible-erase es k u h,
          ap length (visible-erase k es),
          ap length (erase-erase_self k (visible es)),
          ap length (ap (erase k) (visible-erase k es)),
        ))
  ]

-- A hash table as an association list.
abbrev pub assoc_map : {K : Type 0} ⦃e : Key K⦄ → HashMap K
assoc_map {K} = record {
  Map = λ V. List (K × V);
  init = λ V. [];
  get = λ m k. lookup k m;
  put = put;
  store = store;
  remove = λ m k. erase k m;
  size = λ m. length (visible m);
  entries = visible;
  get-init = λ V k. refl;
  size-init = λ V. refl;
  put_new = put_new;
  get-put = lookup-put;
  size-put = length-put;
  get-store = lookup-store;
  size-store = length-store;
  get-remove = λ m k j. lookup-erase k j m;
  size-remove = length-visible-erase;
  lookup-entries = lookup-visible;
  entries-DistinctKeys = visible-DistinctKeys;
  length-entries = λ m. refl;
}

module _ {A : Type 0} where
  abbrev del_first : List A → Option (A × List A)
  del_first [] = none
  del_first (x ∷ xs) = some (x, xs)

  abbrev peek_first : List A → Option A
  peek_first [] = none
  peek_first (x ∷ xs) = some x

  pub del_first-empty : (q : List A) → q ≡ [] → del_first q ≡ none
  del_first-empty q h = rw h refl

  pub del_first-cons :
      (q : List A) (a : A) (xs : List A)
      → q ≡ a ∷ xs
      → (r : List A) × (del_first q ≡ some (a, r)) × (r ≡ xs)
  del_first-cons q a xs h = (xs, rw h refl, refl)

  pub peek_first-cons : (q : List A) (a : A) (xs : List A) → q ≡ a ∷ xs → peek_first q ≡ some a
  peek_first-cons q a xs h = rw h refl

-- A queue as the list of its elements, oldest first.
abbrev pub list_queue : QueueLib
list_queue = record {
  Queue = λ A. List A;
  init = λ A. [];
  add_last = λ q a. q ++ a ∷ [];
  del_first = del_first;
  peek_first = peek_first;
  size = length;
  to_list = λ q. q;
  to_list-init = λ A. refl;
  to_list-add_last = λ q a. refl;
  size-length = λ q. refl;
  del_first-empty = del_first-empty;
  del_first-cons = del_first-cons;
  peek_first-cons = peek_first-cons;
}

-- The libraries of the examples.
abbrev pub example_libs : Libs
example_libs = record { by_ptr = assoc_map; by_name = assoc_map; queues = list_queue }
