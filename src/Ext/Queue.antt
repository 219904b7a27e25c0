-- ===== src/Ext/Queue.antt =====
-- The interface of the queue (include/ffirpc/sc_queue.h).
use ffi_rpc.Base.{ℕ, ◌≡◌, Option, none, some, List, [], ◌∷◌, ◌++◌, length}

-- `del_first` on an empty queue is undefined in the source, and `none` here.
pub record QueueLib : Type 1 where
  pub Queue : Type 0 → Type 0
  pub init : (A : Type 0) → Queue A
  pub add_last : {A : Type 0} → Queue A → A → Queue A
  pub del_first : {A : Type 0} → Queue A → Option (A × Queue A)
  pub peek_first : {A : Type 0} → Queue A → Option A
  pub size : {A : Type 0} → Queue A → ℕ
  pub to_list : {A : Type 0} → Queue A → List A
  pub to_list-init : (A : Type 0) → to_list (init A) ≡ []
  pub to_list-add_last :
      {A : Type 0} (q : Queue A) (a : A) → to_list (add_last q a) ≡ to_list q ++ a ∷ []
  pub size-length : {A : Type 0} (q : Queue A) → size q ≡ length (to_list q)
  pub del_first-empty : {A : Type 0} (q : Queue A) → to_list q ≡ [] → del_first q ≡ none
  pub del_first-cons :
      {A : Type 0} (q : Queue A) (a : A) (xs : List A)
      → to_list q ≡ a ∷ xs
      → (r : Queue A) × (del_first q ≡ some (a, r)) × (to_list r ≡ xs)
  pub peek_first-cons :
      {A : Type 0} (q : Queue A) (a : A) (xs : List A) → to_list q ≡ a ∷ xs → peek_first q ≡ some a
