-- ===== src/Ext/JsonModel.antt =====
-- Trees meet the interface of jansson: its laws can hold, and examples run.
use ffi_rpc.Base.{
  ℕ, zero, suc, ◌+◌, ◌≡◌, refl, Bool, true, false, Option, none, some, List, [], ◌∷◌, ◌++◌, String,
  string_eq, nat_eq, ◌==◌, if◌then◌else◌, arith,
}
use ffi_rpc.Ext.Json.{Jansson}
use ffi_rpc.Ext.JsonValues.{
  JsonValues, JsonType, json_object, json_array, json_string, json_integer, json_real,
}

mutual
  pub data Tree : Type 0 where
    object_of : Fields → Tree
    array_of : Items → Tree
    text : String → Tree
    number : ℕ → Tree
    real_number : ℕ → Tree

  -- The newest field first.
  pub data Fields : Type 0 where
    no_fields : Fields
    field : String → Tree → Fields → Fields

  pub data Items : Type 0 where
    no_items : Items
    item : Tree → Items → Items

abbrev get_field : Fields → String → Option Tree
get_field no_fields k = none
get_field (field j v fs) k = if j == k then some v else get_field fs k

abbrev add_item : Items → Tree → Items
add_item no_items v = item v no_items
add_item (item x xs) v = item x (add_item xs v)

abbrev count : Items → ℕ
count no_items = 0
count (item x xs) = suc (count xs)

abbrev get_item : Items → ℕ → Option Tree
get_item no_items i = none
get_item (item x xs) zero = some x
get_item (item x xs) (suc i) = get_item xs i

count-add_item : (xs : Items) (v : Tree) → count (add_item xs v) ≡ count xs + 1
count-add_item no_items v = refl
count-add_item (item x xs) v = omega (arith, count-add_item xs v)

get_item-add_item :
    (xs : Items) (v : Tree) (i : ℕ)
    → get_item (add_item xs v) i ≡ (if count xs == i then some v else get_item xs i)
get_item-add_item no_items v zero = refl
get_item-add_item no_items v (suc i) = ground arith
get_item-add_item (item x xs) v zero = ground arith
get_item-add_item (item x xs) v (suc i) = ground (arith, get_item-add_item xs v i)

abbrev set_in : Tree → String → Tree → Tree
set_in (object_of fs) k v = object_of (field k v fs)
set_in (array_of xs) k v = array_of xs
set_in (text s) k v = text s
set_in (number n) k v = number n
set_in (real_number n) k v = real_number n

abbrev get_in : Tree → String → Option Tree
get_in (object_of fs) k = get_field fs k
get_in (array_of xs) k = none
get_in (text s) k = none
get_in (number n) k = none
get_in (real_number n) k = none

abbrev append_to : Tree → Tree → Tree
append_to (array_of xs) v = array_of (add_item xs v)
append_to (object_of fs) v = object_of fs
append_to (text s) v = text s
append_to (number n) v = number n
append_to (real_number n) v = real_number n

abbrev text_of : Tree → Option String
text_of (text s) = some s
text_of _ = none

abbrev number_of : Tree → ℕ
number_of (number n) = n
number_of _ = 0

abbrev size_of : Tree → ℕ
size_of (array_of xs) = count xs
size_of _ = 0

abbrev item_of : Tree → ℕ → Option Tree
item_of (array_of xs) i = get_item xs i
item_of (object_of fs) i = none
item_of (text s) i = none
item_of (number n) i = none
item_of (real_number n) i = none

abbrev object? : Tree → Bool
object? (object_of fs) = true
object? _ = false

abbrev array? : Tree → Bool
array? (array_of xs) = true
array? _ = false

pub object?-set_in : (t : Tree) (k : String) (v : Tree) → object? (set_in t k v) ≡ object? t
object?-set_in (object_of fs) k v = refl
object?-set_in (array_of xs) k v = refl
object?-set_in (text s) k v = refl
object?-set_in (number n) k v = refl
object?-set_in (real_number n) k v = refl

pub get_in-set_in :
    (t : Tree) (k i : String) (v : Tree)
    → object? t ≡ true
    → get_in (set_in t k v) i ≡ (if k == i then some v else get_in t i)
get_in-set_in (object_of fs) k i v h = refl
get_in-set_in (array_of xs) k i v h = absurd (ground arith)
get_in-set_in (text s) k i v h = absurd (ground arith)
get_in-set_in (number n) k i v h = absurd (ground arith)
get_in-set_in (real_number n) k i v h = absurd (ground arith)

pub array?-append_to : (t v : Tree) → array? (append_to t v) ≡ array? t
array?-append_to (array_of xs) v = refl
array?-append_to (object_of fs) v = refl
array?-append_to (text s) v = refl
array?-append_to (number n) v = refl
array?-append_to (real_number n) v = refl

pub size_of-append_to : (t v : Tree) → array? t ≡ true → size_of (append_to t v) ≡ size_of t + 1
size_of-append_to (array_of xs) v h = count-add_item xs v
size_of-append_to (object_of fs) v h = absurd (ground arith)
size_of-append_to (text s) v h = absurd (ground arith)
size_of-append_to (number n) v h = absurd (ground arith)
size_of-append_to (real_number n) v h = absurd (ground arith)

pub item_of-append_to :
    (t v : Tree) (i : ℕ)
    → array? t ≡ true
    → item_of (append_to t v) i ≡ (if size_of t == i then some v else item_of t i)
item_of-append_to (array_of xs) v i h = get_item-add_item xs v i
item_of-append_to (object_of fs) v i h = absurd (ground arith)
item_of-append_to (text s) v i h = absurd (ground arith)
item_of-append_to (number n) v i h = absurd (ground arith)
item_of-append_to (real_number n) v i h = absurd (ground arith)

abbrev pub trees : Jansson
trees = record {
  Json = Tree;
  object = object_of no_fields;
  object_set_new = set_in;
  object_get = get_in;
  string = text;
  string_value = text_of;
  integer = number;
  integer_value = number_of;
  array = array_of no_items;
  array_append_new = append_to;
  array_size = size_of;
  array_get = item_of;
  is_object = object?;
  is_array = array?;
  is_object-object = refl;
  is_object-set = object?-set_in;
  get-object = λ k. refl;
  get-set = get_in-set_in;
  string_value-string = λ s. refl;
  integer_value-integer = λ n h. refl;
  is_array-array = refl;
  is_array-append = array?-append_to;
  size-array = refl;
  size-append = size_of-append_to;
  get-append = item_of-append_to;
}

abbrev json_type : Tree → JsonType
json_type (object_of fs) = json_object
json_type (array_of xs) = json_array
json_type (text t) = json_string
json_type (number n) = json_integer
json_type (real_number n) = json_real

abbrev fields_of : Fields → List (String × Tree)
fields_of no_fields = []
fields_of (field k v fs) = fields_of fs ++ (k, v) ∷ []

abbrev members : Tree → List (String × Tree)
members (object_of fs) = fields_of fs
members _ = []

abbrev real_value_of : Tree → ℕ
real_value_of (real_number n) = n
real_value_of _ = 0

pub members-set_in :
    (t : Tree) (k : String) (v : Tree)
    → object? t ≡ true
    → get_in t k ≡ none
    → members (set_in t k v) ≡ members t ++ (k, v) ∷ []
members-set_in (object_of fs) k v h new = refl
members-set_in (array_of xs) k v h new = absurd (ground arith)
members-set_in (text s) k v h new = absurd (ground arith)
members-set_in (number n) k v h new = absurd (ground arith)
members-set_in (real_number n) k v h new = absurd (ground arith)

-- The bits of a `float` stand for those of the `double` here.
abbrev pub tree_values : JsonValues trees
tree_values = record {
  type_of = json_type;
  entries = members;
  real = λ n. some (real_number n);
  real_value = real_value_of;
  double_of_float = λ n. n;
  type_of-string = λ s. refl;
  type_of-integer = λ n. refl;
  entries-object = refl;
  entries-set = members-set_in;
}
