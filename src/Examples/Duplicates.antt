-- ===== src/Examples/Duplicates.antt =====
-- A struct that holds one pointer under two keys, and one whose search moves its array.
use ffi_rpc.Base.{ℕ, zero, suc, ◌+◌, ◌≡◌, refl, none, some, List, [], ◌∷◌, ◌++◌, String, arith}
use ffi_rpc.Types.{Element, is_refcounted}
use ffi_rpc.Ext.Models.{example_libs}
use ffi_rpc.World.{RpcStruct, a_struct, write}
use ffi_rpc.World.Cmd.{fault}
use ffi_rpc.Duplicates.{visit_all, visit, visit_pointer, no_duplicates, found_duplicates}
use ffi_rpc.Duplicates.Grouped.{Grouped, found_duplicates-Grouped}
use ffi_rpc.Examples.Structs.{W, a_child}

abbrev twice : RpcStruct example_libs
twice = record {
  map = ("a", a_child 2) ∷ ("b", a_child 3) ∷ ("c", a_child 2) ∷ [];
  id = "A";
  copyof = 0;
  manual_destructor = 0;
}

abbrev memory : W
memory = record {
  ptracker = example_libs.by_ptr.init _;
  heap = write (λ p. none) 1 (some (a_struct twice));
  destroyed = [];
}

found_duplicates-Grouped_example :
    Grouped
      (λ block. block + 1)
      (example_libs.by_name.entries twice.map)
      memory
      (found_duplicates (λ block. block + 1) 1 memory)
unfolding is_refcounted
found_duplicates-Grouped_example =
    found_duplicates-Grouped (λ block. block + 1) 1 twice memory refl (omega arith)

-- Pointers `n` to 1.
abbrev children : ℕ → List (String × Element)
children zero = []
children (suc n) = ("k", a_child (suc n)) ∷ children n

-- Behind seventeen pointers the table's addresses are those of the array that `realloc` freed.
moved_faults :
    visit_all {L = example_libs}
      (λ block. block + 1)
      (children 17 ++ ("again", a_child 17) ∷ [])
      (no_duplicates (λ block. block + 1))
    ≡ fault
unfolding visit_all visit visit_pointer is_refcounted
moved_faults = refl
