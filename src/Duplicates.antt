-- ===== src/Duplicates.antt =====
-- `rpc_struct_found_duplicates` of src/rpc_struct.c. The table `ptr_map` holds addresses in the array
-- `duplicates`: here a block and an index. `next_block` is where `realloc` puts the array, the same
-- block or another one; an address in an old block is freed memory.
pub mod Groups
pub mod Grouped
use ffi_rpc.Base.{
  ℕ, zero, suc, ◌*◌, Option, none, some, List, [], ◌∷◌, ◌++◌, String, nat_eq, string_eq, ◌==◌,
  if◌then◌else◌, length,
}
use ffi_rpc.Types.{RpcType, Element, is_refcounted}
use ffi_rpc.Ext.Libs.{Libs}
use ffi_rpc.World.{World}
use ffi_rpc.World.Cmd.{Run, ok, fault, out_of_fuel, pure, ◌>>=◌, ◌>>◌}
use ffi_rpc.Struct.{Cmd, load}

-- `struct rpc_struct_duplicate_info`; the list knows its length.
pub record DuplicateInfo : Type 0 where
  pub type : RpcType
  pub original_name : String
  pub duplicates : List String

-- The local variables: `count` is the length of the array.
pub record Search (L : Libs) : Type 0 where
  pub capacity : ℕ
  pub block : ℕ
  pub duplicates : List DuplicateInfo
  pub ptr_map : L.by_ptr.Map (ℕ × ℕ)

-- The write behind the last duplicate of the info at an index.
unfoldable pub add_key : ℕ → String → List DuplicateInfo → List DuplicateInfo
add_key i key [] = []
add_key zero key (info ∷ infos) = record info { duplicates = info.duplicates ++ key ∷ [] } ∷ infos
add_key (suc i) key (info ∷ infos) = info ∷ add_key i key infos

module _ {L : Libs} (next_block : ℕ → ℕ) where
  -- The `realloc` of a full array.
  unfoldable pub grow : Search L → Search L
  grow s =
      if length s.duplicates == s.capacity
      then record s { capacity = s.capacity * 2; block = next_block s.block }
      else s

  unfoldable pub new_info : String → Element → Search L → Search L
  new_info key e s = record s {
    duplicates =
        s.duplicates ++ record { type = e.type; original_name = key; duplicates = [] } ∷ [];
    ptr_map = (L.by_ptr.put s.ptr_map e.word (s.block, length s.duplicates)).0;
  }

  -- The body of the loop for an element that counts references, by what `ptr_map` has for it.
  unfoldable pub visit_with :
      String → Element → Search L → Option (ℕ × ℕ) → Run (Search L) (Unit {0})
  unfolding grow new_info add_key
  visit_with key e s none = ok tt (new_info key e (grow s))
  visit_with key e s (some (block, i)) =
      if block == s.block
      then ok tt (record s { duplicates = add_key i key s.duplicates })
      else fault

  unfoldable pub visit_pointer : String → Element → Search L → Run (Search L) (Unit {0})
  unfolding visit_with
  visit_pointer key e s = visit_with key e s (L.by_ptr.get s.ptr_map e.word)

  unfoldable pub visit : String → Element → Search L → Run (Search L) (Unit {0})
  visit key e s = if is_refcounted e.type then visit_pointer key e s else ok tt s

  unfoldable pub visit_all : List (String × Element) → Search L → Run (Search L) (Unit {0})
  visit_all [] = pure tt
  visit_all ((key, e) ∷ es) = do visit key e; visit_all es

  abbrev pub no_duplicates : Search L
  no_duplicates = record {
    capacity = 16;
    block = 0;
    duplicates = [];
    ptr_map = L.by_ptr.init (ℕ × ℕ);
  }

  -- The array of a search that ended, with the memory as it was.
  unfoldable pub result_of :
      World L → Run (Search L) (Unit {0}) → Run (World L) (List DuplicateInfo)
  result_of w (ok done s) = ok s.duplicates w
  result_of w fault = fault
  result_of w out_of_fuel = out_of_fuel

  -- `rpc_struct_found_duplicates`. Its result is NULL for an empty array.
  unfoldable pub found_duplicates : ℕ → Cmd L (List DuplicateInfo)
  unfolding load visit_all result_of
  found_duplicates rpc_struct = do
    o ← load rpc_struct
    λ w. result_of w (visit_all (L.by_name.entries o.map) no_duplicates)
