-- ===== src/Ext/TreeText.antt =====
-- A text form for trees, in which one tree without arrays has a text: the laws of `json_dumps` and
-- `json_loadb` can hold.
use ffi_rpc.Base.{
  ℕ, ◌≡◌, refl, sym, ap, Bool, true, false, Option, none, some, List, [], ◌∷◌, string_eq, nat_eq,
  ◌==◌, if◌then◌else◌, ◌&&◌, arith,
}
use ffi_rpc.Ext.JsonModel.{
  Tree, Fields, trees, object_of, text, number, real_number, no_fields, field,
}
use ffi_rpc.Exchange.{TextForm}

unfoldable mutual
  pub same : Tree → Tree → Bool
  same (object_of fs) (object_of gs) = same_fields fs gs
  same (text s) (text t) = s == t
  same (number n) (number m) = n == m
  same (real_number n) (real_number m) = n == m
  same _ _ = false

  pub same_fields : Fields → Fields → Bool
  same_fields no_fields no_fields = true
  same_fields (field k v fs) (field j u gs) = (k == j) && (same v u && same_fields fs gs)
  same_fields _ _ = false

mutual
  unfolding same same_fields

  same-equal : (a b : Tree) → same a b ≡ true → a ≡ b
  same-equal (object_of fs) (object_of gs) h = ap object_of (same_fields-equal fs gs h)
  same-equal (text s) (text t) h = ap text ((string_eq.same_iff s t).0 h)
  same-equal (number n) (number m) h = ap number (ground (arith, h))
  same-equal (real_number n) (real_number m) h = ap real_number (ground (arith, h))
  same-equal _ _ h = absurd (ground (arith, h))

  same_fields-equal : (fs gs : Fields) → same_fields fs gs ≡ true → fs ≡ gs
  same_fields-equal no_fields no_fields h = refl
  same_fields-equal (field k v fs) (field j u gs) h =
      let key : (k == j) ≡ true = ground (arith, h) in
      let value : same v u ≡ true = ground (arith, h) in
      let rest : same_fields fs gs ≡ true = ground (arith, h) in
      let e1 : k ≡ j = (string_eq.same_iff k j).0 key in
      let e2 : v ≡ u = same-equal v u value in let e3 : fs ≡ gs = same_fields-equal fs gs rest in cc
  same_fields-equal _ _ h = absurd (ground (arith, h))

module _ (sample : Tree) where
  abbrev tree_dump : Tree → Option (List ℕ)
  tree_dump t = if same t sample then some (1 ∷ []) else none

  abbrev tree_load : List ℕ → Option Tree
  tree_load [] = none
  tree_load (b ∷ bs) = some sample

  pub tree_load-tree_dump :
      (t : Tree) (bytes : List ℕ) → tree_dump t ≡ some bytes → tree_load bytes ≡ some t
  tree_load-tree_dump t [] e = absurd (ground (arith, e))
  tree_load-tree_dump t (b ∷ bs) e = ap some (sym (same-equal t sample (ground (arith, e))))

  abbrev pub tree_text : TextForm trees
  tree_text = record { dumps = tree_dump; loadb = tree_load; loadb-dumps = tree_load-tree_dump }
