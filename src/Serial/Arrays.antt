-- ===== src/Serial/Arrays.antt =====
-- Arrays and objects that are written, and read again.
use ffi_rpc.Base.{
  ℕ, ◌+◌, ◌^◌, ◌<◌, ◌≡◌, refl, subst, ◌∙◌, true, false, some, List, [], ◌∷◌, String, string_eq,
  nat_eq, ◌==◌, All, length, arith,
}
use ffi_rpc.Ext.Json.{Jansson}
use ffi_rpc.Serial.{append_all, values_from, values_of, is_text}

module _ (J : Jansson) where
  is_array-append_all : (a : J.Json) (ns : List ℕ) → J.is_array (append_all J a ns) ≡ J.is_array a
  unfolding append_all
  is_array-append_all a [] = refl
  is_array-append_all a (n ∷ ns) =
      is_array-append_all (J.array_append_new a (J.integer n)) ns
      ∙ J.is_array-append a (J.integer n)

  pub size-append_all :
      (a : J.Json) (ns : List ℕ)
      → J.is_array a ≡ true
      → J.array_size (append_all J a ns) ≡ J.array_size a + length ns
  unfolding append_all
  size-append_all a [] h = omega arith
  size-append_all a (n ∷ ns) h =
      let b = J.array_append_new a (J.integer n) in
      omega (
        arith,
        size-append_all b ns (J.is_array-append a (J.integer n) ∙ h),
        J.size-append a (J.integer n) h,
      )

  -- What is appended leaves the front.
  get-append_all :
      (a : J.Json) (ns : List ℕ) (i : ℕ)
      → J.is_array a ≡ true
      → i < J.array_size a
      → J.array_get (append_all J a ns) i ≡ J.array_get a i
  unfolding append_all
  get-append_all a [] i h below = refl
  get-append_all a (n ∷ ns) i h below =
      let b = J.array_append_new a (J.integer n) in
      let still : i < J.array_size b = omega (arith, J.size-append a (J.integer n) h) in
      let same : J.array_get b i ≡ J.array_get a i =
        ground (arith, J.get-append a (J.integer n) i h) in
      get-append_all b ns i (J.is_array-append a (J.integer n) ∙ h) still ∙ same

  values_from-append_all :
      (a : J.Json) (ns : List ℕ)
      → J.is_array a ≡ true
      → All (λ (n : ℕ). n < 2 ^ 64) ns
      → values_from J (append_all J a ns) (J.array_size a) (length ns) ≡ ns
  unfolding append_all values_from
  values_from-append_all a [] h small = refl
  values_from-append_all a (n ∷ ns) h small =
      let b = J.array_append_new a (J.integer n) in
      let h' : J.is_array b ≡ true = J.is_array-append a (J.integer n) ∙ h in
      let size : J.array_size b ≡ J.array_size a + 1 = J.size-append a (J.integer n) h in
      let here : J.array_get (append_all J b ns) (J.array_size a) ≡ some (J.integer n) =
        get-append_all b ns (J.array_size a) h' (omega (arith, size))
        ∙ ground (arith, J.get-append a (J.integer n) (J.array_size a) h) in
      let rest : values_from J (append_all J b ns) (J.array_size a + 1) (length ns) ≡ ns =
        subst (λ (i : ℕ). values_from J (append_all J b ns) i (length ns) ≡ ns) size
          (values_from-append_all b ns h' small.1) in
      rw (here, J.integer_value-integer n small.0, rest) refl

  -- An array that is filled is read as it was.
  pub values_of-append_all :
      (ns : List ℕ)
      → All (λ (n : ℕ). n < 2 ^ 64) ns
      → values_of J (some (append_all J J.array ns)) ≡ ns
  unfolding values_of
  values_of-append_all ns small =
      let size : J.array_size (append_all J J.array ns) ≡ length ns =
        omega (arith, size-append_all J.array ns J.is_array-array, J.size-array) in
      rw size (
        subst (λ (i : ℕ). values_from J (append_all J J.array ns) i (length ns) ≡ ns) J.size-array
          (values_from-append_all J.array ns J.is_array-array small))

  -- The elements of the objects that are written.
  module _ (type name : String) (x : J.Json) (apart : (name == "type") ≡ false) where
    abbrev pub typed : J.Json
    typed = J.object_set_new J.object "type" (J.string type)

    abbrev pub written : J.Json
    written = J.object_set_new typed name x

    pub is_object-written : J.is_object written ≡ true
    is_object-written =
        J.is_object-set typed name x
        ∙ (J.is_object-set J.object "type" (J.string type) ∙ J.is_object-object)

    pub get-written : J.object_get written name ≡ some x
    get-written = ground (
      arith,
      J.get-set typed name name x,
      J.is_object-set J.object "type" (J.string type),
      J.is_object-object,
      string_eq.same_iff name name,
    )

    pub type-written : J.object_get written "type" ≡ some (J.string type)
    type-written = ground (
      arith,
      J.get-set typed name "type" x,
      J.get-set J.object "type" "type" (J.string type),
      J.is_object-set J.object "type" (J.string type),
      J.is_object-object,
    )

  pub is_text-string : (name : String) → is_text J name (some (J.string name)) ≡ true
  unfolding is_text
  is_text-string name =
      rw (is_text, J.string_value-string name) ((string_eq.same_iff name name).1 refl)
