-- ===== src/Struct/Store.antt =====
-- `rpc_struct_set_internal` of src/rpc_struct.c, where it stores and where it refuses.
use ffi_rpc.Base.{
  ℕ, ◌<◌, ◌+◌, ◌≡◌, ◌≢◌, refl, sym, ap, ◌∙◌, ◌⊎◌, some, none, true, false, String, arith, nat_eq,
  string_eq, ◌==◌, nat_beq_iff, if◌then◌else◌, Bool-cases, inl, inr, ◌&&◌, is_some, not,
}
use ffi_rpc.Ext.Libs.{Libs}
use ffi_rpc.Types.{Element, is_pointer, is_refcounted, freefn_of}
use ffi_rpc.World.{World, RpcStruct, a_struct, set_struct}
use ffi_rpc.World.Cmd.{Run, ok, and_then}
use ffi_rpc.Struct.{prec_get}
use ffi_rpc.Struct.Observe.{Kind, kind, slot, element_in, recorded, Fits, load-ok, struct_of_kind}
use ffi_rpc.Struct.Invariant.{IsConsistent, Inv-nonnull}
use ffi_rpc.Struct.Track.{Referenced, take-Referenced}
use ffi_rpc.Struct.Api.{storable, stored, take_reference, put_element, set_internal, refcount}

stored-word : (e : Element) → is_refcounted e.type ≡ true → (stored e).word ≡ e.word
unfolding stored is_refcounted
stored-word e counts = ground arith

storable-nonnull : (e : Element) → (is_pointer e.type && (e.word == 0)) ≡ false → storable e ≡ true
unfolding storable
storable-nonnull e h = ground (arith, h)

stored-type : (e : Element) → (stored e).type ≡ e.type
unfolding stored
stored-type e = ground arith

pub unstorable-null : (e : Element) → storable e ≡ false → (is_pointer e.type ≡ true) × (e.word ≡ 0)
unfolding storable
unstorable-null e h = ground (arith, h)

counted-nonnull :
    (e : Element)
    → (is_pointer e.type && (e.word == 0)) ≡ false
    → is_refcounted e.type ≡ true
    → e.word ≢ 0
unfolding is_refcounted
counted-nonnull e h counts = ground (arith, h, counts)

module _ {L : Libs} (s : ℕ) (k : String) (e : Element) where
  -- The outcome of a successful store.
  pub record Stored (w : World L) (m : Run (World L) ℕ) : Type 0 where
    pub world : World L
    pub runs : m ≡ ok 0 world
    pub consistent : IsConsistent world
    pub slots :
        (a : ℕ) (j : String)
        → slot world a j ≡ (if (s == a) && (k == j) then some (stored e) else slot w a j)
    pub kinds : (a : ℕ) → kind world a ≡ kind w a
    pub counted : is_refcounted e.type ≡ true → refcount e.word world ≡ refcount e.word w + 1
    pub others : (p : ℕ) → p ≢ e.word → prec_get p world ≡ prec_get p w
    pub heaps : (p : ℕ) → s ≢ p → world.heap p ≡ w.heap p
    pub tracker : is_refcounted e.type ≡ false → world.ptracker ≡ w.ptracker

  module _ (w : World L) (inv : IsConsistent w) (o : RpcStruct L)
      (live : w.heap s ≡ some (a_struct o)) (absent : slot w s k ≡ none) where
    missing : L.by_name.get o.map k ≡ none
    missing = rw live at absent

    -- The memory once the element is in the map.
    abbrev put_world : World L → World L
    put_world v = set_struct s (record o { map = (L.by_name.put o.map k (stored e)).0 }) v

    slot-put :
        (v : World L)
        → v.heap ≡ w.heap
        → (a : ℕ) (j : String)
        → slot (put_world v) a j ≡ (if (s == a) && (k == j) then some (stored e) else slot w a j)
    slot-put v same a j = elim (Bool-cases (s == a)) [
      | inl hit ↦ rw hit (
          rw (L.by_name.get-put o.map k j (stored e) missing)
            (rw (← (nat_beq_iff s a).0 hit, live) refl))
      | inr miss ↦ rw miss (rw same refl)
    ]

    kind-put : (v : World L) → v.heap ≡ w.heap → (a : ℕ) → kind (put_world v) a ≡ kind w a
    kind-put v same a = elim (Bool-cases (s == a)) [
      | inl hit ↦ rw hit (rw (← (nat_beq_iff s a).0 hit, live) refl)
      | inr miss ↦ rw miss (rw same refl)
    ]

    nonnull : s ≢ 0
    nonnull z = ground (arith, live, inv.null, ap (kind w) z)

    counted-Stored :
        (m : Run (World L) (Unit {0}))
        → is_refcounted e.type ≡ true
        → Referenced s k nonnull (freefn_of e.type) e.word w m
        → Stored w (and_then m (λ _ v. ok 0 (put_world v)))
    counted-Stored m c r =
        let slots = slot-put r.world r.heap in
        let kinds = kind-put r.world r.heap in
        record {
          world = put_world r.world;
          runs = rw r.runs refl;
          consistent = record {
            forward = λ a j f at counts _. ground (
              arith,
              slots a j,
              r.records f.word j a,
              stored-word e,
              nat_beq_iff e.word f.word,
              nat_beq_iff s a,
              Inv-nonnull inv a j f,
              nonnull,
              inv.forward a j f,
            );
            backward = λ p j a nz counted. elim (Bool-cases ((s == a) && (k == j))) [
              | inl hit ↦ (
                stored e,
                rw (slots a j) (rw hit refl),
                ground (
                  arith,
                  r.records p j a nz,
                  nat_beq_iff s a,
                  string_eq.same_iff k j,
                  nat_beq_iff e.word p,
                  inv.backward p k s nonnull,
                  absent,
                  stored-word e,
                ),
                rw (stored-type e) c,
              )
              | inr miss ↦
                  let was : 0 < recorded w p j a = ground (arith, r.records p j a nz) in
                  let (f, at, word, counts) = inv.backward p j a nz was in
                  (f, rw (slots a j) (rw miss at), word, counts)
            ];
            valid = r.valid;
            fits = λ q t h. rw (kinds q) (r.fits q t h);
            null = kinds 0 ∙ inv.null;
          };
          slots = slots;
          kinds = kinds;
          counted = λ _. r.refcount;
          others = λ p ne. r.others p (λ same. ne (sym same));
          heaps = λ p ne. ground (arith, nat_beq_iff s p, ap (λ h. h p) r.heap);
          tracker = λ plain. absurd (ground (arith, c, plain));
        }

    plain-Stored : is_refcounted e.type ≡ false → Stored w (ok 0 (put_world w))
    plain-Stored c =
        let slots = slot-put w refl in
        let kinds = kind-put w refl in
        record {
          world = put_world w;
          runs = refl;
          consistent = record {
            forward =
                λ a j f at counts _. ground (arith, slots a j, stored-type e, inv.forward a j f);
            backward = λ p j a nz counted.
                let (f, at, word, counts) = inv.backward p j a nz counted in
                (
                  f,
                  ground (arith, slots a j, nat_beq_iff s a, string_eq.same_iff k j, absent, at),
                  word,
                  counts,
                );
            valid = inv.valid;
            fits = λ q t h. rw (kinds q) (inv.fits q t h);
            null = kinds 0 ∙ inv.null;
          };
          slots = slots;
          kinds = kinds;
          counted = λ r. absurd (ground arith);
          others = λ p ne. refl;
          heaps = λ p ne. ground (arith, nat_beq_iff s p);
          tracker = λ _. refl;
        }

    -- A new key takes a storable element.
    stores :
        storable e ≡ true
        → (is_refcounted e.type ≡ true → Fits (freefn_of e.type) (kind w e.word))
        → Stored w (set_internal s k e w)
    unfolding set_internal take_reference put_element
    stores ready fits =
        let test : (storable e && not (is_some (L.by_name.get o.map k))) ≡ true =
          ground (arith, missing) in
        rw (load-ok s w o live) (
          rw test (elim (Bool-cases (is_refcounted e.type)) [
            | inl c ↦ rw c (
                counted-Stored _ c (
                  take-Referenced s k nonnull (freefn_of e.type) e.word w inv.valid inv.fits
                    (fits c) o live))
            | inr c ↦ rw c (plain-Stored c)
          ]))

  -- In a consistent memory a storable element goes under a new key of a live struct: the result
  -- is 0, exactly that slot changes, the count of the pointer goes up by one if its type counts
  -- references, no other pointer's entry changes, no object changes its kind, and the memory
  -- stays consistent. A pointer whose type counts references must be of that type.
  pub set_internal-Stored :
      (w : World L)
      → IsConsistent w
      → kind w s ≡ Kind.struct
      → slot w s k ≡ none
      → storable e ≡ true
      → (is_refcounted e.type ≡ true → Fits (freefn_of e.type) (kind w e.word))
      → Stored w (set_internal s k e w)
  set_internal-Stored w inv is absent ready fits =
      let (o, live) = struct_of_kind (w.heap s) is in stores w inv o live absent ready fits

  -- The key is taken, or the element is a NULL pointer.
  abbrev pub IsRefused : World L → Type 0
  IsRefused w = (is_some (slot w s k) ≡ true) ⊎ ((is_pointer e.type ≡ true) × (e.word ≡ 0))

  pub set_internal-refuses :
      (w : World L) → kind w s ≡ Kind.struct → IsRefused w → set_internal s k e w ≡ ok 1 w
  unfolding set_internal storable
  set_internal-refuses w is why =
      let (o, live) = struct_of_kind (w.heap s) is in
      let taken : is_some (slot w s k) ≡ is_some (L.by_name.get o.map k) =
        ap (λ x. is_some (element_in k x)) live in
      let test : (storable e && not (is_some (L.by_name.get o.map k))) ≡ false =
        ground (arith, taken, why) in
      rw (load-ok s w o live) (rw test refl)

  -- The two outcomes of storing.
  abbrev pub IsDecided : World L → Type 0
  IsDecided w =
      (IsRefused w × (set_internal s k e w ≡ ok 1 w))
      ⊎ ((¬ IsRefused w) × Stored w (set_internal s k e w))

  -- In a consistent memory, for a live struct and an element whose pointer, if it is not NULL and
  -- its type counts references, is of that type: rpc_struct_set_internal gives 1 and changes nothing if the key is taken or
  -- the element is a NULL pointer. In every other case it stores the element: the result is 0,
  -- exactly that slot changes, the count of the pointer goes up by one if its type counts
  -- references, and the memory stays consistent.
  pub set_internal-decides :
      (w : World L)
      → IsConsistent w
      → kind w s ≡ Kind.struct
      → (e.word ≢ 0 → is_refcounted e.type ≡ true → Fits (freefn_of e.type) (kind w e.word))
      → IsDecided w
  set_internal-decides w inv is fits = elim (Bool-cases (is_some (slot w s k))) [
    | inl taken ↦ inl (inl taken, set_internal-refuses w is (inl taken))
    | inr free ↦ elim (Bool-cases (is_pointer e.type && (e.word == 0))) [
      | inl null ↦
          let why : IsRefused w = inr (ground (arith, null)) in
          inl (why, set_internal-refuses w is why)
      | inr fine ↦
          let absent : slot w s k ≡ none = ground (arith, free) in
          let unrefused : ¬ IsRefused w = λ why. ground (arith, why, free, fine) in
          let ready = storable-nonnull e fine in
          let fitting : is_refcounted e.type ≡ true → Fits (freefn_of e.type) (kind w e.word) =
            λ counts. fits (counted-nonnull e fine counts) counts in
          inr (unrefused, set_internal-Stored w inv is absent ready fitting)
    ]
  ]
