-- ===== src/Duplicates/Groups.antt =====
-- Pointers in the order of a list of elements, and the keys under which each stands.
use ffi_rpc.Base.{
  ℕ, zero, suc, ◌≤◌, ◌≡◌, ◌≢◌, refl, sym, ap, ◌∙◌, true, false, not, Option, none, some, List, [],
  ◌∷◌, ◌++◌, String, nat_eq, string_eq, ◌==◌, if◌then◌else◌, ◌&&◌, nat_beq_iff, is_some, length,
  map, length-append, All, All-mono, Distinct, snoc-append, Bool-cases, Option-cases, inl, inr,
  arith,
}
use ffi_rpc.Types.{Element, is_refcounted}
use ffi_rpc.Duplicates.{DuplicateInfo, add_key}

-- Where a pointer stands in a list.
abbrev pub position : ℕ → List ℕ → Option ℕ
position p [] = none
position p (q ∷ qs) =
    if q == p then some 0 else (elim (position p qs) [ none ↦ none | some i ↦ some (suc i) ])

-- The pointers of the elements that count references, in the order in which they first stand, behind
-- those in `ps`.
abbrev pub pointers : List ℕ → List (String × Element) → List ℕ
pointers ps [] = ps
pointers ps ((key, e) ∷ es) =
    if is_refcounted e.type && not (is_some (position e.word ps))
    then pointers (ps ++ e.word ∷ []) es
    else pointers ps es

-- The keys under which a pointer stands, in their order.
abbrev pub keys_of : ℕ → List (String × Element) → List String
keys_of p [] = []
keys_of p ((key, e) ∷ es) =
    if is_refcounted e.type && (e.word == p) then key ∷ keys_of p es else keys_of p es

abbrev pub names : DuplicateInfo → List String
names info = info.original_name ∷ info.duplicates

-- A key behind those of a pointer.
abbrev pub extended : (ℕ → List String) → ℕ → String → ℕ → List String
extended front w key p = if w == p then front p ++ key ∷ [] else front p

pub map-eq :
    {A : Type 0} (f g : ℕ → A) (ps : List ℕ) → All (λ p. f p ≡ g p) ps → map f ps ≡ map g ps
map-eq f g [] h = refl
map-eq f g (p ∷ ps) h = λ i. h.0 i ∷ map-eq f g ps h.1 i

pub map-append :
    {A B : Type 0} (f : A → B) (xs ys : List A) → map f (xs ++ ys) ≡ map f xs ++ map f ys
map-append f [] ys = refl
map-append f (x ∷ xs) ys = ap (◌∷◌ (f x)) (map-append f xs ys)

pub absent-All : (w : ℕ) (ps : List ℕ) → position w ps ≡ none → All (λ p. p ≢ w) ps
absent-All w [] h = tt
absent-All w (p ∷ ps) h = elim (Bool-cases (p == w)) [
  | inl same ↦ absurd (ground (arith, same, h))
  | inr differ ↦ elim (Option-cases (position w ps)) [
    | inl later ↦ (ground (arith, nat_beq_iff p w, differ), absent-All w ps later)
    | inr (i, at) ↦ absurd (ground (arith, differ, at, h))
  ]
]

pub position-append :
    (w p : ℕ) (ps : List ℕ)
    → position w ps ≡ none
    → position p (ps ++ w ∷ []) ≡ (if w == p then some (length ps) else position p ps)
position-append w p [] h = refl
position-append w p (q ∷ qs) h = elim (Bool-cases (q == w)) [
  | inl same ↦ absurd (ground (arith, same, h))
  | inr differ ↦ elim (Option-cases (position w qs)) [
    | inr (i, at) ↦ absurd (ground (arith, differ, at, h))
    | inl later ↦ ground (
      arith,
      position-append w p qs later,
      nat_beq_iff q p,
      nat_beq_iff w p,
      nat_beq_iff q w,
      differ,
    )
  ]
]

pub extended_absent :
    (front : ℕ → List String) (w : ℕ) (key : String) (ps : List ℕ)
    → All (λ p. p ≢ w) ps
    → map (extended front w key) ps ≡ map front ps
extended_absent front w key ps h =
    map-eq (extended front w key) front ps
      (All-mono ps (λ p ne. ground (arith, nat_beq_iff w p, λ (e : w ≡ p). ne (sym e))) h)

-- A key is added to the group of its pointer.
pub add_key-names :
    (front : ℕ → List String) (w : ℕ) (key : String) (ps : List ℕ) (infos : List DuplicateInfo)
    (i : ℕ)
    → map names infos ≡ map front ps
    → position w ps ≡ some i
    → Distinct ps
    → map names (add_key i key infos) ≡ map (extended front w key) ps
unfolding add_key
add_key-names front w key [] infos i h at d = absurd (ground arith)
add_key-names front w key (p ∷ ps) [] i h at d = absurd (ground arith)
add_key-names front w key (p ∷ ps) (info ∷ infos) zero h at d = elim (Bool-cases (p == w)) [
  | inl same ↦
      let is : p ≡ w = (nat_beq_iff p w).0 same in
      let head : names info ≡ front p = ground (arith, h) in
      let tail : map names infos ≡ map front ps = ground (arith, h) in
      let new : All (λ q. q ≢ w) ps = All-mono ps (λ q ne e. ne (is ∙ sym e)) d.0 in
      let here : extended front w key p ≡ front p ++ key ∷ [] =
        ground (arith, nat_beq_iff w p, sym is) in
      λ i.
        ((ap (λ (ks : List String). ks ++ key ∷ []) head ∙ sym here) i)
        ∷ ((tail ∙ sym (extended_absent front w key ps new)) i)
  | inr differ ↦ elim (Option-cases (position w ps)) [
    | inl later ↦ absurd (ground (arith, differ, later, at))
    | inr (j, later) ↦ absurd (ground (arith, differ, later, at))
  ]
]
add_key-names front w key (p ∷ ps) (info ∷ infos) (suc i) h at d = elim (Bool-cases (p == w)) [
  | inl same ↦ absurd (ground (arith, same, at))
  | inr differ ↦ elim (Option-cases (position w ps)) [
    | inl later ↦ absurd (ground (arith, differ, later, at))
    | inr (j, later) ↦
        let index : j ≡ i = ground (arith, differ, later, at) in
        let head : names info ≡ front p = ground (arith, h) in
        let tail : map names infos ≡ map front ps = ground (arith, h) in
        let other : extended front w key p ≡ front p =
          ground (arith, nat_beq_iff w p, nat_beq_iff p w, differ) in
        let rest = add_key-names front w key ps infos i tail (later ∙ ap some index) d.1 in
        λ i. ((head ∙ sym other) i) ∷ rest i
  ]
]

-- Every pointer that is there stays.
pub pointers-length :
    (ps : List ℕ) (es : List (String × Element)) → length ps ≤ length (pointers ps es)
pointers-length ps [] = omega arith
pointers-length ps ((key, e) ∷ es) =
    elim (Bool-cases (is_refcounted e.type && not (is_some (position e.word ps)))) [
      | inl new ↦
          rw new
            (omega (arith, pointers-length (ps ++ e.word ∷ []) es, length-append ps (e.word ∷ [])))
      | inr old ↦ rw old (pointers-length ps es)
    ]

-- The keys of a pointer behind those that were there.
abbrev pub behind : (ℕ → List String) → List (String × Element) → ℕ → List String
behind front es p = front p ++ keys_of p es

pub behind_skipped :
    (front : ℕ → List String) (key : String) (e : Element) (es : List (String × Element)) (p : ℕ)
    → is_refcounted e.type ≡ false
    → behind front ((key, e) ∷ es) p ≡ behind front es p
behind_skipped front key e es p plain = rw plain refl

pub behind-extended :
    (front : ℕ → List String) (key : String) (e : Element) (es : List (String × Element)) (p : ℕ)
    → is_refcounted e.type ≡ true
    → behind front ((key, e) ∷ es) p ≡ behind (extended front e.word key) es p
behind-extended front key e es p counts = elim (Bool-cases (e.word == p)) [
  | inl same ↦ rw (counts, same) (sym (snoc-append (front p) key (keys_of p es)))
  | inr differ ↦ rw (counts, differ) refl
]

abbrev pub place : ℕ → Option ℕ → Option (ℕ × ℕ)
place block none = none
place block (some i) = some (block, i)
