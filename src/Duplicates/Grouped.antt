-- ===== src/Duplicates/Grouped.antt =====
-- The duplicates are the elements grouped by their pointers, while the array is not moved.
use ffi_rpc.Base.{
  ℕ, ◌<◌, ◌≤◌, ◌≡◌, refl, sym, ap, ◌∙◌, true, false, none, some, List, [], ◌∷◌, ◌++◌, String,
  nat_eq, string_eq, ◌==◌, nat_beq_iff, length, map, length-append, length-map, Distinct,
  Distinct-snoc, append_nil, Bool-cases, Option-cases, inl, inr, arith,
}
use ffi_rpc.Types.{Element, is_refcounted}
use ffi_rpc.Ext.Libs.{Libs}
use ffi_rpc.World.{World, RpcStruct, a_struct}
use ffi_rpc.World.Cmd.{Run, ok}
use ffi_rpc.Struct.Observe.{load-ok}
use ffi_rpc.Duplicates.{
  DuplicateInfo, Search, add_key, grow, new_info, visit_with, visit_pointer, visit, visit_all,
  no_duplicates, found_duplicates, result_of,
}
use ffi_rpc.Duplicates.Groups.{
  position, pointers, keys_of, names, extended, map-append, absent-All, position-append,
  extended_absent, add_key-names, pointers-length, behind, behind_skipped, behind-extended, place,
}

module _ {L : Libs} (next_block : ℕ → ℕ) where
  -- The array groups the keys by the pointers, and the table has their places.
  record Holds (front : ℕ → List String) (ps : List ℕ) (s : Search L) : Type 0 where
    capacity : s.capacity ≡ 16
    groups : map names s.duplicates ≡ map front ps
    places : (p : ℕ) → L.by_ptr.get s.ptr_map p ≡ place s.block (position p ps)
    distinct : Distinct ps
    empty : (p : ℕ) → position p ps ≡ none → front p ≡ []

  new_info-Holds :
      (front : ℕ → List String) (ps : List ℕ) (s : Search L) (key : String) (e : Element)
      → Holds front ps s
      → position e.word ps ≡ none
      → Holds (extended front e.word key) (ps ++ e.word ∷ []) (new_info next_block key e s)
  unfolding new_info
  new_info-Holds front ps s key e h new =
      let w = e.word in
      let info : DuplicateInfo = record { type = e.type; original_name = key; duplicates = [] } in
      let absent = absent-All w ps new in
      let last : key ∷ [] ≡ extended front w key w =
        ground (arith, nat_beq_iff w w, h.empty w new) in
      let count : length s.duplicates ≡ length ps =
        sym (length-map names s.duplicates) ∙ (ap length h.groups ∙ length-map front ps) in
      let untaken : L.by_ptr.get s.ptr_map w ≡ none = h.places w ∙ ap (place s.block) new in
      record {
        capacity = h.capacity;
        groups =
            map-append names s.duplicates (info ∷ [])
            ∙ ((λ i. (h.groups ∙ sym (extended_absent front w key ps absent)) i ++ last i ∷ [])
                ∙ sym (map-append (extended front w key) ps (w ∷ [])));
        places = λ p. ground (
          arith,
          L.by_ptr.get-put s.ptr_map w p (s.block, length s.duplicates) untaken,
          ap (place s.block) (position-append w p ps new),
          h.places p,
          count,
        );
        distinct = Distinct-snoc ps w absent h.distinct;
        empty = λ p gone. ground (arith, position-append w p ps new, gone, h.empty p);
      }

  -- A step of the search.
  record Visited (front : ℕ → List String) (ps : List ℕ) (r : Run (Search L) (Unit {0}))
      : Type 0 where
    after : Search L
    runs : r ≡ ok tt after
    holds : Holds front ps after

  grow-room : (s : Search L) → s.capacity ≡ 16 → length s.duplicates < 16 → grow next_block s ≡ s
  unfolding grow
  grow-room s h room =
      let test : (length s.duplicates == s.capacity) ≡ false = ground (arith, h, room) in
      rw test refl

  -- A new pointer, and one that is there.
  visit_pointer-new :
      (front : ℕ → List String) (ps : List ℕ) (s : Search L) (key : String) (e : Element)
      → Holds front ps s
      → position e.word ps ≡ none
      → length ps < 16
      → Visited (extended front e.word key) (ps ++ e.word ∷ []) (visit_pointer next_block key e s)
  unfolding visit_pointer visit_with
  visit_pointer-new front ps s key e h new room =
      let untaken : L.by_ptr.get s.ptr_map e.word ≡ none =
        h.places e.word ∙ ap (place s.block) new in
      let count : length s.duplicates ≡ length ps =
        sym (length-map names s.duplicates) ∙ (ap length h.groups ∙ length-map front ps) in
      record {
        after = new_info next_block key e s;
        runs =
            ap (visit_with next_block key e s) untaken
            ∙ ap (λ (t : Search L). ok tt (new_info next_block key e t))
                (grow-room s h.capacity (omega (arith, count)));
        holds = new_info-Holds front ps s key e h new;
      }

  visit_pointer-known :
      (front : ℕ → List String) (ps : List ℕ) (s : Search L) (key : String) (e : Element) (i : ℕ)
      → Holds front ps s
      → position e.word ps ≡ some i
      → Visited (extended front e.word key) ps (visit_pointer next_block key e s)
  unfolding visit_pointer visit_with
  visit_pointer-known front ps s key e i h known =
      let taken : L.by_ptr.get s.ptr_map e.word ≡ some (s.block, i) =
        h.places e.word ∙ ap (place s.block) known in
      let same : (s.block == s.block) ≡ true = (nat_beq_iff s.block s.block).1 refl in
      record {
        after = record s { duplicates = add_key i key s.duplicates };
        runs = ap (visit_with next_block key e s) taken ∙ rw same refl;
        holds = record {
          capacity = h.capacity;
          groups = add_key-names front e.word key ps s.duplicates i h.groups known h.distinct;
          places = h.places;
          distinct = h.distinct;
          empty = λ p gone.
              ground (
                arith,
                nat_beq_iff e.word p,
                ap (λ (q : ℕ). position q ps),
                known,
                gone,
                h.empty p,
              );
        };
      }

  -- The search of the rest.
  record Searched (front : ℕ → List String) (ps : List ℕ) (es : List (String × Element))
      (r : Run (Search L) (Unit {0})) : Type 0 where
    after : Search L
    runs : r ≡ ok tt after
    groups : map names after.duplicates ≡ map (behind front es) (pointers ps es)

  visit_all-Searched :
      (front : ℕ → List String) (ps : List ℕ) (es : List (String × Element)) (s : Search L)
      → Holds front ps s
      → length (pointers ps es) ≤ 16
      → Searched front ps es (visit_all next_block es s)
  unfolding visit_all visit
  visit_all-Searched front ps [] s h room = record {
    after = s;
    runs = refl;
    groups = h.groups ∙ (λ i. map (λ p. sym (append_nil (front p)) i) ps);
  }
  visit_all-Searched front ps ((key, e) ∷ es) s h room = elim (Bool-cases (is_refcounted e.type)) [
    | inr plain ↦
        let rest : length (pointers ps es) ≤ 16 = rw plain at room in
        let r = visit_all-Searched front ps es s h rest in
        record {
          after = r.after;
          runs = rw plain r.runs;
          groups =
              r.groups
              ∙ (rw plain
                  (λ i. map (λ p. sym (behind_skipped front key e es p plain) i) (pointers ps es)));
        }
    | inl counts ↦ elim (Option-cases (position e.word ps)) [
      | inl new ↦
          let ps' = ps ++ e.word ∷ [] in
          let rest : length (pointers ps' es) ≤ 16 = rw (counts, new) at room in
          let fits : length ps < 16 =
            omega (arith, pointers-length ps' es, length-append ps (e.word ∷ [])) in
          let v = visit_pointer-new front ps s key e h new fits in
          let r = visit_all-Searched (extended front e.word key) ps' es v.after v.holds rest in
          record {
            after = r.after;
            runs = rw (counts, v.runs) r.runs;
            groups =
                r.groups
                ∙ (rw (counts, new)
                    (λ i.
                      map (λ p. sym (behind-extended front key e es p counts) i)
                        (pointers ps' es)));
          }
      | inr (i, known) ↦
          let rest : length (pointers ps es) ≤ 16 = rw (counts, known) at room in
          let v = visit_pointer-known front ps s key e i h known in
          let r = visit_all-Searched (extended front e.word key) ps es v.after v.holds rest in
          record {
            after = r.after;
            runs = rw (counts, v.runs) r.runs;
            groups =
                r.groups
                ∙ (rw (counts, known)
                    (λ i.
                      map (λ p. sym (behind-extended front key e es p counts) i) (pointers ps es)));
          }
    ]
  ]

  -- The outcome for a struct: for each pointer its keys, the first of them as the original name.
  pub record Grouped (es : List (String × Element)) (w : World L)
      (m : Run (World L) (List DuplicateInfo)) : Type 0 where
    pub infos : List DuplicateInfo
    pub runs : m ≡ ok infos w
    pub groups : map names infos ≡ map (λ p. keys_of p es) (pointers [] es)

  nothing-Holds : Holds (λ p. []) [] (no_duplicates next_block)
  nothing-Holds = record {
    capacity = refl;
    groups = refl;
    places = λ p. L.by_ptr.get-init (ℕ × ℕ) p;
    distinct = tt;
    empty = λ p gone. refl;
  }

  -- For a live struct with at most sixteen different pointers among the elements that count
  -- references, wherever realloc puts an array, rpc_struct_found_duplicates ends without a fault,
  -- changes nothing, and has for each of these pointers, in the order in which they first stand,
  -- its keys in their order, the first as the original name and the others as its duplicates.
  pub found_duplicates-Grouped :
      (rpc_struct : ℕ) (o : RpcStruct L) (w : World L)
      → w.heap rpc_struct ≡ some (a_struct o)
      → length (pointers [] (L.by_name.entries o.map)) ≤ 16
      → Grouped (L.by_name.entries o.map) w (found_duplicates next_block rpc_struct w)
  unfolding found_duplicates result_of
  found_duplicates-Grouped rpc_struct o w live few =
      let r =
        visit_all-Searched (λ p. []) [] (L.by_name.entries o.map) (no_duplicates next_block)
          nothing-Holds few in
      record {
        infos = r.after.duplicates;
        runs = rw (load-ok rpc_struct w o live) (ap (result_of next_block w) r.runs);
        groups = r.groups;
      }
