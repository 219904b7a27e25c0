-- ===== src/Origins/Invariant.antt =====
-- The well-formedness of the slots of one key, and filling a slot.

use ffi_rpc.Base.{
  ℕ, suc, ◌+◌, ◌-◌, ◌<◌, ◌≤◌, ◌≡◌, ◌≢◌, refl, sym, ap, ◌∙◌, subst, inl, inr, some, List, [], ◌∷◌,
  ◌++◌, nat_eq, ◌==◌, get_elem?, set, length, count_below, All, All-mono, All-both, set-append,
  Distinct, length-set, length-append, get_elem?-set_ne, get_elem?-append, get_elem?-some,
  Bool-cases, arith,
}
use ffi_rpc.Ext.Queue.{QueueLib}
use ffi_rpc.Origins.{
  OriginCtx, default_origins_size, create, take_slot, grow_for, put_origin, add_origin, holds,
}
use ffi_rpc.Origins.Counting.{bit, count_below-suc, count_below-set, count_below-append}

-- A queued slot is in use and holds NULL.
abbrev pub IsFree : List ℕ → ℕ → ℕ → Type 0
IsFree origins n i = (i < n) × (get_elem? origins i ≡ some 0)

module _ {Q : QueueLib} where
  pub record IsValid (c : OriginCtx Q) : Type 0 where
    pub sized : length c.origins ≡ c.o_size
    pub room : c.o_index < c.o_size
    pub free : All (IsFree c.origins c.o_index) (Q.to_list c.empty_origins)
    pub distinct : Distinct (Q.to_list c.empty_origins)

  pub create-IsValid : IsValid (create {Q = Q})
  unfolding create
  create-IsValid = record {
    sized = refl;
    room = omega arith;
    free = rw Q.to_list-init tt;
    distinct = rw Q.to_list-init tt;
  }

  -- A slot that `add_origin` may write: in bounds, holding NULL or just past the slots in use, and
  -- queued no more.
  record Slot (c : OriginCtx Q) (i : ℕ) (d : OriginCtx Q) : Type 0 where
    below : i < d.o_index
    same : (d.origins ≡ c.origins) × (d.o_size ≡ c.o_size)
    index : d.o_index ≤ c.o_size
    tight : i ≢ c.o_size - 1 → d.o_index < c.o_size
    counts :
        (a : ℕ)
        → a ≢ 0
        → (v : ℕ) → count_below (set d.origins i v) d.o_index a ≡ holds c a + bit v a
    others : All (λ j. IsFree d.origins d.o_index j × (j ≢ i)) (Q.to_list d.empty_origins)
    distinct : Distinct (Q.to_list d.empty_origins)

  appended-Slot :
      (c : OriginCtx Q)
      → IsValid c
      → Q.to_list c.empty_origins ≡ []
      → Slot c c.o_index (record c { o_index = suc c.o_index })
  unfolding holds
  appended-Slot c v e =
      let (u, found) = get_elem?-some c.origins c.o_index (omega (arith, v.sized, v.room)) in
      record {
        below = omega arith;
        same = (refl, refl);
        index = v.room;
        tight = λ ne. omega (arith, v.room, ne);
        counts = λ a ne w. omega (
          arith,
          count_below-set c.origins c.o_index (suc c.o_index) a u w found (omega arith),
          count_below-suc c.origins c.o_index a u found,
        );
        others = rw e tt;
        distinct = rw e tt;
      }

  reused-Slot :
      (c : OriginCtx Q) (i : ℕ) (xs : List ℕ) (rest : Q.Queue ℕ)
      → IsValid c
      → Q.to_list c.empty_origins ≡ i ∷ xs
      → Q.to_list rest ≡ xs
      → Slot c i (record c { empty_origins = rest })
  unfolding holds
  reused-Slot c i xs rest v e f =
      let free : All (IsFree c.origins c.o_index) (i ∷ xs) =
        subst (All (IsFree c.origins c.o_index)) e v.free in
      let distinct : Distinct (i ∷ xs) = subst Distinct e v.distinct in
      record {
        below = free.0.0;
        same = (refl, refl);
        index = omega (arith, v.room);
        tight = λ ne. v.room;
        counts =
            λ a ne w. ground (arith, count_below-set c.origins i c.o_index a 0 w free.0.1 free.0.0);
        others = rw f (All-both xs (λ j p q. (p, λ r. q (sym r))) free.1 distinct.0);
        distinct = rw f distinct.1;
      }

  take_slot-Slot :
      (c : OriginCtx Q) (xs : List ℕ)
      → Q.to_list c.empty_origins ≡ xs
      → IsValid c
      → Slot c (take_slot c).0 (take_slot c).1
  unfolding take_slot
  take_slot-Slot c [] e v =
      rw (Q.del_first-empty c.empty_origins e, take_slot) (appended-Slot c v e)
  take_slot-Slot c (i ∷ xs) e v =
      let (rest, del, left) = Q.del_first-cons c.empty_origins i xs e in
      rw (del, take_slot) (reused-Slot c i xs rest v e left)

  -- The slot when the array has room for one more.
  record Ready (c : OriginCtx Q) (i : ℕ) (g : OriginCtx Q) : Type 0 where
    below : i < g.o_index
    sized : length g.origins ≡ g.o_size
    room : g.o_index < g.o_size
    counts :
        (a : ℕ)
        → a ≢ 0
        → (v : ℕ) → count_below (set g.origins i v) g.o_index a ≡ holds c a + bit v a
    others : All (λ j. IsFree g.origins g.o_index j × (j ≢ i)) (Q.to_list g.empty_origins)
    distinct : Distinct (Q.to_list g.empty_origins)

  grown-Ready :
      (c d : OriginCtx Q) (i : ℕ) (more : List ℕ)
      → length more ≡ default_origins_size
      → IsValid c
      → Slot c i d
      → Ready c i
          (record d { origins = d.origins ++ more; o_size = d.o_size + default_origins_size })
  grown-Ready c d i more l v s =
      let long : d.o_index ≤ length d.origins =
        omega (arith, s.index, v.sized, ap length s.same.0) in
      record {
        below = s.below;
        sized =
            omega (arith, length-append d.origins more, l, v.sized, ap length s.same.0, s.same.1);
        room = omega (arith, s.index, s.same.1);
        counts = λ a ne w. rw (set-append d.origins more i w (omega (arith, s.below, long))) (
            count_below-append (set d.origins i w) more d.o_index a
              (omega (arith, length-set d.origins i w, long))
            ∙ s.counts a ne w);
        others =
            All-mono (Q.to_list d.empty_origins)
              (λ j p. (
                (p.0.0, get_elem?-append d.origins more j (omega (arith, p.0.0, long)) ∙ p.0.1),
                p.1,
              ))
              s.others;
        distinct = s.distinct;
      }

  grow_for-Ready : (c d : OriginCtx Q) (i : ℕ) → IsValid c → Slot c i d → Ready c i (grow_for i d)
  unfolding grow_for
  grow_for-Ready c d i v s = elim (Bool-cases (i == d.o_size - 1)) [
    | inl last ↦ rw (last, grow_for) (grown-Ready c d i _ refl v s)
    | inr more ↦
        rw (more, grow_for)
          (record {
            below = s.below;
            sized = ap length s.same.0 ∙ v.sized ∙ sym s.same.1;
            room = rw s.same.1 (s.tight (λ e. ground (arith, s.same.1)));
            counts = s.counts;
            others = s.others;
            distinct = s.distinct;
          })
  ]

  -- What `add_origin` does: the slots stay well formed, and the origin stands there once more.
  pub record Filled (c : OriginCtx Q) (origin : ℕ) (d : OriginCtx Q) : Type 0 where
    pub valid : IsValid d
    pub counts : (a : ℕ) → a ≢ 0 → holds d a ≡ holds c a + bit origin a

  put_origin-Filled :
      (c g : OriginCtx Q) (i origin : ℕ) → Ready c i g → Filled c origin (put_origin origin i g)
  unfolding put_origin holds
  put_origin-Filled c g i origin r = record {
    valid = record {
      sized = length-set g.origins i origin ∙ r.sized;
      room = r.room;
      free =
          All-mono (Q.to_list g.empty_origins)
            (λ j p. (p.0.0, get_elem?-set_ne g.origins i j origin (λ e. p.1 (sym e)) ∙ p.0.1))
            r.others;
      distinct = r.distinct;
    };
    counts = λ a ne. r.counts a ne origin;
  }

  -- On well-formed slots, adding an origin keeps them well-formed, and exactly one more slot in
  -- use holds that origin.
  pub add_origin-Filled :
      (c : OriginCtx Q) (origin : ℕ) → IsValid c → Filled c origin (add_origin c origin)
  unfolding add_origin
  add_origin-Filled c origin v =
      put_origin-Filled c _ _ origin (grow_for-Ready c _ _ v (take_slot-Slot c _ refl v))
