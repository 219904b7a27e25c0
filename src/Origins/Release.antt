-- ===== src/Origins/Release.antt =====
-- Releasing an origin: the loop of `rpc_struct_decrement_cb`.
use ffi_rpc.Base.{
  ℕ, zero, suc, ◌+◌, ◌-◌, ◌<◌, ◌≤◌, ◌≡◌, ◌≢◌, refl, sym, ap, ◌∙◌, inl, inr, some, List, [], ◌∷◌,
  nat_eq, ◌==◌, ltb, get_elem?, set, nat_beq_iff, count_below, All, All-mono, All-append,
  Distinct-snoc, length-set, get_elem?-set_self, get_elem?-set_ne, get_elem?-some, Bool-cases,
  arith,
}
use ffi_rpc.Ext.Queue.{QueueLib}
use ffi_rpc.Origins.{OriginCtx, free_slot, clear_at, clear_loop, clear_origin, holds}
use ffi_rpc.Origins.Invariant.{IsFree, IsValid}
use ffi_rpc.Origins.Counting.{
  count_below-suc, count_below-set, count_below-set_above, count_below_zero,
}

module _ {Q : QueueLib} where
  -- Up to `i` no cell in use holds the origin.
  abbrev Cleared : OriginCtx Q → ℕ → ℕ → Type 0
  Cleared c i origin = (k : ℕ) → k ≤ i → k ≤ c.o_index → count_below c.origins k origin ≡ 0

  -- One round of the loop, at a cell in use.
  record Round (c : OriginCtx Q) (origin i : ℕ) (d : OriginCtx Q) : Type 0 where
    valid : IsValid d
    shrinks : d.o_index ≤ c.o_index
    cleared : Cleared d (i + 1) origin
    others : (a : ℕ) → a ≢ 0 → a ≢ origin → holds d a ≡ holds c a

  module _ (c : OriginCtx Q) (origin i : ℕ) (v : IsValid c) (inside : i < c.o_index)
      (nonnull : origin ≢ 0) (before : Cleared c i origin) where
    free_slots_spared :
        get_elem? c.origins i ≡ some origin
        → All (λ j. IsFree (set c.origins i 0) c.o_index j × (j ≢ i)) (Q.to_list c.empty_origins)
    free_slots_spared found =
        All-mono (Q.to_list c.empty_origins)
          (λ j p.
            let ne : j ≢ i = λ e. nonnull (ground (arith, p.1, found)) in
            ((p.0, get_elem?-set_ne c.origins i j 0 (λ e. ne (sym e)) ∙ p.1), ne))
          v.free

    Cleared-suc :
        (xs : List ℕ) (x : ℕ)
        → get_elem? xs i ≡ some x
        → x ≢ origin
        → ((k : ℕ) → k ≤ i → count_below xs k origin ≡ 0)
        → (k : ℕ) → k ≤ i + 1
        → count_below xs k origin ≡ 0
    Cleared-suc xs x found ne upto k le = elim (Bool-cases (k == suc i)) [
      | inl e ↦
          rw ((nat_beq_iff k (suc i)).0 e)
            (ground (arith, count_below-suc xs i origin x found, upto i))
      | inr e ↦ upto k (ground (arith, nat_beq_iff k (suc i)))
    ]

    skip-Round : (x : ℕ) → get_elem? c.origins i ≡ some x → x ≢ origin → Round c origin i c
    skip-Round x found ne = record {
      valid = v;
      shrinks = omega arith;
      cleared = λ k le in_use.
          Cleared-suc c.origins x found ne (λ j jle. before j jle (omega (arith, jle, inside))) k
            le;
      others = λ a _ _. refl;
    }

    last-Round :
        get_elem? c.origins i ≡ some origin
        → i ≡ c.o_index - 1
        → Round c origin i (record c { origins = set c.origins i 0; o_index = c.o_index - 1 })
    unfolding holds
    last-Round found last = record {
      valid = record {
        sized = length-set c.origins i 0 ∙ v.sized;
        room = omega (arith, v.room);
        free =
            All-mono (Q.to_list c.empty_origins) (λ j p. (omega (arith, p.0.0, p.1, last), p.0.1))
              (free_slots_spared found);
        distinct = v.distinct;
      };
      shrinks = omega arith;
      cleared = λ k le in_use.
          count_below-set_above c.origins i k origin 0 (omega (arith, in_use, last))
          ∙ before k (omega (arith, in_use, last)) (omega (arith, in_use));
      others = λ a nz ne. ground (
        arith,
        ap (λ (n : ℕ). count_below (set c.origins i 0) n a) last,
        count_below-set_above c.origins i i a 0,
        count_below-suc c.origins i a origin found,
        ap (λ (n : ℕ). count_below c.origins n a)
            (let e : c.o_index ≡ suc i = omega (arith, last, inside) in e),
      );
    }

    queued-Round :
        get_elem? c.origins i ≡ some origin
        → Round c origin i
            (record c { origins = set c.origins i 0; empty_origins = Q.add_last c.empty_origins i })
    unfolding holds
    queued-Round found =
        let spared = free_slots_spared found in
        let zeroed : get_elem? (set c.origins i 0) i ≡ some 0 =
          get_elem?-set_self c.origins i 0 (omega (arith, v.sized, v.room, inside)) in
        record {
          valid = record {
            sized = length-set c.origins i 0 ∙ v.sized;
            room = v.room;
            free = rw (Q.to_list-add_last c.empty_origins i) (
                All-append _ (Q.to_list c.empty_origins) (i ∷ [])
                  (All-mono (Q.to_list c.empty_origins) (λ j p. p.0) spared)
                  ((inside, zeroed), tt));
            distinct = rw (Q.to_list-add_last c.empty_origins i) (
                Distinct-snoc (Q.to_list c.empty_origins) i
                  (All-mono (Q.to_list c.empty_origins) (λ j p. p.1) spared) v.distinct);
          };
          shrinks = omega arith;
          cleared = λ k le in_use.
              Cleared-suc (set c.origins i 0) 0 zeroed (λ e. nonnull (sym e))
                (λ j jle.
                  count_below-set_above c.origins i j origin 0 jle
                  ∙ before j jle (omega (arith, jle, inside)))
                k le;
          others = λ a nz ne.
              ground (arith, count_below-set c.origins i c.o_index a origin 0 found inside);
        }

    clear_at-Round : Round c origin i (clear_at origin i c)
    unfolding clear_at free_slot
    clear_at-Round =
        let (x, found) = get_elem?-some c.origins i (omega (arith, v.sized, v.room, inside)) in
        rw (found, clear_at)
          (elim (Bool-cases (x == origin)) [
            | inl hit ↦
                let same : get_elem? c.origins i ≡ some origin =
                  found ∙ ap some ((nat_beq_iff x origin).0 hit) in
                elim (Bool-cases (i == c.o_index - 1)) [
                  | inl last ↦
                      rw (hit, last) (last-Round same ((nat_beq_iff i (c.o_index - 1)).0 last))
                  | inr more ↦ rw (hit, more) (queued-Round same)
                ]
            | inr miss ↦ rw miss (skip-Round x found (λ e. ground arith))
          ])

  -- What the whole loop does from round `i` on.
  pub record Released (c : OriginCtx Q) (origin : ℕ) (d : OriginCtx Q) : Type 0 where
    pub valid : IsValid d
    pub gone : holds d origin ≡ 0
    pub others : (a : ℕ) → a ≢ 0 → a ≢ origin → holds d a ≡ holds c a

  clear_loop-Released :
      (rounds origin i : ℕ) (c : OriginCtx Q)
      → IsValid c
      → origin ≢ 0
      → Cleared c i origin
      → c.o_index ≤ i + rounds
      → Released c origin (clear_loop rounds origin i c)
  unfolding clear_loop holds
  clear_loop-Released zero origin i c v nz before enough = record {
    valid = v;
    gone = before c.o_index (omega (arith, enough)) (omega arith);
    others = λ a _ _. refl;
  }
  clear_loop-Released (suc rounds) origin i c v nz before enough =
      elim (Bool-cases (ltb i c.o_index)) [
        | inl inside ↦
            let r = clear_at-Round c origin i v (ground arith) nz before in
            let rest =
              clear_loop-Released rounds origin (i + 1) (clear_at origin i c) r.valid nz r.cleared
                (omega (arith, r.shrinks, enough)) in
            rw (inside, clear_loop)
              (record {
                valid = rest.valid;
                gone = rest.gone;
                others = λ a z ne. rest.others a z ne ∙ r.others a z ne;
              })
        | inr over ↦
            rw (over, clear_loop)
              (record {
                valid = v;
                gone = before c.o_index (ground arith) (omega arith);
                others = λ a _ _. refl;
              })
      ]

  -- On well-formed slots, clearing an origin other than NULL keeps them well-formed, leaves no
  -- slot in use that holds the origin, and leaves the number of slots that hold any other origin.
  pub clear_origin-Released :
      (c : OriginCtx Q) (origin : ℕ)
      → IsValid c
      → origin ≢ 0
      → Released c origin (clear_origin c origin)
  unfolding clear_origin
  clear_origin-Released c origin v nz =
      clear_loop-Released c.o_index origin 0 c v nz
        (λ k le in_use.
          ap (λ (n : ℕ). count_below c.origins n origin) (let e : k ≡ 0 = omega (arith, le) in e)
          ∙ count_below_zero c.origins origin)
        (omega arith)
