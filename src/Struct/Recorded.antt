-- ===== src/Struct/Recorded.antt =====
-- How often the context of a tracked pointer records a struct under a key, and how the two callbacks
-- change that.
use ffi_rpc.Base.{
  ℕ, ◌+◌, ◌≡◌, ◌≢◌, refl, ap, ◌∙◌, inl, inr, Option, some, none, String, nat_eq, string_eq, ◌==◌,
  if◌then◌else◌, ◌&&◌, Option-cases, count_below, arith,
}
use ffi_rpc.Ext.Queue.{QueueLib}
use ffi_rpc.Ext.Libs.{Libs}
use ffi_rpc.Origins
use ffi_rpc.Origins.{OriginCtx}
use ffi_rpc.Origins.Counting.{bit, count_below_zero}
use ffi_rpc.Origins.Invariant
use ffi_rpc.Origins.Release
use ffi_rpc.World.{PtrCtx}
use ffi_rpc.Struct.{record_origin, drop_ctx, drop_origin}

holds_empty : {Q : QueueLib} (c : OriginCtx Q) (a : ℕ) → c.o_index ≡ 0 → Origins.holds c a ≡ 0
unfolding Origins.holds
holds_empty c a e = ap (λ (n : ℕ). count_below c.origins n a) e ∙ count_below_zero c.origins a

module _ {L : Libs} where
  abbrev pub recorded_in : String → ℕ → PtrCtx L → ℕ
  recorded_in k a x = elim (L.by_name.get x.keys k) [ none ↦ 0 | some c ↦ Origins.holds c a ]

  abbrev pub recorded_at : String → ℕ → Option (PtrCtx L) → ℕ
  recorded_at k a none = 0
  recorded_at k a (some x) = recorded_in k a x

  -- Every key's slots are well formed.
  abbrev pub IsValidCtx : PtrCtx L → Type 0
  IsValidCtx x =
      (k : String) (c : OriginCtx L.queues) → L.by_name.get x.keys k ≡ some c → Invariant.IsValid c

  module _ (name : String) (origin : ℕ) (nonnull : origin ≢ 0) (x : PtrCtx L) where
    drop_ctx-recorded_in :
        (c : OriginCtx L.queues)
        → L.by_name.get x.keys name ≡ some c
        → Invariant.IsValid c
        → (k : String) (a : ℕ) → a ≢ 0
        → recorded_in k a (drop_ctx name origin x c)
          ≡ (if (name == k) && (origin == a) then 0 else recorded_in k a x)
    unfolding drop_ctx
    drop_ctx-recorded_in c e v k a nz =
        let r = Release.clear_origin-Released c origin v nonnull in
        let c' = Origins.clear_origin c origin in
        ground (
          arith,
          string_eq.same_iff name k,
          L.by_name.get-remove x.keys name k,
          L.by_name.get-store x.keys name k c c' e,
          r.gone,
          r.others a nz,
          holds_empty c' a,
        )

    drop_ctx-IsValidCtx :
        (c : OriginCtx L.queues)
        → L.by_name.get x.keys name ≡ some c
        → IsValidCtx x
        → IsValidCtx (drop_ctx name origin x c)
    unfolding drop_ctx
    drop_ctx-IsValidCtx c e v k d =
        let r = Release.clear_origin-Released c origin (v name c e) nonnull in
        let c' = Origins.clear_origin c origin in
        ground (
          arith,
          string_eq.same_iff name k,
          L.by_name.get-remove x.keys name k,
          L.by_name.get-store x.keys name k c c' e,
          v k d,
        )

    pub drop_origin-recorded_in :
        IsValidCtx x
        → (k : String) (a : ℕ) → a ≢ 0
        → recorded_in k a (drop_origin name origin x)
          ≡ (if (name == k) && (origin == a) then 0 else recorded_in k a x)
    unfolding drop_origin
    drop_origin-recorded_in v k a nz = elim (Option-cases (L.by_name.get x.keys name)) [
      | inl e ↦ rw (e, drop_origin) (ground (arith, string_eq.same_iff name k))
      | inr (c, e) ↦ rw (e, drop_origin) (drop_ctx-recorded_in c e (v name c e) k a nz)
    ]

    pub drop_origin-IsValidCtx : IsValidCtx x → IsValidCtx (drop_origin name origin x)
    unfolding drop_origin
    drop_origin-IsValidCtx v = elim (Option-cases (L.by_name.get x.keys name)) [
      | inl e ↦ rw (e, drop_origin) v
      | inr (c, e) ↦ rw (e, drop_origin) (drop_ctx-IsValidCtx c e v)
    ]

    pub drop_origin-free : (drop_origin name origin x).free ≡ x.free
    unfolding drop_origin drop_ctx
    drop_origin-free = ground arith

    pub record_origin-recorded_in :
        IsValidCtx x
        → (k : String) (a : ℕ) → a ≢ 0
        → recorded_in k a (record_origin name origin x)
          ≡ recorded_in k a x + (if name == k then bit origin a else 0)
    unfolding record_origin
    record_origin-recorded_in v k a nz = elim (Option-cases (L.by_name.get x.keys name)) [
      | inl e ↦
          rw (e, record_origin)
            (ground (
              arith,
              string_eq.same_iff name k,
              L.by_name.get-put x.keys name k (Origins.add_origin Origins.create origin) e,
              (Invariant.add_origin-Filled {Q = L.queues} Origins.create origin
                    Invariant.create-IsValid).counts
                  a nz,
              holds_empty {Q = L.queues} Origins.create a (unfold Origins.create in refl),
            ))
      | inr (c, e) ↦
          rw (e, record_origin)
            (ground (
              arith,
              string_eq.same_iff name k,
              L.by_name.get-store x.keys name k c (Origins.add_origin c origin) e,
              (Invariant.add_origin-Filled c origin (v name c e)).counts a nz,
            ))
    ]

    pub record_origin-IsValidCtx : IsValidCtx x → IsValidCtx (record_origin name origin x)
    unfolding record_origin
    record_origin-IsValidCtx v k d = elim (Option-cases (L.by_name.get x.keys name)) [
      | inl e ↦
          rw (e, record_origin)
            (ground (
              arith,
              string_eq.same_iff name k,
              L.by_name.get-put x.keys name k (Origins.add_origin Origins.create origin) e,
              (Invariant.add_origin-Filled {Q = L.queues} Origins.create origin
                  Invariant.create-IsValid).valid,
              v k d,
            ))
      | inr (c, e) ↦
          rw (e, record_origin)
            (ground (
              arith,
              string_eq.same_iff name k,
              L.by_name.get-store x.keys name k c (Origins.add_origin c origin) e,
              (Invariant.add_origin-Filled c origin (v name c e)).valid,
              v k d,
            ))
    ]

    pub record_origin-free : (record_origin name origin x).free ≡ x.free
    unfolding record_origin
    record_origin-free = ground arith
