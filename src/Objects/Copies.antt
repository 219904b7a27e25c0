-- ===== src/Objects/Copies.antt =====
-- Copies of buffers (`rpc_sizedbuf_copy`) and functions (`rpc_function_copy`).
use ffi_rpc.Base.{
  ℕ, ◌≡◌, ◌≢◌, refl, sym, ap, ◌∙◌, Bool, true, false, Option, none, some, List, [], arith, nat_eq,
  ◌==◌, nat_beq_iff, if◌then◌else◌, leb, take, length, take-length,
}
use ffi_rpc.Types.{RpcType, rpc_none}
use ffi_rpc.Ext.Libs.{Libs}
use ffi_rpc.World.{World, Object, SizedBuf, RpcFunction, a_sizedbuf, a_function, write}
use ffi_rpc.World.Cmd.{Run, ok, and_then}
use ffi_rpc.Struct.Observe.{Kind, kind, tracked}
use ffi_rpc.Struct.Invariant.{IsConsistent}
use ffi_rpc.Objects.{
  copy_sizedbuf, getbuf, copy_function, create_function, load_function, set_fnptr, set_return_type,
  set_prototype, put_object, cells,
}
use ffi_rpc.Objects.Allocation.{Puts, put-IsConsistent}

abbrev pub no_bytes : SizedBuf
no_bytes = record { buf = []; length = 0 }

module _ {L : Libs} where
  -- The outcome of a copy: only a new object, and a consistent memory.
  pub record Copied (fresh : ℕ) (x : Object L) (w : World L) (m : Run (World L) ℕ) : Type 0 where
    pub heap : ℕ → Option (Object L)
    pub runs : m ≡ ok fresh (record w { heap = heap })
    pub puts : Puts w fresh x heap
    pub consistent : IsConsistent (record w { heap = heap })

  pub write-Puts : (w : World L) (p : ℕ) (x : Object L) → Puts w p x (write w.heap p (some x))
  write-Puts w p x = record {
    here = ground (arith, nat_beq_iff p p);
    others = λ q ne. ground (arith, nat_beq_iff p q);
  }

  -- In a consistent memory, copying a live buffer whose noted length is that of its bytes to an
  -- address other than NULL that holds no object and is not tracked ends without a fault, and
  -- changes only that address: there stands the same buffer if the arguments of
  -- rpc_sizedbuf_create are evaluated from the left, and an empty one if from the right. The
  -- memory stays consistent.
  pub copy_sizedbuf-Copied :
      (left_first : Bool) (fresh p : ℕ) (w : World L) (b : SizedBuf)
      → IsConsistent w
      → w.heap p ≡ some (a_sizedbuf b)
      → length b.buf ≡ b.length
      → fresh ≢ 0
      → kind w fresh ≡ Kind.absent
      → tracked w fresh ≡ false
      → Copied fresh
          (a_sizedbuf (if left_first then b else no_bytes))
          w
          (copy_sizedbuf left_first fresh p w)
  unfolding copy_sizedbuf
  copy_sizedbuf-Copied true fresh p w b inv here sized nz free un =
      let fits : leb b.length (length b.buf) ≡ true = ground arith in
      let whole : take b.length b.buf ≡ b.buf =
        ap (λ (n : ℕ). take n b.buf) (sym sized) ∙ take-length b.buf in
      rw (here, getbuf, and_then, fits, whole)
        (record {
          heap = _;
          runs = refl;
          puts = write-Puts w fresh (a_sizedbuf b);
          consistent =
              put-IsConsistent w fresh (a_sizedbuf b) _ (write-Puts w fresh (a_sizedbuf b)) inv nz
                free un (λ k. refl);
        })
  copy_sizedbuf-Copied false fresh p w b inv here sized nz free un =
      let fits : leb 0 (length b.buf) ≡ true = ground arith in
      rw (here, getbuf, and_then, fits)
        (record {
          heap = _;
          runs = refl;
          puts = write-Puts w fresh (a_sizedbuf no_bytes);
          consistent =
              put-IsConsistent w fresh (a_sizedbuf no_bytes) _
                (write-Puts w fresh (a_sizedbuf no_bytes)) inv nz free un (λ k. refl);
        })

  pub load_function-ok :
      (w : World L) (p : ℕ) (f : RpcFunction)
      → w.heap p ≡ some (a_function f)
      → load_function p w ≡ ok f w
  unfolding load_function
  load_function-ok w p f here = rw (here, load_function) refl

  pub set_fnptr-ok :
      (w : World L) (p v : ℕ) (f : RpcFunction)
      → p ≢ 0
      → w.heap p ≡ some (a_function f)
      → set_fnptr p v w ≡ ok tt (put_object p (a_function (record f { fnptr = v })) w)
  unfolding set_fnptr
  set_fnptr-ok w p v f nz here =
      let live : (p == 0) ≡ false = ground arith in rw live (rw (load_function-ok w p f here) refl)

  set_return_type-ok :
      (w : World L) (p : ℕ) (t : RpcType) (f : RpcFunction)
      → p ≢ 0
      → w.heap p ≡ some (a_function f)
      → set_return_type p t w ≡ ok tt (put_object p (a_function (record f { return_type = t })) w)
  unfolding set_return_type
  set_return_type-ok w p t f nz here =
      let live : (p == 0) ≡ false = ground arith in rw live (rw (load_function-ok w p f here) refl)

  set_prototype-ok :
      (w : World L) (p : ℕ) (ts : Option (List RpcType)) (n : ℕ) (f : RpcFunction)
      → p ≢ 0
      → w.heap p ≡ some (a_function f)
      → length (cells ts) ≡ n
      → set_prototype p ts n w
        ≡ ok tt (
            put_object p
              (a_function (record f { prototype = some (cells ts); prototype_len = n }))
              w)
  unfolding set_prototype
  set_prototype-ok w p ts n f nz here sized =
      let live : (p == 0) ≡ false = ground arith in
      let fits : leb n (length (cells ts)) ≡ true = ground arith in
      let whole : take n (cells ts) ≡ cells ts =
        ap (λ (m : ℕ). take m (cells ts)) (sym sized) ∙ take-length (cells ts) in
      rw live (rw (load_function-ok w p f here) (rw (fits, whole) refl))

  -- Writing an object again.
  pub Puts-again :
      (w : World L) (p : ℕ) (x y : Object L) (h : ℕ → Option (Object L))
      → Puts w p x h
      → Puts w p y (write h p (some y))
  Puts-again w p x y h u =
      let v = write-Puts (record w { heap = h }) p y in
      record { here = v.here; others = λ q ne. v.others q ne ∙ u.others q ne }

  -- In a consistent memory, copying a live function whose noted prototype length is that of its
  -- prototype to an address other than NULL that holds no object and is not tracked ends without
  -- a fault, and changes only that address: there stands a function with the same address, return
  -- type, prototype and length, where a NULL prototype becomes an empty one. The memory stays
  -- consistent.
  pub copy_function-Copied :
      (fresh p : ℕ) (w : World L) (f : RpcFunction)
      → IsConsistent w
      → w.heap p ≡ some (a_function f)
      → length (cells f.prototype) ≡ f.prototype_len
      → fresh ≢ 0
      → kind w fresh ≡ Kind.absent
      → tracked w fresh ≡ false
      → Copied fresh
          (a_function (record f { prototype = some (cells f.prototype) }))
          w
          (copy_function fresh p w)
  unfolding copy_function create_function
  copy_function-Copied fresh p w f inv here sized nz free un =
      let other : p ≢ fresh = λ e. ground (arith, ap (kind w) e, here, free) in
      let blank : RpcFunction = record {
        prototype = none;
        prototype_len = 0;
        return_type = rpc_none;
        fnptr = 0;
      } in
      let f2 : RpcFunction = record blank { fnptr = f.fnptr } in
      let f3 : RpcFunction = record f2 { return_type = f.return_type } in
      let w1 : World L = put_object fresh (a_function blank) w in
      let w2 : World L = put_object fresh (a_function f2) w1 in
      let w3 : World L = put_object fresh (a_function f3) w2 in
      let u1 = write-Puts w fresh (a_function blank) in
      let u2 = Puts-again w fresh (a_function blank) (a_function f2) w1.heap u1 in
      let u3 = Puts-again w fresh (a_function f2) (a_function f3) w2.heap u2 in
      let u4 =
        Puts-again w fresh (a_function f3)
          (a_function (record f { prototype = some (cells f.prototype) })) w3.heap u3 in
      record {
        heap = _;
        runs =
            rw
              (
                load_function-ok w1 p f (u1.others p other ∙ here),
                set_fnptr-ok w1 fresh f.fnptr blank nz u1.here,
                load_function-ok w2 p f (u2.others p other ∙ here),
                set_return_type-ok w2 fresh f.return_type f2 nz u2.here,
                load_function-ok w3 p f (u3.others p other ∙ here),
                set_prototype-ok w3 fresh f.prototype f.prototype_len f3 nz u3.here sized,
              )
              refl;
        puts = u4;
        consistent = put-IsConsistent w fresh _ _ u4 inv nz free un (λ k. refl);
      }
