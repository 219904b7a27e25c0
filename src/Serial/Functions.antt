-- ===== src/Serial/Functions.antt =====
-- Reading the JSON of a function gives it again, but for its address.
use ffi_rpc.Base.{
  ℕ, ◌≡◌, ◌≢◌, refl, subst, ◌∙◌, false, Option, none, some, string_eq, nat_eq, ◌==◌, length,
  nat_beq_iff, arith,
}
use ffi_rpc.Ext.Libs.{Libs}
use ffi_rpc.Ext.Json.{Jansson}
use ffi_rpc.World.{World, RpcFunction, a_function, Object, write}
use ffi_rpc.World.Cmd.{Run, ok}
use ffi_rpc.Objects.Allocation.{Puts}
use ffi_rpc.Objects.Copies.{write-Puts, Puts-again, set_fnptr-ok}
use ffi_rpc.Objects.{cells, put_object, create_function, function_free}
use ffi_rpc.Serial.{ReadFunction, is_text, serialize_function, read_function, deserialize_function}
use ffi_rpc.Struct.{prec_get, free_function_internal}
use ffi_rpc.Serial.Arrays.{written, is_text-string}
use ffi_rpc.Serial.Written.{sent, blank, read_function-ok, serialize_function-Written}

module _ (J : Jansson) where
  module _ {L : Libs} where
    -- What reading a function leaves: the function that was made, and nothing else changed.
    pub record Received (fresh : ℕ) (f : ReadFunction) (w : World L)
        (m : Run (World L) (Option ReadFunction)) : Type 0 where
      pub heap : ℕ → Option (Object L)
      pub runs : m ≡ ok (some f) (record w { heap = heap })
      pub puts : Puts w fresh (a_function blank) heap

    deserialize_function-ok :
        (fresh : ℕ) (json : J.Json) (w : World L)
        → fresh ≢ 0
        → J.object_get json "type" ≡ some (J.string "RPC_function")
        → Received fresh (read_function J json) w (deserialize_function J fresh json w)
    unfolding deserialize_function create_function
    deserialize_function-ok fresh json w nz type =
        let w1 : World L = put_object fresh (a_function blank) w in
        let u1 = write-Puts w fresh (a_function blank) in
        record {
          heap = _;
          runs =
              rw (set_fnptr-ok w1 fresh 0 blank nz u1.here, type, is_text-string J "RPC_function")
                refl;
          puts = Puts-again w fresh (a_function blank) (a_function blank) w1.heap u1;
        }

    -- For a function whose noted prototype length is that of its prototype,
    -- rpc_function_deserialize of what rpc_function_serialize wrote, at a new address other than
    -- NULL, gives the return type and the prototype, which is NULL if it has no types, without
    -- the function's address, and changes no other address.
    pub deserialize-serialize_function :
        (f : RpcFunction) (fresh : ℕ) (w : World L)
        → fresh ≢ 0
        → length (cells f.prototype) ≡ f.prototype_len
        → Received fresh (sent f) w (deserialize_function J fresh (serialize_function J f) w)
    deserialize-serialize_function f fresh w nz sized =
        let (proto, written, same) = serialize_function-Written J f sized in
        subst
          (λ (r : ReadFunction).
            Received fresh r w (deserialize_function J fresh (serialize_function J f) w))
          (read_function-ok J (serialize_function J f) proto f.return_type written.prototype
              written.returned
            ∙ same)
          (deserialize_function-ok fresh (serialize_function J f) w nz written.type)

    -- What refusing leaves: nothing at the address, and nothing else changed.
    pub record Refused (fresh : ℕ) (w : World L) (m : Run (World L) (Option ReadFunction))
        : Type 0 where
      pub heap : ℕ → Option (Object L)
      pub runs : m ≡ ok none (record w { heap = heap })
      pub here : heap fresh ≡ none
      pub others : (q : ℕ) → q ≢ fresh → heap q ≡ w.heap q

    function_free-ok :
        (p : ℕ) (f : RpcFunction) (w : World L)
        → p ≢ 0
        → prec_get p w ≡ none
        → w.heap p ≡ some (a_function f)
        → function_free p w ≡ ok tt (record w { heap = write w.heap p none })
    unfolding function_free free_function_internal
    function_free-ok p f w nz un here =
        let live : (p == 0) ≡ false = ground (arith, nz) in
        rw (live, un, free_function_internal, here) refl

    -- At an address other than NULL that is not tracked, rpc_function_deserialize of a value
    -- whose type is not RPC_function gives NULL, frees the function that it made, and changes no
    -- other address.
    pub deserialize_function-Refused :
        (fresh : ℕ) (json : J.Json) (w : World L)
        → fresh ≢ 0
        → prec_get fresh w ≡ none
        → is_text J "RPC_function" (J.object_get json "type") ≡ false
        → Refused fresh w (deserialize_function J fresh json w)
    unfolding deserialize_function create_function
    deserialize_function-Refused fresh json w nz un other =
        let w1 : World L = put_object fresh (a_function blank) w in
        let u1 = write-Puts w fresh (a_function blank) in
        let u2 = Puts-again w fresh (a_function blank) (a_function blank) w1.heap u1 in
        let w2 : World L = put_object fresh (a_function blank) w1 in
        record {
          heap = write (write w1.heap fresh (some (a_function blank))) fresh none;
          runs =
              rw
                (
                  set_fnptr-ok w1 fresh 0 blank nz u1.here,
                  other,
                  function_free-ok fresh blank w2 nz un u2.here,
                )
                refl;
          here = ground (arith, nat_beq_iff fresh fresh);
          others = λ q ne. ground (arith, nat_beq_iff fresh q, u2.others q ne);
        }
