-- ===== src/Serial/Written.antt =====
-- The JSON of a function, and what its parts read as.
use ffi_rpc.Base.{
  ℕ, zero, suc, ◌%◌, ◌^◌, ◌<◌, ◌≡◌, refl, ap, ◌∙◌, true, Option, none, some, List, [], ◌∷◌,
  string_eq, All, take, length, map, length-map, arith,
}
use ffi_rpc.Types.{RpcType, value_of, rpc_none}
use ffi_rpc.Ext.Json.{Jansson}
use ffi_rpc.World.{RpcFunction}
use ffi_rpc.Objects.{cells}
use ffi_rpc.Serial.{
  ReadFunction, append_all, with_prototype, serialize_function, int_value, function_of,
  read_function,
}
use ffi_rpc.Serial.Arrays.{
  size-append_all, values_of-append_all, typed, is_object-written, get-written, type-written,
}

value_of-small : (t : RpcType) → value_of t < 2 ^ 32
unfolding value_of
value_of-small rpc_none = omega arith
value_of-small _ = omega arith

types_small : (ts : List RpcType) → All (λ (n : ℕ). n < 2 ^ 64) (map value_of ts)
types_small [] = tt
types_small (t ∷ ts) = (omega (arith, value_of-small t), types_small ts)

types_back : (ts : List RpcType) → map (λ n. n % 2 ^ 32) (map value_of ts) ≡ map value_of ts
types_back [] = refl
types_back (t ∷ ts) =
    rw (types_back ts) (ap (λ (n : ℕ). n ∷ map value_of ts) (omega (arith, value_of-small t)))

-- The prototype that is sent: none of no types, and with as many types as the function notes.
abbrev pub sent_prototype : Option (List RpcType) → ℕ → Option (List ℕ)
sent_prototype none len = none
sent_prototype (some ts) zero = none
sent_prototype (some ts) (suc len) = some (map value_of (take (suc len) ts))

abbrev pub sent_length : Option (List RpcType) → ℕ → ℕ
sent_length none len = 0
sent_length (some ts) len = length (take len ts)

-- What the other side learns of a function: not its address.
abbrev pub sent : RpcFunction → ReadFunction
sent f = record {
  prototype = sent_prototype f.prototype f.prototype_len;
  prototype_len = sent_length f.prototype f.prototype_len;
  return_type = value_of f.return_type;
  fnptr = 0;
}

-- A function as `rpc_function_create` makes it.
abbrev pub blank : RpcFunction
blank = record { prototype = none; prototype_len = 0; return_type = rpc_none; fnptr = 0 }

module _ (J : Jansson) where
  int_value-type : (t : RpcType) → int_value J (some (J.integer (value_of t))) ≡ value_of t
  unfolding int_value
  int_value-type t =
      rw (J.integer_value-integer (value_of t) (omega (arith, value_of-small t)))
        (omega (arith, value_of-small t))

  -- What is read of an object with that prototype and return type.
  pub read_function-ok :
      (json : J.Json) (proto : Option J.Json) (t : RpcType)
      → J.object_get json "prototype" ≡ proto
      → J.object_get json "return_type" ≡ some (J.integer (value_of t))
      → read_function J json ≡ function_of J proto (value_of t)
  unfolding read_function
  read_function-ok json proto t there returned =
      (λ i. function_of J (there i) (int_value J (returned i)))
      ∙ ap (function_of J proto) (int_value-type t)

  function_of-ok :
      (ts : List RpcType) (t : ℕ)
      → function_of J (some (append_all J J.array (map value_of ts))) t ≡ record {
        prototype = some (map value_of ts);
        prototype_len = length ts;
        return_type = t;
        fnptr = 0;
      }
  unfolding function_of
  function_of-ok ts t =
      let size : J.array_size (append_all J J.array (map value_of ts)) ≡ length ts = omega (
        arith,
        size-append_all J J.array (map value_of ts) J.is_array-array,
        J.size-array,
        length-map value_of ts,
      ) in
      λ i. record {
        prototype = some (
            (ap (map (λ n. n % 2 ^ 32)) (values_of-append_all J (map value_of ts) (types_small ts))
                ∙ types_back ts)
              i);
        prototype_len = size i;
        return_type = t;
        fnptr = 0;
      }

  abbrev pub head : RpcFunction → J.Json
  head f =
      J.object_set_new (J.object_set_new J.object "type" (J.string "RPC_function")) "return_type"
        (J.integer (value_of f.return_type))

  -- The written object by the prototype and its length.
  pub record Written (root : J.Json) (proto : Option J.Json) (t : ℕ) : Type 0 where
    pub type : J.object_get root "type" ≡ some (J.string "RPC_function")
    pub returned : J.object_get root "return_type" ≡ some (J.integer t)
    pub prototype : J.object_get root "prototype" ≡ proto

  head-Written : (f : RpcFunction) → Written (head f) none (value_of f.return_type)
  head-Written f = record {
    type = type-written J "RPC_function" "return_type" (J.integer (value_of f.return_type)) refl;
    returned = get-written J "RPC_function" "return_type" (J.integer (value_of f.return_type)) refl;
    prototype = ground (
      arith,
      J.get-set (typed J "RPC_function" "return_type" (J.integer (value_of f.return_type)) refl)
          "return_type" "prototype" (J.integer (value_of f.return_type)),
      J.get-set J.object "type" "prototype" (J.string "RPC_function"),
      J.is_object-set J.object "type" (J.string "RPC_function"),
      J.is_object-object,
      J.get-object "prototype",
    );
  }

  full-Written :
      (f : RpcFunction) (array : J.Json)
      → Written (J.object_set_new (head f) "prototype" array) (some array) (value_of f.return_type)
  full-Written f array =
      let h = head-Written f in
      let object : J.is_object (head f) ≡ true =
        is_object-written J "RPC_function" "return_type" (J.integer (value_of f.return_type))
          refl in
      record {
        type = ground (arith, J.get-set (head f) "prototype" "type" array object, h.type);
        returned =
            ground (arith, J.get-set (head f) "prototype" "return_type" array object, h.returned);
        prototype = ground (arith, J.get-set (head f) "prototype" "prototype" array object);
      }

  -- The object that is written, and what its prototype reads as.
  abbrev pub IsWritten : RpcFunction → J.Json → Type 0
  IsWritten f root =
      (proto : Option J.Json) × Written root proto (value_of f.return_type)
      × (function_of J proto (value_of f.return_type) ≡ sent f)

  with_prototype-IsWritten :
      (f : RpcFunction) (ts : Option (List RpcType)) (n : ℕ)
      → length (cells ts) ≡ n
      → IsWritten (record f { prototype = ts; prototype_len = n }) (with_prototype J (head f) ts n)
  unfolding with_prototype function_of
  with_prototype-IsWritten f none n sized = (none, head-Written f, refl)
  with_prototype-IsWritten f (some ts) zero sized = (none, head-Written f, refl)
  with_prototype-IsWritten f (some ts) (suc n) sized = (
    some (append_all J J.array (map value_of (take (suc n) ts))),
    full-Written f (append_all J J.array (map value_of (take (suc n) ts))),
    function_of-ok (take (suc n) ts) (value_of f.return_type),
  )

  pub serialize_function-Written :
      (f : RpcFunction)
      → length (cells f.prototype) ≡ f.prototype_len
      → IsWritten f (serialize_function J f)
  unfolding serialize_function
  serialize_function-Written f sized = with_prototype-IsWritten f f.prototype f.prototype_len sized
