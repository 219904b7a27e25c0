-- ===== src/Examples/Serial.antt =====
-- A buffer and a function written and read, over trees.
use ffi_rpc.Base.{◌≡◌, refl, some, [], ◌∷◌, arith}
use ffi_rpc.Types.{rpc_number, rpc_string, rpc_none}
use ffi_rpc.Ext.JsonModel.{trees}
use ffi_rpc.World.{SizedBuf, RpcFunction, a_sizedbuf}
use ffi_rpc.World.Cmd.{ok, fault}
use ffi_rpc.Objects.{put_object}
use ffi_rpc.Serial.{
  serialize_sizedbuf, deserialize_sizedbuf, serialize_function, deserialize_function,
}
use ffi_rpc.Serial.Buffers.{deserialize-serialize}
use ffi_rpc.Serial.Functions.{Received, deserialize-serialize_function}
use ffi_rpc.Serial.Written.{sent}
use ffi_rpc.Examples.Structs.{w2}

abbrev bytes : SizedBuf
bytes = record { buf = 0 ∷ 65 ∷ 255 ∷ []; length = 3 }

deserialize-serialize_example :
    deserialize_sizedbuf trees 7 (serialize_sizedbuf trees bytes) w2
    ≡ ok 7 (put_object 7 (a_sizedbuf bytes) w2)
deserialize-serialize_example =
    deserialize-serialize trees bytes 7 w2 refl (omega arith, (omega arith, (omega arith, tt)))

abbrev callback : RpcFunction
callback = record {
  prototype = some (rpc_string ∷ rpc_number ∷ []);
  prototype_len = 2;
  return_type = rpc_none;
  fnptr = 4096;
}

deserialize-serialize_function_example :
    Received trees 7
      (sent callback)
      w2
      (deserialize_function trees 7 (serialize_function trees callback) w2)
deserialize-serialize_function_example =
    deserialize-serialize_function trees callback 7 w2 (omega arith) refl

-- A function's JSON read as a buffer.
wrong_type : deserialize_sizedbuf trees 7 (serialize_function trees callback) w2 ≡ fault
unfolding deserialize_sizedbuf serialize_function
wrong_type = refl
