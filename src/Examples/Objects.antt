-- ===== src/Examples/Objects.antt =====
-- A buffer and a function, copied.
use ffi_rpc.Base.{refl, arith, if◌then◌else◌, true, some, [], ◌∷◌}
use ffi_rpc.Ext.Models.{example_libs}
use ffi_rpc.Types.{rpc_number, rpc_struct}
use ffi_rpc.World.{World, Object, SizedBuf, RpcFunction, a_sizedbuf, a_function}
use ffi_rpc.Struct.Invariant.{IsConsistent}
use ffi_rpc.Struct.Session.{empty_world, empty_world-IsConsistent}
use ffi_rpc.Objects.{put_object, copy_sizedbuf, copy_function, cells}
use ffi_rpc.Objects.Allocation.{put-IsConsistent}
use ffi_rpc.Objects.Copies.{
  Copied, no_bytes, write-Puts, copy_sizedbuf-Copied, copy_function-Copied,
}

abbrev bytes : SizedBuf
bytes = record { buf = 104 ∷ 105 ∷ []; length = 2 }

abbrev adder : RpcFunction
adder = record {
  prototype = some (rpc_number ∷ rpc_struct ∷ []);
  prototype_len = 2;
  return_type = rpc_number;
  fnptr = 4096;
}

abbrev with_object : Object example_libs → World example_libs
with_object x = put_object 1 x empty_world

IsConsistent-buffer : IsConsistent (with_object (a_sizedbuf bytes))
IsConsistent-buffer =
    put-IsConsistent empty_world 1 (a_sizedbuf bytes) _
      (write-Puts empty_world 1 (a_sizedbuf bytes)) empty_world-IsConsistent (omega arith) refl refl
      (λ k. refl)

IsConsistent-adder : IsConsistent (with_object (a_function adder))
IsConsistent-adder =
    put-IsConsistent empty_world 1 (a_function adder) _
      (write-Puts empty_world 1 (a_function adder)) empty_world-IsConsistent (omega arith) refl refl
      (λ k. refl)

copy_sizedbuf-Copied_example :
    Copied 2
      (a_sizedbuf (if true then bytes else no_bytes))
      (with_object (a_sizedbuf bytes))
      (copy_sizedbuf true 2 1 (with_object (a_sizedbuf bytes)))
copy_sizedbuf-Copied_example =
    copy_sizedbuf-Copied true 2 1 (with_object (a_sizedbuf bytes)) bytes IsConsistent-buffer refl
      refl (omega arith) refl refl

copy_function-Copied_example :
    Copied 2
      (a_function (record adder { prototype = some (cells adder.prototype) }))
      (with_object (a_function adder))
      (copy_function 2 1 (with_object (a_function adder)))
copy_function-Copied_example =
    copy_function-Copied 2 1 (with_object (a_function adder)) adder IsConsistent-adder refl refl
      (omega arith) refl refl
