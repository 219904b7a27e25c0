-- ===== src/Examples/Invoke.antt =====
-- A calculator at 1, the arguments of a call at 2, and its functions at 4 and 5.
use ffi_rpc.Base.{
  ℕ, zero, suc, ◌≡◌, refl, Option, Bool, true, false, none, some, List, [], ◌∷◌, String, arith,
}
use ffi_rpc.Types.{Element, rpc_none, rpc_number, rpc_string, rpc_function}
use ffi_rpc.Ext.Models.{example_libs}
use ffi_rpc.World.{RpcStruct, RpcFunction, Object, a_struct, a_function, write}
use ffi_rpc.World.Cmd.{ok, fault}
use ffi_rpc.Invoke.{
  FfiType, ffi_uint64, ffi_void, LibFfi, err_prototype_different, Calling, cobject_call,
}
use ffi_rpc.Invoke.Errors.{Callable, cobject_call-refuses}
use ffi_rpc.Invoke.Accepted.{cobject_call-faults}
use ffi_rpc.Examples.Structs.{W}

abbrev pub struct_of : String → List (String × Element) → RpcStruct example_libs
struct_of id elements = record { map = elements; id = id; copyof = 0; manual_destructor = 0 }

abbrev pub number : ℕ → Element
number n = record { word = n; text = ""; length = 8; type = rpc_number }

abbrev pub function_at : ℕ → Element
function_at p = record { word = p; text = ""; length = 0; type = rpc_function }

abbrev pub negate : RpcFunction
negate = record {
  prototype = some (rpc_number ∷ []);
  prototype_len = 1;
  return_type = rpc_number;
  fnptr = 4096;
}

abbrev pub print : RpcFunction
print = record {
  prototype = some (rpc_string ∷ []);
  prototype_len = 1;
  return_type = rpc_none;
  fnptr = 8192;
}

abbrev pub calculator : RpcStruct example_libs
calculator = struct_of "C" (("negate", function_at 4) ∷ ("print", function_at 5) ∷ [])

abbrev pub arguments : RpcStruct example_libs
arguments = struct_of "A" (("0", number 7) ∷ ("1", number 8) ∷ [])

abbrev pub heap : ℕ → Option (Object example_libs)
heap =
    write
      (write
        (write (write (λ p. none) 1 (some (a_struct calculator))) 2 (some (a_struct arguments))) 4
        (some (a_function negate)))
      5 (some (a_function print))

abbrev pub memory : W
memory = record { ptracker = example_libs.by_ptr.init _; heap = heap; destroyed = [] }

abbrev pub decimal : ℕ → String
decimal zero = "0"
decimal (suc zero) = "1"
decimal (suc (suc i)) = "many"

abbrev pub cache_key : String → String → String
cache_key id fn_name = fn_name

abbrev pub no_text : ℕ → String
no_text p = ""

-- libffi refuses arguments and results without a type only for arguments.
abbrev pub no_void : List FfiType → Bool
no_void [] = true
no_void (ffi_void ∷ types) = false
no_void (_ ∷ types) = no_void types

abbrev pub answers : LibFfi example_libs
answers = record {
  prep_cif_var = λ fixed total rtype types. no_void types;
  call = λ fnptr rtype types args c w. ok (42, c) w;
}

abbrev pub fresh : Calling example_libs
fresh = record {
  objects = record { cobject_bname = 10; cobject_bid = 11; protocache = 12; lobjects = 0 };
  protocache = example_libs.by_name.init (List FfiType);
  object_stack = example_libs.queues.init ℕ;
}

-- A prototype that a call with one argument left.
abbrev cached : Calling example_libs
cached = record fresh {
  protocache = (example_libs.by_name.put fresh.protocache "negate" (ffi_uint64 ∷ [])).0;
}

can_negate : Callable 1 "negate" 2 memory (function_at 4) negate arguments
can_negate = record {
  object = refl;
  object_nonnull = omega arith;
  held = refl;
  typed = refl;
  range = omega arith;
  function = refl;
  arguments = refl;
  arguments_nonnull = omega arith;
}

can_print : Callable 1 "print" 2 memory (function_at 5) print arguments
can_print = record {
  object = refl;
  object_nonnull = omega arith;
  held = refl;
  typed = refl;
  range = omega arith;
  function = refl;
  arguments = refl;
  arguments_nonnull = omega arith;
}

cobject_call-refuses_example :
    cobject_call decimal cache_key no_text answers 1 "print" 2 3 fresh memory
    ≡ ok (err_prototype_different, fresh) memory
cobject_call-refuses_example =
    cobject_call-refuses decimal cache_key no_text answers 1 "print" 2 3 fresh memory
      (function_at 5) print arguments can_print (λ h. absurd (ground (arith, h.1.0)))

cobject_call-faults_example :
    cobject_call decimal cache_key no_text answers 1 "negate" 2 3 cached memory ≡ fault
cobject_call-faults_example =
    cobject_call-faults decimal cache_key no_text answers 1 "negate" 2 3 cached memory
      (function_at 4) negate arguments calculator can_negate refl (omega arith, (refl, tt))
      (ffi_uint64 ∷ []) refl (omega arith)
