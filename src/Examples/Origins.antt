-- ===== src/Examples/Origins.antt =====
-- Slots that were filled and freed.
use ffi_rpc.Base.{◌≡◌, refl, arith}
use ffi_rpc.Ext.Models.{list_queue}
use ffi_rpc.Origins.{OriginCtx, create, add_origin, clear_origin}
use ffi_rpc.Origins.Invariant.{IsValid, Filled, create-IsValid, add_origin-Filled}
use ffi_rpc.Origins.Release.{Released, clear_origin-Released}

abbrev one : OriginCtx list_queue
one = add_origin create 5

abbrev two : OriginCtx list_queue
two = add_origin one 6

IsValid-two : IsValid two
IsValid-two = (add_origin-Filled one 6 (add_origin-Filled create 5 create-IsValid).valid).valid

add_origin-Filled_example : Filled two 5 (add_origin two 5)
add_origin-Filled_example = add_origin-Filled two 5 IsValid-two

clear_origin-Released_example : Released two 5 (clear_origin two 5)
clear_origin-Released_example = clear_origin-Released two 5 IsValid-two (omega arith)

-- The freed slot is used again.
reuse : (add_origin (clear_origin two 5) 7).o_index ≡ 2
unfolding add_origin clear_origin create
reuse = refl
