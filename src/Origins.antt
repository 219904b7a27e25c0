-- ===== src/Origins.antt =====
-- The slots in which a tracked pointer remembers the structs that hold it under one key:
-- `rpc_struct_prec_ctx` of src/rpc_struct.c, as the callbacks `rpc_struct_increment_cb` and
-- `rpc_struct_decrement_cb` work on it. An address is a number, and NULL is 0.
pub mod Counting
pub mod Invariant
pub mod Release
use ffi_rpc.Base.{
  ℕ, zero, suc, ◌+◌, ◌-◌, true, false, none, some, List, ◌++◌, ◌==◌, nat_eq, ltb, if◌then◌else◌,
  get_elem?, set, replicate, count_below,
}
use ffi_rpc.Ext.Queue.{QueueLib}

-- `RPC_STRUCT_PREC_CTX_DEFAULT_ORIGINS_SIZE`
abbrev pub default_origins_size : ℕ
default_origins_size = 16

module _ (Q : QueueLib) where
  pub record OriginCtx : Type 0 where
    pub origins : List ℕ
    pub o_index : ℕ
    pub o_size : ℕ
    pub empty_origins : Q.Queue ℕ

module _ {Q : QueueLib} where
  -- A fresh context. The cells that `malloc` leaves unset are 0 here; none is read before it is
  -- written.
  unfoldable pub create : OriginCtx Q
  create = record {
    origins = replicate default_origins_size 0;
    o_index = 0;
    o_size = default_origins_size;
    empty_origins = Q.init ℕ;
  }

  -- The index for a new origin: a free slot if one is queued, else the next one.
  unfoldable pub take_slot : OriginCtx Q → ℕ × OriginCtx Q
  take_slot c = elim (Q.del_first c.empty_origins) [
    | none ↦ (c.o_index, record c { o_index = suc c.o_index })
    | some (i, rest) ↦ (i, record c { empty_origins = rest })
  ]

  -- The `realloc` when the slot is the last one.
  unfoldable pub grow_for : ℕ → OriginCtx Q → OriginCtx Q
  grow_for index c =
      if index == c.o_size - 1
      then record c {
        origins = c.origins ++ replicate default_origins_size 0;
        o_size = c.o_size + default_origins_size;
      }
      else c

  unfoldable pub put_origin : ℕ → ℕ → OriginCtx Q → OriginCtx Q
  put_origin origin index c = record c { origins = set c.origins index origin }

  unfoldable pub add_origin : OriginCtx Q → ℕ → OriginCtx Q
  unfolding take_slot grow_for put_origin
  add_origin c origin = let (index, c') = take_slot c in put_origin origin index (grow_for index c')

  -- The body of the loop for a slot that holds the origin.
  unfoldable pub free_slot : ℕ → OriginCtx Q → OriginCtx Q
  free_slot i c =
      if i == c.o_index - 1
      then record c { origins = set c.origins i 0; o_index = c.o_index - 1 }
      else record c { origins = set c.origins i 0; empty_origins = Q.add_last c.empty_origins i }

  unfoldable pub clear_at : ℕ → ℕ → OriginCtx Q → OriginCtx Q
  clear_at origin i c = elim (get_elem? c.origins i) [
    | none ↦ c
    | some x ↦ if x == origin then free_slot i c else c
  ]

  -- The loop `for(int i = 0; i < ctx->o_index; i++)`. Its bound never grows, so `o_index` rounds
  -- are enough.
  unfoldable pub clear_loop : ℕ → ℕ → ℕ → OriginCtx Q → OriginCtx Q
  clear_loop zero origin i c = c
  clear_loop (suc rounds) origin i c = elim (ltb i c.o_index) [
    | true ↦ clear_loop rounds origin (i + 1) (clear_at origin i c)
    | false ↦ c
  ]

  unfoldable pub clear_origin : OriginCtx Q → ℕ → OriginCtx Q
  unfolding clear_loop clear_at free_slot
  clear_origin c origin = clear_loop c.o_index origin 0 c

  -- How often a struct stands among the origins in use.
  unfoldable pub holds : OriginCtx Q → ℕ → ℕ
  holds c a = count_below c.origins c.o_index a
