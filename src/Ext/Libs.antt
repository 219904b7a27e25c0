-- ===== src/Ext/Libs.antt =====
-- What a build of the program links against.
use ffi_rpc.Base.{ℕ, String, nat_eq, string_eq}
use ffi_rpc.Ext.Hash.{HashMap}
use ffi_rpc.Ext.Queue.{QueueLib}

-- Tables keyed by addresses (`HASHMAP(void,void)`, compared by `ptracker_ptr_cmp`) and by names
-- (`HASHMAP(char,...)`, compared by `strcmp`), and queues.
pub record Libs : Type 1 where
  pub by_ptr : HashMap ℕ
  pub by_name : HashMap String
  pub queues : QueueLib
