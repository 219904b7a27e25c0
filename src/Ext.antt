-- ===== src/Ext.antt =====
-- The two vendored container libraries that the program calls, as interfaces: the hash table of
-- include/ffirpc/hashmap and the queue of include/ffirpc/sc_queue.h. They are other projects'
-- code, so they are parameters, and their laws are what their own comments document.
-- No allocation fails: the program asserts the result of every `malloc` and `hashmap_put`.
pub mod Hash
pub mod Queue
pub mod Json
pub mod JsonValues
pub mod Libs
pub mod Models
pub mod JsonModel
pub mod TreeText
