-- ===== src/StructJson.antt =====
-- Structs as JSON: `rpc_struct_serialize`, `rpc_struct_deserialize` and `rpc_struct_id_set` of
-- src/rpc_struct.c, over jansson as a parameter. Structs and arrays nest, so the depth is fuel.
-- `malloc` is the argument `fresh`, `new_id` the random ID of a new struct, and `next_block` where
-- `realloc` puts the array of duplicates. An object is put into another when it is full.
pub mod Write
pub mod Parts
pub mod Read
pub mod Flat
pub mod Received
pub mod Copied
pub mod Sent
pub mod Message
pub mod Arrival
pub mod RoundTrip
