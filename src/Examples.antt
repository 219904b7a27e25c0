-- ===== src/Examples.antt =====
-- The theorems at concrete inputs, and runs of the code on small memories.
mod Origins
mod Structs
mod Poll
mod Network
mod Objects
mod Calls
mod Framing
mod Typed
mod Hashing
mod Client
mod Server
mod Services
mod Serial
mod Registry
mod Invoke
mod Answered
mod DeepCopy
mod Duplicates
mod StructJson
mod Exchange
