-- ===== src/MicroService.antt =====
-- The services that thrift generates (micro_service/gen-cpp and micro_service/test/gen-cpp): their
-- clients and processors over a protocol.
pub mod Rpc
pub mod Calls
pub mod Add
pub mod Student
pub mod Remote
pub mod Multiface
pub mod Concurrent
mod Tests
