-- ===== src/MicroService/Remote.antt =====
-- A call through a generated client and a generated processor is a call of the handler.
pub mod Outcome
pub mod AddReads
pub mod Add
pub mod Put
