-- ===== src/Wire.antt =====
-- The interface of the serialisation library that the generated code calls (TProtocol of thrift),
-- and the pieces that each generated `read` and `write` is made of (access_control/gen-cpp/
-- data_define_template_types.cpp and the services under micro_service).
pub mod Result
pub mod Protocol
pub mod Struct
pub mod Containers
pub mod Reads
pub mod ReadsAll
pub mod Throws
pub mod Safe
pub mod SafeStruct
pub mod Gives
pub mod GivesAll
pub mod Tokens
