-- ===== src/ContextData.antt =====
-- access_control/gen-cpp/data_define_template_types.h and .cpp: the structures of the context and
-- their transfer over a protocol.
pub mod Orders
pub mod User
pub mod Config
pub mod Item
pub mod Video
pub mod Context
pub mod RoundTrip
pub mod Terminates
pub mod Returns
pub mod Equality
pub mod Members
pub mod AnyOrder
pub mod Examples
mod Tests
