-- ===== src/ContextData/Members.antt =====
-- Copies, swaps and setters of the context's classes
-- (access_control/gen-cpp/data_define_template_types.cpp).
pub mod Parts
pub mod All
pub mod Arrives
