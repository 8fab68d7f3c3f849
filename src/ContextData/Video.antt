-- ===== src/ContextData/Video.antt =====
-- The three kinds of video of the context (access_control/gen-cpp/data_define_template_types.h
-- and .cpp).
mod Short
mod Ecom
mod Living
unfoldable pub use Short.*
unfoldable pub use Ecom.*
unfoldable pub use Living.*
