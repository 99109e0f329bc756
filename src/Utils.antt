-- ===== src/Utils.antt =====
-- cpp/src/utils: small C++ helpers, and the example of them in cpp/demo.cpp.
pub mod Text
pub mod Dispatcher
pub mod Pipe
pub mod Combinator
pub mod Generator
mod Examples
