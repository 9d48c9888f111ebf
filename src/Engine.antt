-- ===== src/Engine.antt =====
-- src/engine.rs: the llama.cpp engine. What it calls of llama.cpp is the parameter `Llama`; f32
-- arithmetic is the parameter `Float`. A token is an i32, here its bit pattern, and counts are
-- natural numbers: the conversions to u32 and i32 that the source checks are checked here.
pub mod Group
pub mod Isolate
pub mod Lane
pub mod Llama
pub mod Encode
pub mod Embed
pub mod Devices
pub mod Load
pub mod Policy
