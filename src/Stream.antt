-- ===== src/Stream.antt =====
-- The DeepSeek response stream, main/proxy/adapters/deepseek-stream.ts: the decoder of the provider's
-- events, the errors it reports and the two handlers.
pub mod Json
pub mod Errors
pub mod Decoder
pub mod Events
pub mod Handler
pub mod Answer
mod Examples
