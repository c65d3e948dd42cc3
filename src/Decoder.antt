-- ===== src/Decoder.antt =====
-- internal/decoder: the telegram and its text format.
pub mod Tables
pub mod Telegram
pub mod Decode
pub mod Generator
mod Tests
