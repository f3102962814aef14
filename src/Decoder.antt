-- ===== src/Decoder.antt =====
-- internal/decoder/decoder.go: from bytes of the ROM to instructions.
pub mod Types
pub mod Text
pub mod Encoding
pub mod Switch
pub mod Cb
pub mod Cache
pub mod Encode
pub mod Facts
pub mod Fetch
pub mod Tests
pub mod Every
pub mod Cycles
