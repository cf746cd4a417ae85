-- ===== src/Wire.antt =====
-- Bytes and hexadecimal texts: what the message codecs stand on.
pub mod Bytes
pub mod Hex
pub mod Packing
pub mod HexText
