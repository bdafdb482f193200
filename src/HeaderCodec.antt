-- ===== src/HeaderCodec.antt =====
-- The items of an MMS header on the wire: src/mms_header_codec.c.
pub mod Kinds
pub mod Pack
pub mod Unpack
pub mod Forms
pub mod Writing
pub mod Reading
pub mod Whole
