-- ===== src/Header.antt =====
-- The headers of a message: src/mms_header.c.
pub mod State
pub mod Setters
pub mod Codec
pub mod Names
pub mod Found
pub mod Laws
pub mod GetSet
pub mod Packing
