-- ===== src/ContentType.antt =====
-- Content types with their parameters: src/mms_content_type.c.
pub mod Table
pub mod State
pub mod Pack
pub mod Unpack
pub mod Facts
