-- ===== src/Body.antt =====
-- The body of a message: src/mms_body.c.
pub mod Count
pub mod State
pub mod Codec
pub mod Untyped
