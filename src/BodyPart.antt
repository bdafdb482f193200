-- ===== src/BodyPart.antt =====
-- The parts of a message's body: src/mms_body_part.c.
pub mod State
pub mod Codec
pub mod Named
