-- ===== src/Input.antt =====
-- The input buffer of src/mms_input_buffer.c: a cursor over a received message.
pub mod State
pub mod Decode
pub mod Reads
pub mod Integers
pub mod Lengths
pub mod Limits
pub mod Total
pub mod Extent
pub mod Strings
