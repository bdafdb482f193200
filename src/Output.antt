-- ===== src/Output.antt =====
-- The growing output buffer of src/mms_output_buffer.c.
pub mod State
pub mod Encode
pub mod Transactions
pub mod Valid
pub mod Append
pub mod Integers
pub mod Digits
pub mod Lengths
pub mod Strings
pub mod Log
pub mod Leave
pub mod Sequences
pub mod Lifetime
pub mod Measure
pub mod Temporary
