-- ===== src/Names.antt =====
-- Names and their numbers: the lookups of src/mms_util.c and the tables that they search.
pub mod Pairs
pub mod CharsetsFirst
pub mod CharsetsSecond
pub mod Headers
pub mod Lookup
pub mod Tables
pub mod Values
pub mod HeaderValues
pub mod Vals
