-- ===== src/Paths.antt =====
-- Names of files and hosts, taken apart by src/mms_util.c.
pub mod Search
pub mod Files
pub mod Hosts
pub mod ContentTypes
pub mod Copies
