-- ===== src/Linked.antt =====
-- The doubly linked list of src/mms_list.c.
pub mod Spec
pub mod Nodes
pub mod Calls
pub mod Segments
pub mod Holds
pub mod Growth
pub mod Walks
pub mod Removal
pub mod Search
pub mod Release
