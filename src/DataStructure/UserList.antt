-- ===== src/DataStructure/UserList.antt =====
-- data_structure/list.c: a list of users on a `list_head`, with lookup, update and delete.
pub mod Text
pub mod Buffer
pub mod Memory
pub mod Users
pub mod Init
pub mod Spec
pub mod Rep
pub mod Links
pub mod Lookup
pub mod Free
pub mod Building
pub mod Build
pub mod Cart
pub mod Log
pub mod Silent
pub mod Listing
pub mod Effects
pub mod Pointed
pub mod Update
pub mod Survivors
pub mod Load
pub mod Names
