-- ===== src/DataStructure.antt =====
-- data_structure/: the samples of data structures.
pub mod UserList
pub mod ContainerOf
