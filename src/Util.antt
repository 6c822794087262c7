-- ===== src/Util.antt =====
-- The utility classes of src/util that the kernel is built on.
pub mod Hash
pub mod Arith
pub mod Name
pub mod SplayTree
pub mod SplayMap
pub mod ScopedMap
