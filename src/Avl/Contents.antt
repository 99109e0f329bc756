-- ===== src/Avl/Contents.antt =====
-- What the operations do to the data of the tree, in order. No rebalancing changes it.
pub mod Rebalance
pub mod Grown
pub mod Insert
pub mod Replace
pub mod Shrunk
pub mod Delete
pub mod Query
