-- ===== src/Avl.antt =====
-- c/libs/fastcommon/src/avl_tree.c, an AVL tree of `void *` data: the operations of `AVLTreeInfo`.
pub mod Node
pub mod Rebalance
pub mod Insert
pub mod Delete
pub mod Query
pub mod Shape
pub mod Order
pub mod Contents
pub mod Tree
pub mod Laws
