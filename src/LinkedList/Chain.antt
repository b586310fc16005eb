-- ===== src/LinkedList/Chain.antt =====
-- What a header and its elements stand for: the doubly linked chain of struct list_element in
-- gps/utils/linked_list.c, as a list of cells from p_head to p_tail.
mod Split
mod Relink
pub use Split.*
pub use Relink.*
