-- ===== src/Dsa.antt =====
-- The queues of include/lib/dsa whose nodes hold pointers: each of them stands for a list of nodes.
pub mod Ends
pub mod Chain
pub mod Dq
pub mod Sq
pub mod Stackq
pub mod Refine
mod Tests
