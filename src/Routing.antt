-- ===== src/Routing.antt =====
-- src/routing.rs: the routing table, its buckets and what they keep. Ids are the numbers of
-- `Node.long_id`; seconds and milliseconds are arguments.
pub mod Bucket
pub mod Table
pub mod Tests
