-- ===== src/Dns.antt =====
-- The DNS sinkhole: platform/linux/network.
pub mod Packet
pub mod Response
pub mod Wire
pub mod Query
pub mod Answer
pub mod LongNames
pub mod Server
