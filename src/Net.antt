-- ===== src/Net.antt =====
-- src/net: the routing table, the path MTU cache, congestion control the cache of neighbours and the
-- packet pools.
pub mod Route
pub mod Pmtu
pub mod TcpCc
pub mod Arp
pub mod PacketPool
