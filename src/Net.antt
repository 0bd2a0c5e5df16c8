-- ===== src/Net.antt =====
-- Dev/Main/src/Net: socket addresses and their order.
pub mod Compare
pub mod Lex
pub mod Sock
pub mod Pair
pub mod Service
pub mod Checksum
pub mod Packet
pub mod Ip
pub mod TcpHeader
pub mod UdpHeader
pub mod IpFilled
pub mod Buffer
