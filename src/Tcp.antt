-- ===== src/Tcp.antt =====
-- Dev/Main/src/TransProxy/TcpConnection.h and TcpConnection.cpp: a TCP connection that the proxy ends
-- itself, over two rings of bytes.
pub mod State
pub mod Send
pub mod Call
pub mod Receive
pub mod Timer
pub mod Open
pub mod Segments
pub mod Valid
pub mod Steps
pub mod Run
pub mod Sent
pub mod Arrived
pub mod Stream
pub mod Stale
pub mod Giveup
pub mod Ports
mod Tests
pub mod Wire
pub mod Server
